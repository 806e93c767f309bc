-- ===== src/Chats.antt =====
-- The settings of chats (store/sqlstore/store.go).
mod Store
pub mod Muted
unfoldable pub use Store.*
