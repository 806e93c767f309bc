-- ===== src/Tokens.antt =====
-- The privacy tokens of store/sqlstore/store.go.
mod Store
pub mod Other
pub mod Newest
unfoldable pub use Store.*
