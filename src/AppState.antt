-- ===== src/AppState.antt =====
-- The state that is synchronized between devices: the app state keys, versions and MACs of
-- store/sqlstore/store.go.
mod Store
pub mod Keys
pub mod Rows
pub mod Macs
unfoldable pub use Store.*
