-- ===== src/PreKeys.antt =====
-- The one-time pre keys of a device (store/sqlstore/store.go).
mod Store
pub mod Rows
pub mod Insert
mod Existing
pub mod Generate
pub mod Mark
pub mod Returns
unfoldable pub use Store.*
