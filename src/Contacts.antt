-- ===== src/Contacts.antt =====
-- The contacts of a device and their cache (store/sqlstore/store.go).
mod Store
pub mod InStep
pub mod Puts
pub mod Batches
pub mod Everyone
pub mod Operations
unfoldable pub use Store.*
