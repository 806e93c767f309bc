-- ===== src/Events.antt =====
-- The message secrets, the salt and the buffers of events of store/sqlstore/store.go.
mod Secrets
mod Buffers
unfoldable pub use Secrets.*
unfoldable pub use Buffers.*
pub mod Kept
