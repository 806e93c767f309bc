-- ===== src/Device.antt =====
-- A device: its row (store/sqlstore/container.go), its life (store/store.go) and the stores that answer
-- for it, the deleted device's included (store/noop.go).
mod Types
mod Interfaces
mod Noop
mod Container
mod Methods
mod Protocol
pub mod Trust
unfoldable pub use Types.*
unfoldable pub use Interfaces.*
unfoldable pub use Noop.*
unfoldable pub use Container.*
unfoldable pub use Methods.*
unfoldable pub use Protocol.*
pub mod RoundTrip
pub mod Outcome
pub mod Erasure
pub mod Refusal
pub mod Life
pub mod Alternate
