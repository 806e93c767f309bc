-- ===== src/Signal.antt =====
-- The Signal protocol's tables in store/sqlstore/store.go, and the device's view of them in
-- store/signal.go and store/sessioncache.go.
mod Tables
mod Store
mod Cache
pub mod Migrate
pub mod Migrated
pub mod Flush
pub mod Refinement
pub mod Simulation
pub mod Prefetch
unfoldable pub use Tables.*
unfoldable pub use Store.*
unfoldable pub use Cache.*
