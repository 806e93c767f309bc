-- ===== src/Table.antt =====
-- Keyed rows: a Go map, or an SQL table with a primary key. The statements and map operations that
-- the store code uses, as functions on association lists.
mod Defs
mod Laws
pub mod Move
unfoldable pub use Defs.*
pub use Laws.*
unfoldable pub use mathlib.Core.List.{lookup}
