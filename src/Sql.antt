-- ===== src/Sql.antt =====
-- What the store code takes from database/sql and dbutil: statements that may fail, rows that may
-- stop short, and transactions. A program of this module reads and writes the database `D` and the
-- memory `C` of the process (the caches), and returns a value or an error.
mod Defs
mod Laws
pub mod Post
unfoldable pub use Defs.*
unfoldable pub use Laws.*
