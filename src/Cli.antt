-- ===== src/Cli.antt =====
-- cli.go: the command line.
mod Args
pub mod Starts
unfoldable pub use Args.*
