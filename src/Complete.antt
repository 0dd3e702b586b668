-- ===== src/Complete.antt =====
-- internal/complete/complete.go: what the shell of a machine offers for a line.
mod Defs
mod Laws
unfoldable pub use Defs.*
pub use Laws.*
