-- ===== src/Filepath.antt =====
-- What the program uses of Go's package path/filepath, on Unix.
mod Defs
mod Laws
unfoldable pub use Defs.*
pub use Laws.*
