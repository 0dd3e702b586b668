-- ===== src/Remote.antt =====
-- internal/remote/exec.go and shell.go: the command lines that a shell on another machine reads.
mod Defs
mod Words
mod Laws
mod Script
unfoldable pub use Defs.*
unfoldable pub use Words.*
pub use Laws.*
pub use Script.*
