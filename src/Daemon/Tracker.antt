-- ===== src/Daemon/Tracker.antt =====
-- internal/daemon/tracker.go: the commands that a pod was told about.
mod Defs
mod Kept
mod Laws
mod Watch
mod Tree
mod TreeLaws
unfoldable pub use Defs.*
unfoldable pub use Tree.*
pub use Kept.*
pub use Laws.*
pub use Watch.*
pub use TreeLaws.*
