-- ===== src/Daemon/Unmount.antt =====
-- internal/daemon/mount.go, `removeMount`: a mount goes away from a running pod.
mod Defs
mod Home
mod Laws
unfoldable pub use Defs.*
unfoldable pub use Home.*
pub use Laws.*
