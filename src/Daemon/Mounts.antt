-- ===== src/Daemon/Mounts.antt =====
-- internal/daemon/mount.go: the live mount list.
mod Defs
mod Laws
mod Allowed
unfoldable pub use Defs.*
pub use Laws.*
unfoldable pub use Allowed.*
