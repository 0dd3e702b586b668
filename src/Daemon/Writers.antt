-- ===== src/Daemon/Writers.antt =====
-- internal/daemon/reconcile.go, `desired`, `isWriter` and `releaseWriter`, and internal/daemon/relay.go,
-- `via`: which mounts a machine should hold, whether it may write to them, and how it reaches them.
mod Defs
mod Claims
mod Laws
unfoldable pub use Defs.*
pub use Laws.*
