-- ===== src/Daemon/Reconcile.antt =====
-- internal/daemon/reconcile.go: bringing a node pod to the desired mount list.
mod Defs
mod Sync
mod Loops
mod Laws
mod Chain
mod Progress
mod Wanted
unfoldable pub use Defs.*
pub use Laws.*
pub use Chain.{Works}
pub use Progress.*
pub use Wanted.*
