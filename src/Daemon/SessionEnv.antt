-- ===== src/Daemon/SessionEnv.antt =====
-- internal/daemon/daemon.go: the environment with which a session starts.
mod Defs
mod Laws
unfoldable pub use Defs.*
pub use Laws.*
