-- ===== src/Daemon/Dispatch.antt =====
-- internal/daemon/backend.go, `dispatch`, up to the point where the command runs: on which machine,
-- in which directory, or why not.
mod Defs
mod Laws
unfoldable pub use Defs.*
pub use Laws.*
