-- ===== src/Daemon/Backends.antt =====
-- internal/daemon/backend.go: which machine a session is on, and which machines there are; and
-- internal/daemon/ports.go, whose forwards go to them.
mod Defs
mod Ports
mod Moves
mod Reach
mod PortLaws
unfoldable pub use Defs.*
unfoldable pub use Ports.*
pub use Moves.*
pub use Reach.*
pub use PortLaws.*
