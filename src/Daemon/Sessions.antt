-- ===== src/Daemon/Sessions.antt =====
-- internal/daemon/session.go: the shells of a session, and the terminals that watch it.
mod Defs
mod Steps
mod Table
mod Switching
mod Ending
mod Laws
mod Streamed
mod StreamSteps
mod Stream
unfoldable pub use Defs.*
unfoldable pub use Steps.*
unfoldable pub use Streamed.*
pub use Table.*
pub use Laws.*
pub use Stream.*
