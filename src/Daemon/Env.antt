-- ===== src/Daemon/Env.antt =====
-- internal/daemon/env.go: which of a command's variables cross to another machine.
mod Defs
mod Verdict
mod Loop
mod Laws
unfoldable pub use Defs.*
pub use Verdict.{SetByCaller, Crosses, Refused}
pub use Laws.*
