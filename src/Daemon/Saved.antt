-- ===== src/Daemon/Saved.antt =====
-- internal/daemon/mount.go, `saveState`: the running pod as a configuration.
mod Defs
mod Local
mod Written
mod Laws
unfoldable pub use Defs.*
pub use Local.*
pub use Written.*
pub use Laws.*
