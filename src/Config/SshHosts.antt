-- ===== src/Config/SshHosts.antt =====
-- internal/config/sshconfig.go: the machines that the user's ssh config names.
mod Defs
mod Visit
mod Laws
unfoldable pub use Defs.*
pub use Visit.*
pub use Laws.*
