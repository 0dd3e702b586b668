-- ===== src/Daemon/Hosts.antt =====
-- internal/daemon/daemon.go: the machines of a pod.
mod Defs
mod Names
mod Dirs
mod Laws
unfoldable pub use Defs.*
unfoldable pub use Names.{rule_names, names_of}
unfoldable pub use Dirs.{owned_dirs}
pub use Laws.*
