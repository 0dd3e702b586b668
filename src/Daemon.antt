-- ===== src/Daemon.antt =====
-- internal/daemon: what the daemon keeps about a running pod, a module for each part.
pub mod Env
pub mod SessionEnv
pub mod Tracker
pub mod Sessions
pub mod Backends
pub mod Dispatch
pub mod Mounts
pub mod Unmount
pub mod Saved
pub mod Hosts
pub mod Writers
pub mod Reconcile
