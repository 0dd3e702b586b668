-- ===== src/Config.antt =====
-- internal/config: vibepod.yaml, checked and flattened, and the machines of the ssh config.
pub mod Guard
pub mod Remote
pub mod Resolve
pub mod Save
pub mod SshHosts
