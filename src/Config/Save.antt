-- ===== src/Config/Save.antt =====
-- internal/config/save.go: the configuration that is written for a running pod.
mod Defs
unfoldable pub use Defs.*
