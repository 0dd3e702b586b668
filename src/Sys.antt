-- ===== src/Sys.antt =====
-- internal/sys: the mounts as the kernel lists them.
mod Defs
mod Laws
unfoldable pub use Defs.*
pub use Laws.*
