-- ===== src/Config/Resolve.antt =====
-- internal/config/config.go, `Resolve`: a config checked against the file system and flattened.
mod Defs
mod Claims
mod Place
mod Laws
unfoldable pub use Defs.*
pub use Laws.*
pub use Claims.{Disjoint}
