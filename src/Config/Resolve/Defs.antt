-- ===== src/Config/Resolve/Defs.antt =====
-- internal/config/config.go: the types of vibepod.yaml, and `Resolve`.
mod Types
mod Placed
mod Assembly
unfoldable pub use Types.*
unfoldable pub use Placed.*
unfoldable pub use Assembly.*
