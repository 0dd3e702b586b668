-- ===== src/Ring.antt =====
-- internal/term/ring.go: the scrollback that a detached session keeps.
mod Defs
mod Window
mod Refine
unfoldable pub use Defs.*
pub use Window.*
pub use Refine.*
