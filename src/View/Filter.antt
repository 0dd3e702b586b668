-- ===== src/View/Filter.antt =====
-- cmd/vibepod/view.go: the views of the tree that are questions.
mod Defs
mod Branches
mod Laws
unfoldable pub use Defs.*
pub use Branches.*
pub use Laws.*
