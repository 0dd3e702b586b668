-- ===== src/Node.antt =====
-- internal/node/node.go: what a node pod holds, and the requests by which that changes.
mod Defs
mod Laws
unfoldable pub use Defs.*
unfoldable pub use Laws.*
