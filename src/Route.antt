-- ===== src/Route.antt =====
-- internal/route/route.go: what a directory of the pod is called on a machine.
mod Defs
mod Order
mod Lookup
unfoldable pub use Defs.*
pub use Order.*
pub use Lookup.*
