-- ===== src/Event.antt =====
-- internal/event/event.go: the bus that carries what happens to whoever watches.
mod Defs
mod History
mod Delivery
unfoldable pub use Defs.*
pub use History.*
pub use Delivery.*
