-- ===== src/Ui/History.antt =====
-- internal/ui/handover.go: the history of the lines that were typed, in its file.
mod Defs
mod Laws
unfoldable pub use Defs.*
pub use Laws.*
