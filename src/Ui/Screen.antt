-- ===== src/Ui/Screen.antt =====
-- internal/ui/frame.go: the output above the input box, and the terminal's scrollback.
mod Defs
mod Device
mod Rows
mod Laws
mod Session
unfoldable pub use Defs.*
unfoldable pub use Device.*
pub use Rows.*
pub use Laws.*
unfoldable pub use Session.*
