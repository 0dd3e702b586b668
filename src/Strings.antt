-- ===== src/Strings.antt =====
-- What the program uses of Go's package strings, on byte strings.
mod Defs
mod Laws
pub mod Space
unfoldable pub use Defs.*
pub use Laws.*
