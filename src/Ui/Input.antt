-- ===== src/Ui/Input.antt =====
-- internal/ui/commands.go: the commands of `vp shell`, the menu over its line, and completion.
mod Defs
mod Area
mod MenuKeys
mod PromptKeys
mod Bounds
mod Prefix
mod Laws
mod MenuSound
mod Sound
unfoldable pub use Defs.*
unfoldable pub use Area.*
unfoldable pub use MenuKeys.*
unfoldable pub use PromptKeys.*
pub use Prefix.*
pub use Laws.*
unfoldable pub use MenuSound.*
pub use Sound.*
