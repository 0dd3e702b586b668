-- ===== src/Ui/Marks.antt =====
-- internal/ui/marks.go: the parser of a shell's output.
mod Defs
mod Scan
mod ScanLaws
mod Feed
mod Chunks
mod Bounds
unfoldable pub use Defs.*
unfoldable pub use Scan.*
pub use ScanLaws.*
pub use Bounds.*
