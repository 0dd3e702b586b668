-- ===== src/Ui.antt =====
-- internal/ui: what of the terminal interface is not drawing.
pub mod History
pub mod Input
pub mod Screen
pub mod Marks
pub mod Frames
