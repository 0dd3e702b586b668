-- ===== src/View.antt =====
-- cmd/vibepod/view.go: what `vp tree` shows.
pub mod Filter
