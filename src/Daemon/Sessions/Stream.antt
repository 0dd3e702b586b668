-- ===== src/Daemon/Sessions/Stream.antt =====
-- internal/daemon/session.go: what a terminal is written from `attach` on, while one shell is shown.
use vibepod.Base.{nat_eq, text_eq}
use vibepod.Ring.{Ring}
