-- ===== src/Daemon/Sessions/Laws.antt =====
-- internal/daemon/session.go: the shells of a session at any time.
use vibepod.Base.{nat_eq, text_eq}
use vibepod.Base.Dict.{Dict}
