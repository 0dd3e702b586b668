-- ===== src/Ui/Frames.antt =====
-- internal/daemon/session.go and internal/ui/marks.go: what the daemon tells a framed terminal, and how
-- the terminal reads it.
use vibepod.Base.{ℕ}
use vibepod.Base.{◌≢◌}

-- A byte that a mark can hold in the name of a machine.
abbrev pub IsNameByte : ℕ → Type 0
IsNameByte c = (c ≢ 0x07) × (c ≢ 0x1b) × (c ≢ b';')

abbrev IsBodyByte : ℕ → Type 0
IsBodyByte c = (c ≢ 0x07) × (c ≢ 0x1b)
