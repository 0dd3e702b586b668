-- ===== src/Ui/Input/Sound.antt =====
-- internal/ui/commands.go and shell.go: no key makes the prompt panic.
use vibepod.Base.{text_eq, nat_eq}
