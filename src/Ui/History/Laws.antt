-- ===== src/Ui/History/Laws.antt =====
-- internal/ui/handover.go: what was typed is what is loaded.
use vibepod.Base.{List, [], ◌∷◌, ◌++◌, ◌≤◌}
use vibepod.Base.{◌≡◌}
use vibepod.Base.{Text, nat_eq, text_eq, length}
use vibepod.Ui.History.Defs.{escape_hist, max_line, drop_return}

-- The lines of the file that the entries make.
abbrev file_of : List Text → Text
file_of [] = []
file_of (l ∷ ls) = escape_hist l ++ (0x0a ∷ file_of ls)

-- What a scanner can read: lines that are not too long and end with no carriage return.
abbrev pub IsReadable : Text → Type 0
IsReadable l = (length (escape_hist l) ≤ max_line) × (drop_return (escape_hist l) ≡ escape_hist l)
