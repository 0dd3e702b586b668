-- ===== src/Ui/History/Defs.antt =====
-- internal/ui/handover.go: `loadHistory`, `appendHistory`, `escapeHist` and `unescapeHist`.
use vibepod.Base.{ℕ, List, [], ◌∷◌, ◌++◌, ◌-◌, Text, true, false, Option, none, some, map}
use vibepod.Base.{◌==◌, if◌then◌else◌, nat_eq, text_eq, length, drop, ltb}
use vibepod.Strings.{split}

-- `escapeHist`: a text of several lines is one line in the file.
unfoldable pub escape_hist : Text → Text
escape_hist [] = []
escape_hist (x ∷ s) =
    let rest = escape_hist s in
    if x == b'\\' then b'\\' ∷ b'\\' ∷ rest else if x == 0x0a then b'\\' ∷ b'n' ∷ rest else x ∷ rest

-- `unescapeHist`
unfoldable pub unescape_hist : Text → Text
unescape_hist [] = []
unescape_hist (x ∷ []) = x ∷ []
unescape_hist (x ∷ y ∷ s) = elim (x == b'\\') [
  | true ↦ (if y == b'n' then 0x0a else y) ∷ unescape_hist s
  | false ↦ x ∷ unescape_hist (y ∷ s)
]

-- `maxHistory`
abbrev pub max_history : ℕ
max_history = 5_000

-- The longest line that a `bufio.Scanner` with a buffer of 1 MB reads.
abbrev pub max_line : ℕ
max_line = 1_048_575

-- `bufio.ScanLines` leaves a carriage return at the end of a line out.
unfoldable pub drop_return : Text → Text
drop_return [] = []
drop_return (x ∷ []) = if x == 0x0d then [] else x ∷ []
drop_return (x ∷ y ∷ s) = x ∷ drop_return (y ∷ s)

-- The lines that the scanner returns, of the pieces between the newlines. An empty piece at the end is
-- no line, and at a line that is too long the scan ends.
unfoldable pub scanned : List Text → List Text
scanned [] = []
scanned (l ∷ []) =
    if l == [] then [] else if ltb max_line (length l) then [] else drop_return l ∷ []
scanned (l ∷ m ∷ ls) =
    let rest = scanned (m ∷ ls) in if ltb max_line (length l) then [] else drop_return l ∷ rest

unfoldable pub newest : List Text → List Text
newest out = if ltb max_history (length out) then drop (length out - max_history) out else out

-- `loadHistory`, of what the file holds; none where it cannot be opened, or has no path.
unfoldable pub load_history : Option Text → List Text
load_history none = []
load_history (some file) = newest (map unescape_hist (scanned (split file 0x0a)))

-- `appendHistory`, to a file that can be opened.
unfoldable pub append_history : Text → Text → Text
append_history file line = file ++ (escape_hist line ++ 0x0a ∷ [])

-- The file after some lines.
unfoldable pub append_all : Text → List Text → Text
append_all file [] = file
append_all file (l ∷ ls) = append_all (append_history file l) ls
