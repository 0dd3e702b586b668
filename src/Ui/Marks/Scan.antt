-- ===== src/Ui/Marks/Scan.antt =====
-- What the output of a shell says, byte by byte: a description of the stream that knows nothing of
-- how it is cut into reads, nor of how text is gathered into events.
use vibepod.Base.{ℕ, zero, suc, not, Option, none, some, List, [], ◌∷◌, ◌++◌}
use vibepod.Base.{Text, ◌==◌, if◌then◌else◌, nat_eq, ltb, length}
use vibepod.Ui.Marks.Defs.{Event, text, max_osc, osc_end, parse_osc}

pub data Item : Type 0 where
  byte : ℕ → Item
  sign : Event → Item

unfoldable pub bytes : Text → List Item
bytes [] = []
bytes (c ∷ s) = byte c ∷ bytes s

unfoldable pub spell_one : Event → List Item
unfolding bytes
spell_one (text d) = bytes d
spell_one ev = sign ev ∷ []

-- What events say.
unfoldable pub spell : List Event → List Item
unfolding spell_one
spell [] = []
spell (ev ∷ evs) = spell_one ev ++ spell evs

-- What is read, and the end that says nothing yet.
pub record Reading : Type 0 where
  pub items : List Item
  pub rest : Text

unfoldable pub after : List Item → Reading → Reading
after is r = record r { items = is ++ r.items }

pub data Skip : Type 0 where
  copied dropped : Skip

-- The bytes that an escape takes with it.
pub data Escape : Type 0 where
  unfinished : Escape
  literal : ℕ → Escape
  marked : Event → ℕ → Escape

unfoldable pub ended_escape : ℕ → Option Event → Escape
ended_escape n none = literal (suc n)
ended_escape n (some ev) = marked ev (suc n)

-- The escape that begins with `ESC ]`, before the text `s`, whose end is what `oscEnd` says.
unfoldable pub osc_escape : Text → Option (Text × ℕ) → Escape
unfolding ended_escape
osc_escape s none = if ltb max_osc (suc (suc (length s))) then literal 1 else unfinished
osc_escape s (some (body, n)) = ended_escape n (parse_osc body)

-- The escape before the text `s`: how many bytes of `s` belong to it.
unfoldable pub escape_before : Text → Escape
unfolding osc_escape
escape_before [] = unfinished
escape_before (c ∷ s) = if not (c == b']') then literal 1 else osc_escape s (osc_end s)

unfoldable pub passed : Skip → ℕ → List Item
passed copied c = byte c ∷ []
passed dropped c = []

-- What an escape says; `go` reads on behind so many bytes, copied or dropped.
unfoldable pub read_escape : (Skip → ℕ → Reading) → Text → Escape → Reading
unfolding after spell_one
read_escape go s unfinished = record { items = []; rest = 0x1b ∷ s }
read_escape go s (literal n) = after (byte 0x1b ∷ []) (go copied n)
read_escape go s (marked ev n) = after (spell_one ev) (go dropped n)

-- The reading of a text, of which the first `n` bytes belong to an escape.
unfoldable pub scan : Text → Skip → ℕ → Reading
unfolding after passed read_escape
scan [] m n = record { items = []; rest = [] }
scan (c ∷ s) m (suc n) = after (passed m c) (scan s m n)
scan (c ∷ s) m zero =
    let plain = after (byte c ∷ []) (scan s copied 0) in
    let escape = read_escape (scan s) s (escape_before s) in if c == 0x1b then escape else plain
