-- ===== src/Complete/Defs.antt =====
-- internal/complete/complete.go: `Parse`, with what it uses of package strings.
use vibepod.Base.{Bool, ◌&&◌, ◌||◌, Option, none, some, List, [], ◌∷◌, ◌++◌}
use vibepod.Base.{Text, codes, ◌==◌, if◌then◌else◌, nat_eq, text_eq, contains}
use vibepod.Strings.Space.{trim_space}
use vibepod.Strings.{split, cut_text}

-- `strings.TrimRight(l, "\r ")`
unfoldable pub trim_right : Text → Text
trim_right [] = []
trim_right (x ∷ s) =
    let rest = trim_right s in if rest == [] && (x == 0x0d || x == 0x20) then [] else x ∷ rest

-- `Candidate`
pub record Candidate : Type 0 where
  pub word : Text
  pub desc : Text

unfoldable pub cut_or : Text → Option (Text × Text) → Text × Text
cut_or l none = (l, [])
cut_or l (some c) = c

-- What a line offers.
unfoldable pub candidate : Text → Candidate
unfolding cut_or cut_text trim_space
candidate l =
    let c = cut_or l (cut_text l (codes " -- ")) in record { word = c.0; desc = trim_space c.1 }

pub record Parsing : Type 0 where
  pub candidates : List Candidate
  pub seen : List Text

-- The body of the loop behind the test for a blank line.
unfoldable pub add_candidate : Candidate → Parsing → Parsing
add_candidate c p =
    if contains p.seen c.word
    then p
    else record { candidates = p.candidates ++ c ∷ []; seen = c.word ∷ p.seen }

unfoldable pub is_blank : Text → Bool
unfolding trim_space
is_blank l = trim_space l == []

unfoldable pub parse_line : Text → Parsing → Parsing
parse_line l p = if is_blank (trim_right l) then p else add_candidate (candidate (trim_right l)) p

unfoldable pub parse_lines : List Text → Parsing → Parsing
parse_lines [] p = p
parse_lines (l ∷ ls) p = parse_lines ls (parse_line l p)

-- `Parse`
unfoldable pub parse : Text → List Candidate
parse out = (parse_lines (split out 0x0a) (record { candidates = []; seen = [] })).candidates
