-- ===== src/Strings/Defs.antt =====
-- What the program uses of Go's package strings, on byte strings.
use vibepod.Base.{ℕ, Bool, true, false, ◌&&◌, ◌||◌, Option, none, some, List, [], ◌∷◌, ◌++◌}
use vibepod.Base.{Text, ◌==◌, if◌then◌else◌, nat_eq, text_eq, length, drop, ltb}

unfoldable pub has_prefix : Text → Text → Bool
has_prefix s [] = true
has_prefix [] (p ∷ ps) = false
has_prefix (c ∷ s) (p ∷ ps) = c == p && has_prefix s ps

unfoldable pub trim_prefix : Text → Text → Text
unfolding has_prefix
trim_prefix s p = if has_prefix s p then drop (length p) s else s

-- `strings.TrimSuffix(s, "c")` for a suffix of one byte.
unfoldable pub trim_suffix : Text → ℕ → Text
trim_suffix [] c = []
trim_suffix (x ∷ []) c = if x == c then [] else x ∷ []
trim_suffix (x ∷ y ∷ s) c = x ∷ trim_suffix (y ∷ s) c

-- `strings.Cut(s, "c")` for a separator of one byte: what stands before its first occurrence, and
-- what stands behind it; `none` where it does not occur.
unfoldable pub cut : Text → ℕ → Option (Text × Text)
cut [] c = none
cut (x ∷ s) c =
    if x == c then some ([], s) else elim (cut s c) [ none ↦ none | some (a, b) ↦ some (x ∷ a, b) ]

-- `strings.Split(s, "c")` for a separator of one byte; a text with no separator is one part.
unfoldable pub split_from : Text → ℕ → Text → List Text
split_from [] c cur = cur ∷ []
split_from (x ∷ s) c cur = elim (x == c) [
  | true ↦ cur ∷ split_from s c []
  | false ↦ split_from s c (cur ++ x ∷ [])
]

unfoldable pub split : Text → ℕ → List Text
unfolding split_from
split s c = split_from s c []

unfoldable pub join : List Text → Text → Text
join [] sep = []
join (p ∷ []) sep = p
join (p ∷ q ∷ ps) sep = p ++ sep ++ join (q ∷ ps) sep

-- `strings.ReplaceAll(s, "c", r)` for a pattern of one byte.
unfoldable pub replace_all : Text → ℕ → Text → Text
replace_all [] c r = []
replace_all (x ∷ s) c r = if x == c then r ++ replace_all s c r else x ∷ replace_all s c r

-- Go's `<` on strings: by bytes.
unfoldable pub text_lt : Text → Text → Bool
text_lt [] [] = false
text_lt [] (y ∷ t) = true
text_lt (x ∷ s) [] = false
text_lt (x ∷ s) (y ∷ t) = ltb x y || (x == y && text_lt s t)

-- `strings.Cut(s, sep)` for any separator.
unfoldable pub cut_text : Text → Text → Option (Text × Text)
unfolding has_prefix
cut_text [] sep = if sep == [] then some ([], []) else none
cut_text (x ∷ s) sep =
    if has_prefix (x ∷ s) sep
    then some ([], drop (length sep) (x ∷ s))
    else elim (cut_text s sep) [ none ↦ none | some (a, b) ↦ some (x ∷ a, b) ]

-- `bytes.IndexByte(s, c)`: what stands before the first `c`, and the text from it on; the second
-- is empty where there is none.
unfoldable pub until_byte : Text → ℕ → Text × Text
until_byte [] c = ([], [])
until_byte (x ∷ s) c =
    let rest = until_byte s c in if x == c then ([], x ∷ s) else (x ∷ rest.0, rest.1)
