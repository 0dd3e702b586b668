-- ===== src/Strings/Space.antt =====
-- What the program uses of Go's package strings, where white space is concerned.
use vibepod.Base.{ℕ, zero, suc, List, [], ◌∷◌, ◌++◌, map, Text, length, if◌then◌else◌, text_eq}
use vibepod.Strings.Defs.{has_prefix}

-- The characters that `unicode.IsSpace` names, in UTF-8.
abbrev pub spaces : List Text
spaces =
    (0x09 ∷ [])
    ∷ (0x0a ∷ [])
    ∷ (0x0b ∷ [])
    ∷ (0x0c ∷ [])
    ∷ (0x0d ∷ [])
    ∷ (0x20 ∷ [])
    ∷ (0xc2 ∷ 0x85 ∷ [])
    ∷ (0xc2 ∷ 0xa0 ∷ [])
    ∷ (0xe1 ∷ 0x9a ∷ 0x80 ∷ [])
    ∷ (0xe2 ∷ 0x80 ∷ 0x80 ∷ [])
    ∷ (0xe2 ∷ 0x80 ∷ 0x81 ∷ [])
    ∷ (0xe2 ∷ 0x80 ∷ 0x82 ∷ [])
    ∷ (0xe2 ∷ 0x80 ∷ 0x83 ∷ [])
    ∷ (0xe2 ∷ 0x80 ∷ 0x84 ∷ [])
    ∷ (0xe2 ∷ 0x80 ∷ 0x85 ∷ [])
    ∷ (0xe2 ∷ 0x80 ∷ 0x86 ∷ [])
    ∷ (0xe2 ∷ 0x80 ∷ 0x87 ∷ [])
    ∷ (0xe2 ∷ 0x80 ∷ 0x88 ∷ [])
    ∷ (0xe2 ∷ 0x80 ∷ 0x89 ∷ [])
    ∷ (0xe2 ∷ 0x80 ∷ 0x8a ∷ [])
    ∷ (0xe2 ∷ 0x80 ∷ 0xa8 ∷ [])
    ∷ (0xe2 ∷ 0x80 ∷ 0xa9 ∷ [])
    ∷ (0xe2 ∷ 0x80 ∷ 0xaf ∷ [])
    ∷ (0xe2 ∷ 0x81 ∷ 0x9f ∷ [])
    ∷ (0xe3 ∷ 0x80 ∷ 0x80 ∷ [])
    ∷ []

-- The length of the one that a text starts with, 0 if there is none.
unfoldable pub space_at : List Text → Text → ℕ
space_at [] s = 0
space_at (p ∷ ps) s = if has_prefix s p then length p else space_at ps s

-- A text without those it starts with; `k` bytes of one are still to be passed.
unfoldable pub after_spaces : List Text → ℕ → Text → Text
unfolding space_at
after_spaces ps k [] = []
after_spaces ps (suc k) (x ∷ s) = after_spaces ps k s
after_spaces ps zero (x ∷ s) = elim (space_at ps (x ∷ s)) [
  | zero ↦ x ∷ s
  | suc n ↦ after_spaces ps n s
]

unfoldable pub backwards : Text → Text → Text
backwards [] out = out
backwards (x ∷ s) out = backwards s (x ∷ out)

-- `strings.TrimSpace`
unfoldable pub trim_space : Text → Text
unfolding after_spaces backwards
trim_space s =
    let front = after_spaces spaces 0 s in
    backwards (after_spaces (map (λ p. backwards p []) spaces) 0 (backwards front [])) []

unfoldable pub with_field : Text → List Text → List Text
with_field [] fs = fs
with_field (x ∷ cur) fs = (x ∷ cur) ∷ fs

unfoldable pub fields_from : ℕ → Text → Text → List Text
unfolding with_field space_at
fields_from k cur [] = with_field cur []
fields_from (suc k) cur (x ∷ s) = fields_from k cur s
fields_from zero cur (x ∷ s) = elim (space_at spaces (x ∷ s)) [
  | zero ↦ fields_from 0 (cur ++ x ∷ []) s
  | suc n ↦ with_field cur (fields_from n [] s)
]

-- `strings.Fields`
unfoldable pub fields : Text → List Text
unfolding fields_from
fields s = fields_from 0 [] s
