-- ===== src/Strings/Laws.antt =====
-- The laws of the functions on strings.
use vibepod.Base.{ℕ, ◌≡◌, refl, ◌≢◌, true, false, none, some}
use vibepod.Base.{[], ◌∷◌, ◌++◌, Text, nat_eq, length, drop}
use vibepod.Base.{arith, ◌⊎◌, inl, inr, All, Option-cases}
use vibepod.Strings.Defs.{has_prefix, trim_prefix, trim_suffix, cut, text_lt}

-- A prefix is what a text begins with.
pub has_prefix-append : (p s : Text) → has_prefix (p ++ s) p ≡ true
unfolding has_prefix
has_prefix-append [] s = refl
has_prefix-append (c ∷ p) s = ground (arith, has_prefix-append p s)

pub has_prefix_more : (s r p : Text) → has_prefix s p ≡ true → has_prefix (s ++ r) p ≡ true
unfolding has_prefix
has_prefix_more s r [] h = refl
has_prefix_more [] r (c ∷ p) h = absurd (cc)
has_prefix_more (x ∷ s) r (c ∷ p) h = ground (arith, has_prefix_more s r p)

pub has_prefix_split : (s p : Text) → has_prefix s p ≡ true → (r : Text) × (s ≡ p ++ r)
unfolding has_prefix
has_prefix_split s [] h = (s, refl)
has_prefix_split [] (c ∷ p) h = absurd (cc)
has_prefix_split (x ∷ s) (c ∷ p) h =
    let (r, e) = has_prefix_split s p (ground arith) in (r, ground arith)

pub has_prefix_trans :
    (s p q : Text) → has_prefix s p ≡ true → has_prefix p q ≡ true → has_prefix s q ≡ true
unfolding has_prefix
has_prefix_trans s p [] h k = refl
has_prefix_trans s [] (c ∷ q) h k = absurd (cc)
has_prefix_trans [] (b ∷ p) (c ∷ q) h k = absurd (cc)
has_prefix_trans (a ∷ s) (b ∷ p) (c ∷ q) h k = ground (arith, has_prefix_trans s p q)

-- Two prefixes of one text are comparable.
pub has_prefix_common :
    (s p q : Text)
    → has_prefix s p ≡ true
    → has_prefix s q ≡ true
    → (has_prefix p q ≡ true) ⊎ (has_prefix q p ≡ true)
unfolding has_prefix
has_prefix_common s p [] h k = inl refl
has_prefix_common s [] (c ∷ q) h k = inr refl
has_prefix_common [] (b ∷ p) (c ∷ q) h k = absurd (cc)
has_prefix_common (a ∷ s) (b ∷ p) (c ∷ q) h k = ground (arith, has_prefix_common s p q)

-- A text has one prefix of each length.
pub has_prefix_unique :
    (s p q : Text) → has_prefix s p ≡ true → has_prefix s q ≡ true → length p ≡ length q → p ≡ q
unfolding has_prefix
has_prefix_unique s [] [] h k e = refl
has_prefix_unique s [] (c ∷ q) h k e = absurd (omega arith)
has_prefix_unique s (c ∷ p) [] h k e = absurd (omega arith)
has_prefix_unique [] (b ∷ p) (c ∷ q) h k e = absurd (cc)
has_prefix_unique (a ∷ s) (b ∷ p) (c ∷ q) h k e = ground (arith, has_prefix_unique s p q)

pub drop-append_self : (p s : Text) → drop (length p) (p ++ s) ≡ s
drop-append_self [] s = refl
drop-append_self (c ∷ p) s = drop-append_self p s

pub trim_prefix-append : (p s : Text) → trim_prefix (p ++ s) p ≡ s
unfolding trim_prefix
trim_prefix-append p s = rw has_prefix-append (drop-append_self p s)

-- Either the byte was not last, or it was and is gone.
pub trim_suffix-cases : (s : Text) (c : ℕ) → (trim_suffix s c ≡ s) ⊎ (s ≡ trim_suffix s c ++ c ∷ [])
unfolding trim_suffix
trim_suffix-cases [] c = inl refl
trim_suffix-cases (x ∷ []) c = ground arith
trim_suffix-cases (x ∷ y ∷ s) c = ground (arith, trim_suffix-cases (y ∷ s) c)

-- The two parts of a cut spell the text, and the first does not hold the separator.
pub cut_sound :
    (s : Text) (c : ℕ) {a b : Text} → cut s c ≡ some (a, b) → (s ≡ a ++ c ∷ b) × All (λ x. x ≢ c) a
unfolding cut
cut_sound [] c h = absurd (cc)
cut_sound (x ∷ s) c {a} {b} h = elim (Option-cases (cut s c)) [
  | inl e ↦ ground arith
  | inr ((a', b'), e) ↦ ground (arith, cut_sound s c e)
]

pub cut-append : (a b : Text) (c : ℕ) → All (λ x. x ≢ c) a → cut (a ++ c ∷ b) c ≡ some (a, b)
unfolding cut
cut-append [] b c h = ground arith
cut-append (x ∷ a) b c (hx, h) = ground (arith, cut-append a b c h)

pub cut-none : (s : Text) (c : ℕ) → All (λ x. x ≢ c) s → cut s c ≡ none
unfolding cut
cut-none [] c h = refl
cut-none (x ∷ s) c (hx, h) = ground (arith, cut-none s c h)

-- Go's `<` on strings is a strict order, for which being incomparable is transitive.
pub text_lt_asym : (s t : Text) → text_lt s t ≡ true → text_lt t s ≡ false
unfolding text_lt
text_lt_asym [] [] h = refl
text_lt_asym [] (y ∷ t) h = refl
text_lt_asym (x ∷ s) [] h = absurd (ground arith)
text_lt_asym (x ∷ s) (y ∷ t) h = ground (arith, text_lt_asym s t)

pub text_lt_cotrans :
    (s t u : Text) → text_lt t s ≡ false → text_lt u t ≡ false → text_lt u s ≡ false
unfolding text_lt
text_lt_cotrans s [] [] h k = h
text_lt_cotrans s (y ∷ t) [] h k = absurd (cc)
text_lt_cotrans [] [] (z ∷ u) h k = refl
text_lt_cotrans (x ∷ s) [] (z ∷ u) h k = absurd (cc)
text_lt_cotrans [] (y ∷ t) (z ∷ u) h k = refl
text_lt_cotrans (x ∷ s) (y ∷ t) (z ∷ u) h k = ground (arith, text_lt_cotrans s t u)
