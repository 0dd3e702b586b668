-- ===== src/Ui/Input/Prefix.antt =====
-- internal/ui/commands.go, `commonPrefix`: the longest text with which all words begin.
use vibepod.Base.{true, false, List, [], ◌∷◌}
use vibepod.Base.{◌≡◌, ◌≢◌, refl, arith, inl, inr, All, In, All-In}
use vibepod.Base.{Text, nat_eq}
use mathlib.Core.Path.{subst}
use vibepod.Base.Sort.{sort_by, In-sort_by, sort_by-IsSorted, IsSorted}
use vibepod.Strings.{has_prefix, text_lt, text_lt_asym, text_lt_cotrans}
use vibepod.Ui.Input.Defs.{shared, last_of, shared_ends, common_prefix}

-- A text between two others begins as they both do.
has_prefix-between :
    (p a w z : Text)
    → has_prefix a p ≡ true
    → has_prefix z p ≡ true
    → text_lt w a ≡ false
    → text_lt z w ≡ false
    → has_prefix w p ≡ true
unfolding has_prefix text_lt
has_prefix-between [] a w z ha hz l u = refl
has_prefix-between (c ∷ p) [] w z ha hz l u = absurd (cc)
has_prefix-between (c ∷ p) (x ∷ a) w [] ha hz l u = absurd (cc)
has_prefix-between (c ∷ p) (x ∷ a) [] (y ∷ z) ha hz l u = absurd (ground arith)
has_prefix-between (c ∷ p) (x ∷ a) (v ∷ w) (y ∷ z) ha hz l u =
    ground (arith, has_prefix-between p a w z)

-- What two texts share is a prefix of both, and each prefix of both is one of it.
shared_left : (a z : Text) → has_prefix a (shared a z) ≡ true
unfolding shared has_prefix
shared_left [] z = refl
shared_left (x ∷ a) [] = refl
shared_left (x ∷ a) (y ∷ z) = ground (arith, shared_left a z)

shared_right : (a z : Text) → has_prefix z (shared a z) ≡ true
unfolding shared has_prefix
shared_right [] z = refl
shared_right (x ∷ a) [] = refl
shared_right (x ∷ a) (y ∷ z) = ground (arith, shared_right a z)

has_prefix-shared :
    (q a z : Text)
    → has_prefix a q ≡ true
    → has_prefix z q ≡ true
    → has_prefix (shared a z) q ≡ true
unfolding shared has_prefix
has_prefix-shared [] a z ha hz = refl
has_prefix-shared (c ∷ q) [] z ha hz = absurd (cc)
has_prefix-shared (c ∷ q) (x ∷ a) [] ha hz = absurd (cc)
has_prefix-shared (c ∷ q) (x ∷ a) (y ∷ z) ha hz = ground (arith, has_prefix-shared q a z)

In-last_of : (w : Text) (ws : List Text) → In (last_of w ws) (w ∷ ws)
unfolding last_of
In-last_of w [] = inl refl
In-last_of w (v ∷ vs) = inr (In-last_of v vs)

text_lt_self : (w : Text) → text_lt w w ≡ false
unfolding text_lt
text_lt_self [] = refl
text_lt_self (x ∷ w) = ground (arith, text_lt_self w)

-- No word comes behind the last one of a sorted list.
last_of-bound :
    (w : Text) (ws : List Text)
    → IsSorted text_lt (w ∷ ws)
    → All (λ v. text_lt (last_of w ws) v ≡ false) (w ∷ ws)
unfolding last_of
last_of-bound w [] h = (text_lt_self w, tt)
last_of-bound w (v ∷ vs) (hw, h) = (
  All-In (λ y. text_lt y w ≡ false) (last_of v vs) (v ∷ vs) hw (In-last_of v vs),
  last_of-bound v vs h,
)

shared_ends-prefix :
    (ws : List Text) (w : Text)
    → IsSorted text_lt ws
    → In w ws
    → has_prefix w (shared_ends ws) ≡ true
unfolding shared_ends
shared_ends-prefix [] w s i = absurd i
shared_ends-prefix (a ∷ ws) w (lo, s) i =
    has_prefix-between (shared a (last_of a ws)) a w (last_of a ws) (shared_left a (last_of a ws))
      (shared_right a (last_of a ws))
      (All-In (λ v. text_lt v a ≡ false) w (a ∷ ws) (text_lt_self a, lo) i)
      (All-In (λ v. text_lt (last_of a ws) v ≡ false) w (a ∷ ws) (last_of-bound a ws (lo, s)) i)

-- The longest common prefix of some words: all begin with it, and whatever all begin with, it begins with.
abbrev pub IsCommonPrefix : List Text → Text → Type 0
IsCommonPrefix words p =
    ((w : Text) → In w words → has_prefix w p ≡ true)
    × ((q : Text) → ((w : Text) → In w words → has_prefix w q ≡ true) → has_prefix p q ≡ true)

shared_ends-longest :
    (ws : List Text) (q : Text)
    → ws ≢ []
    → ((w : Text) → In w ws → has_prefix w q ≡ true)
    → has_prefix (shared_ends ws) q ≡ true
unfolding shared_ends
shared_ends-longest [] q ne h = absurd (ne refl)
shared_ends-longest (a ∷ ws) q ne h =
    has_prefix-shared q a (last_of a ws) (h a (inl refl)) (h (last_of a ws) (In-last_of a ws))

pub common_prefix-IsCommonPrefix :
    (words : List Text) → words ≢ [] → IsCommonPrefix words (common_prefix words)
unfolding common_prefix
common_prefix-IsCommonPrefix words ne =
    let sorted = sort_by text_lt words in
    (
      (λ w i.
          shared_ends-prefix sorted w
            (sort_by-IsSorted text_lt text_lt_asym (λ a b c. text_lt_cotrans a b c) words)
            ((In-sort_by text_lt w words).1 i)),
      (λ q h.
          shared_ends-longest sorted q (sort_by-ne words ne)
            (λ w i. h w ((In-sort_by text_lt w words).0 i))),
    )
  where
    sort_by-ne : (ws : List Text) → ws ≢ [] → sort_by text_lt ws ≢ []
    sort_by-ne [] n e = n refl
    sort_by-ne (w ∷ ws) n e = subst (λ l. In w l) e ((In-sort_by text_lt w (w ∷ ws)).1 (inl refl))
