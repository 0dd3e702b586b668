-- ===== src/Route/Order.antt =====
-- `under` is a preorder on paths, and `New` sorts by length without losing a rule.
use vibepod.Base.{◌≤◌, ◌≡◌, true, false, ◌⊎◌, inl, inr, ◌↔◌}
use vibepod.Base.{
  List, [], ◌∷◌, ◌++◌, Text, length, arith, In, All-map, sort_by, IsSorted, sort_by-IsSorted,
  In-sort_by,
}
use vibepod.Base.{All}
use vibepod.Strings.{
  has_prefix, trim_suffix, has_prefix_trans, trim_suffix-cases, has_prefix-append,
}
use vibepod.Filepath.{clean, slash}
use vibepod.Route.Defs.{Rule, sort_rules, longer, under}

-- A directory is under itself.
pub under_refl : (p : Text) → under p p ≡ true
unfolding under
under_refl p = ground arith

-- With its trailing slash taken away or not, what lies below `s` lies below what `s` lies below.
trim_trans :
    (p s t : Text)
    → has_prefix p (trim_suffix s b'/' ++ slash) ≡ true
    → has_prefix s (t ++ slash) ≡ true
    → has_prefix p (t ++ slash) ≡ true
trim_trans p s t h k = has_prefix_trans p s (t ++ slash) (below (trim_suffix-cases s b'/')) k
  where
    below : (trim_suffix s b'/' ≡ s) ⊎ (s ≡ trim_suffix s b'/' ++ slash) → has_prefix p s ≡ true
    below (inl e) = has_prefix_trans p (s ++ slash) s (rw e at h) (has_prefix-append s slash)
    below (inr e) = rw e h

-- What is under a directory that is under another is under the other.
pub under_trans : (p q r : Text) → under p q ≡ true → under q r ≡ true → under p r ≡ true
unfolding under
under_trans p q r h k = ground (arith, trim_trans (clean p) (clean q) (trim_suffix (clean r) b'/'))

-- The order that `New` leaves: no rule stands behind one with a shorter prefix.
abbrev pub Descending : List Rule → Type 0
Descending [] = Unit
Descending (r ∷ rs) = All (λ q. length q.prefix ≤ length r.prefix) rs × Descending rs

sort_by-Descending : (rs : List Rule) → IsSorted longer rs → Descending rs
unfolding longer
sort_by-Descending [] h = tt
sort_by-Descending (r ∷ rs) (hr, h) =
    (All-map (λ q shorter. ground arith) rs hr, sort_by-Descending rs h)

pub sort_rules-Descending : (rs : List Rule) → Descending (sort_rules rs)
unfolding sort_rules
sort_rules-Descending rs =
    sort_by-Descending (sort_by longer rs)
      (sort_by-IsSorted longer (λ a b. asym a b) (λ a b c. cotrans a b c) rs)
  where
    asym : (a b : Rule) → longer a b ≡ true → longer b a ≡ false
    asym a b h = ground arith

    cotrans : (a b c : Rule) → longer b a ≡ false → longer c b ≡ false → longer c a ≡ false
    cotrans a b c h k = ground arith

-- `New` keeps every rule and adds none.
pub In-sort_rules : (q : Rule) (rs : List Rule) → In q (sort_rules rs) ↔ In q rs
unfolding sort_rules
In-sort_rules q rs = In-sort_by longer q rs
