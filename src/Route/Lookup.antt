-- ===== src/Route/Lookup.antt =====
-- The answers of `Owner`, `Suggest` and `Dir`.
use vibepod.Base.{◌≤◌, ◌≡◌, refl, sym, ap, ◌∙◌, true, false, ◌⊎◌, inl, inr, ◌↔◌}
use vibepod.Base.{List, [], ◌∷◌, ◌++◌, append-nil, Text, length, arith}
use vibepod.Base.{none, some, Bool-cases, Option-cases, All, In, All-In}
use vibepod.Strings.{has_prefix, has_prefix_trans, trim_suffix-cases, has_prefix-append}
use vibepod.Strings.{has_prefix_unique}
use mathlib.Core.Option.{some-injective}
use vibepod.Filepath.{clean, slash}
use vibepod.Route.Defs.{Rule, Table, pod, new, under, rebase, dir, dir_in, first_under, owner_of}
use vibepod.Route.Defs.{suggest, suggestion, sort_rules}
use vibepod.Route.Order.{Descending, sort_rules-Descending, In-sort_rules}

first_under_sound :
    (rs : List Rule) (cwd : Text) (r : Rule)
    → first_under rs cwd ≡ some r
    → In r rs × (under cwd r.prefix ≡ true)
unfolding first_under
first_under_sound [] cwd r h = absurd (cc)
first_under_sound (q ∷ rs) cwd r h = ground (arith, first_under_sound rs cwd r)

-- The rule found has the longest prefix of all that hold the directory.
first_under_longest :
    (rs : List Rule) (cwd : Text) (q : Rule)
    → Descending rs
    → In q rs
    → under cwd q.prefix ≡ true
    → (r : Rule) × (first_under rs cwd ≡ some r) × (length q.prefix ≤ length r.prefix)
unfolding first_under
first_under_longest [] cwd q d m h = absurd m
first_under_longest (p ∷ rs) cwd q (dp, d) m h = elim (Bool-cases (under cwd p.prefix)) [
  | inl here ↦
      rw here
        (p, refl, All-In (λ s. length s.prefix ≤ length p.prefix) q (p ∷ rs) (omega arith, dp) m)
  | inr past ↦ rw past (first_under_longest rs cwd q d (later m past) h)
]
  where
    later : In q (p ∷ rs) → under cwd p.prefix ≡ false → In q rs
    later (inl e) past = absurd (cc (ap (λ (s : Rule). under cwd s.prefix) e))
    later (inr m) past = m

-- What holds a directory is, cleaned, a prefix of it in bytes.
under_prefix : (p q : Text) → under p q ≡ true → has_prefix (clean p) (clean q) ≡ true
unfolding under
under_prefix p q h = elim (trim_suffix-cases (clean q) b'/') [
  | inl e ↦ ground (
    arith,
    has_prefix-append (clean q) [],
    append-nil (clean q),
    has_prefix_trans (clean p) (clean q ++ slash) (clean q),
    has_prefix-append (clean q) slash,
  )
  | inr e ↦ ground (arith, has_prefix-append (clean q) [], append-nil (clean q))
]

-- One path lies under two directories of one length only if they are one directory.
under_one_length :
    (p a b : Text)
    → under p a ≡ true
    → under p b ≡ true
    → length (clean a) ≡ length (clean b)
    → clean a ≡ clean b
under_one_length p a b h k e =
    has_prefix_unique (clean p) (clean a) (clean b) (under_prefix p a h) (under_prefix p b k) e

-- Every rule is written with a clean prefix, and no two with one prefix.
pub record IsDistinct (rules : List Rule) : Type 0 where
  pub cleaned : (q : Rule) → In q rules → clean q.prefix ≡ q.prefix
  pub apart : (q r : Rule) → In q rules → In r rules → q.prefix ≡ r.prefix → q ≡ r

owner_of_found :
    (t : Table) (cwd : Text) (r : Rule)
    → first_under t.rules cwd ≡ some r
    → owner_of (some t) cwd ≡ r.owner
unfolding owner_of
owner_of_found t cwd r h = ground arith

-- In the table that `New` builds, `Owner` answers with the machine of a rule that holds the
-- directory and has the longest prefix of all the rules that do.
pub owner_of-new :
    (def cwd : Text) (rules : List Rule) (q : Rule)
    → In q rules
    → under cwd q.prefix ≡ true
    → (r : Rule) × In r rules
      × (under cwd r.prefix ≡ true)
      × (length q.prefix ≤ length r.prefix)
      × (owner_of (some (new def rules)) cwd ≡ r.owner)
unfolding new
owner_of-new def cwd rules q m h =
    let (r, e, le) =
      first_under_longest (sort_rules rules) cwd q (sort_rules-Descending rules)
        ((In-sort_rules q rules).1 m) h in
    let (m', u) = first_under_sound (sort_rules rules) cwd r e in
    (r, (In-sort_rules r rules).0 m', u, le, owner_of_found (new def rules) cwd r e)

-- Two lists that hold the same rules.
abbrev pub SameRules : List Rule → List Rule → Type 0
SameRules rules rules' = (q : Rule) → In q rules ↔ In q rules'

module _ (rules rules' : List Rule) (cwd : Text) where
  -- A rule found in one order is found, or one as long, in the other.
  found_in :
      SameRules rules rules'
      → (r : Rule) → first_under (sort_rules rules) cwd ≡ some r
      → (r' : Rule) × (first_under (sort_rules rules') cwd ≡ some r')
        × (length r.prefix ≤ length r'.prefix)
  found_in same r e =
      let (m, u) = first_under_sound (sort_rules rules) cwd r e in
      first_under_longest (sort_rules rules') cwd r (sort_rules-Descending rules')
        ((In-sort_rules r rules').1 ((same r).0 ((In-sort_rules r rules).0 m))) u

  same_rule :
      SameRules rules rules'
      → IsDistinct rules
      → (r r' : Rule) → first_under (sort_rules rules) cwd ≡ some r
      → first_under (sort_rules rules') cwd ≡ some r'
      → length r.prefix ≡ length r'.prefix
      → r ≡ r'
  same_rule same d r r' e e' len =
      let (m, u) = first_under_sound (sort_rules rules) cwd r e in
      let (m', u') = first_under_sound (sort_rules rules') cwd r' e' in
      let i = (In-sort_rules r rules).0 m in
      let i' = (same r').1 ((In-sort_rules r' rules').0 m') in
      let c = d.cleaned r i in
      let c' = d.cleaned r' i' in
      d.apart r r' i i' (
        sym c
        ∙ under_one_length cwd r.prefix r'.prefix u u' (ap length c ∙ len ∙ sym (ap length c'))
        ∙ c')

first_under_order :
    (rules rules' : List Rule) (cwd : Text)
    → SameRules rules rules'
    → IsDistinct rules
    → first_under (sort_rules rules) cwd ≡ first_under (sort_rules rules') cwd
first_under_order rules rules' cwd same d =
    elim (Option-cases (first_under (sort_rules rules) cwd)) [
      | inl n ↦ elim (Option-cases (first_under (sort_rules rules') cwd)) [
        | inl n' ↦ n ∙ sym n'
        | inr (r', e') ↦ cc ((found_in rules' rules cwd (λ q. ((same q).1, (same q).0)) r' e').1)
      ]
      | inr (r, e) ↦
          let (r', e', le) = found_in rules rules' cwd same r e in
          let (r'', e'', le') = found_in rules' rules cwd (λ q. ((same q).1, (same q).0)) r' e' in
          let back : r'' ≡ r = some-injective r'' r (sym e'' ∙ e) in
          e
          ∙ ap some (
              same_rule rules rules' cwd same d r r' e e'
                (omega (arith, ap (λ (s : Rule). length s.prefix) back)))
          ∙ sym e'
    ]

-- The answers of `Owner` and `Suggest` do not depend on the order in which the rules were given,
-- if the prefixes are clean and differ.
pub owner_of-new_order :
    (def cwd : Text) (rules rules' : List Rule)
    → SameRules rules rules'
    → IsDistinct rules
    → (owner_of (some (new def rules)) cwd ≡ owner_of (some (new def rules')) cwd)
      × (suggest (some (new def rules)) cwd ≡ suggest (some (new def rules')) cwd)
unfolding owner_of suggest new
owner_of-new_order def cwd rules rules' same d = (
  ap (λ o. elim o [ none ↦ pod | some r ↦ r.owner ]) (first_under_order rules rules' cwd same d),
  ap (λ o. elim o [ none ↦ [] | some r ↦ suggestion r ])
      (first_under_order rules rules' cwd same d),
)

-- The rule keeps the pod's name of its subtree on the machine that owns it.
abbrev pub KeepsPath : Rule → Type 0
KeepsPath r = (r.remote_path ≡ []) ⊎ (r.remote_path ≡ r.prefix)

dir_in_identity :
    (rs : List Rule) (cwd backend : Text) → All KeepsPath rs → dir_in rs cwd backend ≡ cwd
unfolding dir_in rebase
dir_in_identity [] cwd backend h = refl
dir_in_identity (r ∷ rs) cwd backend (hr, h) = ground (arith, dir_in_identity rs cwd backend h)

-- Path identity: where no rule renames its subtree, every machine calls a directory what the pod
-- calls it.
pub dir_identity :
    (t : Table) (cwd backend : Text) → All KeepsPath t.rules → dir (some t) cwd backend ≡ cwd
unfolding dir
dir_identity t cwd backend h = ground (arith, dir_in_identity t.rules cwd backend h)
