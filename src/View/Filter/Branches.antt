-- ===== src/View/Filter/Branches.antt =====
-- cmd/vibepod/view.go, `prune`: which branches of a tree it leaves. A branch is the list of the commands
-- from a root down to one of those under it.
use vibepod.Base.{Bool, true, false, not, ◌||◌, List, [], ◌∷◌, ◌++◌, append-nil}
use vibepod.Base.{◌≡◌, ◌≢◌, ◌↔◌, ◌⊎◌, refl, sym, arith, inl, inr, Bool-cases, if_cases}
use vibepod.Base.{if◌then◌else◌, text_eq}
use mathlib.Core.Path.{subst}
use vibepod.Daemon.Tracker.{NodeInfo, TreeNode, node, Nodes, nil, cons}
use vibepod.View.Filter.Defs.{TreeFilter, match_node, is_nil, prune, prune_all}

abbrev mutual
  pub Branch : TreeNode → List NodeInfo → Type 0
  Branch (node i ns) [] = ⊥
  Branch (node i ns) (j ∷ js) = (j ≡ i) × ((js ≡ []) ⊎ BranchIn ns js)

  pub BranchIn : Nodes → List NodeInfo → Type 0
  BranchIn nil js = ⊥
  BranchIn (cons n ns) js = Branch n js ⊎ BranchIn ns js

-- The last command of a branch is one that the filter asks for.
abbrev pub EndsMatching : TreeFilter → List NodeInfo → Type 0
EndsMatching f [] = ⊥
EndsMatching f (j ∷ []) = match_node f j ≡ true
EndsMatching f (j ∷ k ∷ js) = EndsMatching f (k ∷ js)

-- A branch goes on, or not, to a command that the filter asks for.
abbrev pub LeadsIn : TreeFilter → Nodes → List NodeInfo → Type 0
LeadsIn f ns b = (b ≢ []) × (c : List NodeInfo) × BranchIn ns (b ++ c) × EndsMatching f (b ++ c)

abbrev pub Leads : TreeFilter → TreeNode → List NodeInfo → Type 0
Leads f n b = (b ≢ []) × (c : List NodeInfo) × Branch n (b ++ c) × EndsMatching f (b ++ c)

cons_ne : (j : NodeInfo) (js : List NodeInfo) → (j ∷ js) ≢ []
cons_ne j js e = absurd (cc)

BranchIn-nonempty : (ns : Nodes) (b : List NodeInfo) → BranchIn ns b → b ≢ []
BranchIn-nonempty nil b h = absurd h
BranchIn-nonempty (cons (node i ks) ns) [] (inl h) = absurd h
BranchIn-nonempty (cons (node i ks) ns) (j ∷ js) (inl h) = cons_ne j js
BranchIn-nonempty (cons n ns) b (inr h) = BranchIn-nonempty ns b h

EndsMatching-cons :
    (f : TreeFilter) (j : NodeInfo) (b : List NodeInfo) → EndsMatching f b → EndsMatching f (j ∷ b)
EndsMatching-cons f j [] h = absurd h
EndsMatching-cons f j (k ∷ b) h = h

EndsMatching-tail :
    (f : TreeFilter) (j : NodeInfo) (b : List NodeInfo)
    → b ≢ []
    → EndsMatching f (j ∷ b)
    → EndsMatching f b
EndsMatching-tail f j [] ne h = absurd (ne refl)
EndsMatching-tail f j (k ∷ b) ne h = h

-- Nodes that are not none hold a branch, and hold none otherwise.
some_branch : (ns : Nodes) → is_nil ns ≡ false → (b : List NodeInfo) × BranchIn ns b
unfolding is_nil
some_branch nil e = absurd (ground arith)
some_branch (cons (node i ks) ns) e = (i ∷ [], inl (refl, inl refl))

is_nil-BranchIn : (ns : Nodes) (b : List NodeInfo) → BranchIn ns b → is_nil ns ≡ false
unfolding is_nil
is_nil-BranchIn nil b h = absurd h
is_nil-BranchIn (cons n ns) b h = refl

-- One node, where what is left of its children leads where they lead.
module _ (f : TreeFilter) (i : NodeInfo) (ns kids : Nodes)
    (ih : (b : List NodeInfo) → BranchIn kids b ↔ LeadsIn f ns b) where
  abbrev Kept : List NodeInfo → Type 0
  Kept b = ((match_node f i || not (is_nil kids)) ≡ true) × Branch (node i kids) b

  under-Kept : (b : List NodeInfo) → BranchIn kids b → (match_node f i || not (is_nil kids)) ≡ true
  under-Kept b h = let e = is_nil-BranchIn kids b h in ground arith

  alone-Leads :
      (j : NodeInfo)
      → j ≡ i
      → (match_node f i || not (is_nil kids)) ≡ true
      → Leads f (node i ns) (j ∷ [])
  alone-Leads j e k = elim (Bool-cases (match_node f i)) [
    | inl y ↦ (cons_ne j [], [], (e, inl refl), subst (λ q. match_node f q ≡ true) (sym e) y)
    | inr n ↦
        let (b, h) = some_branch kids (ground arith) in
        let (ne, c, br, ends) = (ih b).0 h in
        (cons_ne j [], b ++ c, (e, inr br), EndsMatching-cons f j (b ++ c) ends)
  ]

  Kept-Leads : (b : List NodeInfo) → Kept b → Leads f (node i ns) b
  Kept-Leads [] (k, h) = absurd h
  Kept-Leads (j ∷ []) (k, (e, h)) = alone-Leads j e k
  Kept-Leads (j ∷ l ∷ js) (k, (e, inl h)) = absurd (cons_ne l js h)
  Kept-Leads (j ∷ l ∷ js) (k, (e, inr h)) =
      let (ne, c, br, ends) = (ih (l ∷ js)).0 h in (cons_ne j (l ∷ js), c, (e, inr br), ends)

  Leads-Kept : (b : List NodeInfo) → Leads f (node i ns) b → Kept b
  Leads-Kept [] (ne, h, k, l) = absurd (ne refl)
  Leads-Kept (j ∷ []) (ne, c, (e, inl h), ends) =
      let y : match_node f j ≡ true = subst (λ q. EndsMatching f (j ∷ q)) h ends in
      let z : match_node f i ≡ true = subst (λ q. match_node f q ≡ true) e y in
      (ground arith, (e, inl refl))
  Leads-Kept (j ∷ []) (ne, c, (e, inr h), ends) =
      let full = BranchIn-nonempty ns c h in
      let ends' = EndsMatching-tail f j c full ends in
      (
        under-Kept c (
            (ih c).1 (
              full,
              [],
              subst (BranchIn ns) (sym (append-nil c)) h,
              subst (EndsMatching f) (sym (append-nil c)) ends',
            )),
        (e, inl refl),
      )
  Leads-Kept (j ∷ l ∷ js) (ne, c, (e, inl h), ends) = absurd (cons_ne l (js ++ c) h)
  Leads-Kept (j ∷ l ∷ js) (ne, c, (e, inr h), ends) =
      let under = (ih (l ∷ js)).1 (cons_ne l js, c, h, ends) in
      (under-Kept (l ∷ js) under, (e, inr under))

-- One more node before others.
cons-LeadsIn :
    (f : TreeFilter) (n : TreeNode) (ns : Nodes) (k : TreeNode × Bool) (rest : Nodes)
    (b : List NodeInfo)
    → ((k.1 ≡ true) × Branch k.0 b) ↔ Leads f n b
    → BranchIn rest b ↔ LeadsIn f ns b
    → BranchIn (if k.1 then cons k.0 rest else rest) b ↔ LeadsIn f (cons n ns) b
cons-LeadsIn f n ns k rest b one more =
    if_cases (λ q. BranchIn q b ↔ LeadsIn f (cons n ns) b) k.1 _ _
      (λ y. (
        (λ h. elim h [ inl p ↦ first (one.0 (y, p)) | inr p ↦ later (more.0 p) ]),
        (λ h. elim (apart h) [ inl p ↦ inl (one.1 p).1 | inr p ↦ inr (more.1 p) ]),
      ))
      (λ unkept. (
        (λ h. later (more.0 h)),
        (λ h. elim (apart h) [ inl p ↦ absurd (both unkept (one.1 p).0) | inr p ↦ more.1 p ]),
      ))
  where
    first : Leads f n b → LeadsIn f (cons n ns) b
    first (ne, c, br, e) = (ne, c, inl br, e)

    later : LeadsIn f ns b → LeadsIn f (cons n ns) b
    later (ne, c, br, e) = (ne, c, inr br, e)

    apart : LeadsIn f (cons n ns) b → Leads f n b ⊎ LeadsIn f ns b
    apart (ne, c, inl br, e) = inl (ne, c, br, e)
    apart (ne, c, inr br, e) = inr (ne, c, br, e)

    both : k.1 ≡ false → k.1 ≡ true → ⊥
    both unkept y = absurd (ground arith)

mutual
  unfolding prune

  pub prune-Leads :
      (f : TreeFilter) (n : TreeNode) (b : List NodeInfo)
      → (((prune f n).1 ≡ true) × Branch (prune f n).0 b) ↔ Leads f n b
  prune-Leads f (node i ns) b = (
    Kept-Leads f i ns (prune_all f ns) (prune_all-LeadsIn f ns) b,
    Leads-Kept f i ns (prune_all f ns) (prune_all-LeadsIn f ns) b,
  )

  pub prune_all-LeadsIn :
      (f : TreeFilter) (ns : Nodes) (b : List NodeInfo)
      → BranchIn (prune_all f ns) b ↔ LeadsIn f ns b
  prune_all-LeadsIn f nil b = ((λ h. absurd h), (λ h. absurd h.2))
  prune_all-LeadsIn f (cons n ns) b =
      cons-LeadsIn f n ns (prune f n) (prune_all f ns) b (prune-Leads f n b)
        (prune_all-LeadsIn f ns b)
