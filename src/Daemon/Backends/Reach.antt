-- ===== src/Daemon/Backends/Reach.antt =====
-- internal/daemon/backend.go, `reachable` and `knownBackend`.
use mathlib.Core.Path.{subst}
use vibepod.Base.{
  Bool, true, false, not, ◌&&◌, ◌||◌, List, [], ◌∷◌, ◌++◌, ◌≡◌, refl, sym, ap, ◌∙◌, ◌≢◌, ◌↔◌,
}
use vibepod.Base.{
  Text, ◌==◌, contains, if◌then◌else◌, text_eq, nat_eq, arith, if_cases, In, In-sort_by, ==_self,
}
use vibepod.Strings.{text_lt}
use vibepod.Route.{pod, Rule}
use vibepod.Daemon.Backends.Defs.{
  Backends, in_rules, known_backend, add_machines, add_named, add_rules, reachable,
}

contains-snoc :
    (xs : List Text) (m a : Text) → contains (xs ++ m ∷ []) a ≡ (contains xs a || m == a)
contains-snoc [] m a = ground arith
contains-snoc (x ∷ xs) m a = ground (arith, contains-snoc xs m a)

contains-add_machines :
    (out ms : List Text) (a : Text)
    → contains (add_machines out ms) a ≡ (contains out a || not (a == pod) && contains ms a)
unfolding add_machines
contains-add_machines out [] a = ground arith
contains-add_machines out (m ∷ ms) a = ground (
  arith,
  contains-add_machines (if not (m == pod) && not (contains out m) then out ++ m ∷ [] else out) ms
      a,
  contains-snoc out m a,
)

-- The guard of `add_named`, by its two tests on the name alone.
contains-guarded :
    (empty at_pod : Bool) (out : List Text) (a : Text)
    → contains (if empty || at_pod || contains out a then out else out ++ a ∷ []) a
      ≡ (contains out a || not empty && not at_pod)
contains-guarded true at_pod out a = ground arith
contains-guarded false true out a = ground arith
contains-guarded false false out a = ground (arith, contains-snoc out a a)

and_true :
    (c empty at_pod q : Bool)
    → q ≡ true
    → (c || not empty && not at_pod) ≡ (c || not empty && not at_pod && q)
and_true c true at_pod q h = refl
and_true c false true q h = refl
and_true c false false q h = ap (λ x. c || x) (sym h)

contains-add_named_self :
    (out : List Text) (a : Text)
    → contains (add_named out a) a ≡ (contains out a || not (a == []) && not (a == pod))
unfolding add_named
contains-add_named_self out a = contains-guarded (a == []) (a == pod) out a

contains-add_named_other :
    (out : List Text) (name a : Text) → name ≢ a → contains (add_named out name) a ≡ contains out a
unfolding add_named
contains-add_named_other out name a ne =
    if_cases (λ xs. contains xs a ≡ contains out a) (name == [] || name == pod || contains out name)
      _ _ (λ _. refl) (λ _. contains-snoc out name a ∙ ground arith)

contains-add_named :
    (out : List Text) (name a : Text)
    → contains (add_named out name) a
      ≡ (contains out a || not (a == []) && not (a == pod) && name == a)
contains-add_named out name a = elim (text_eq.dec name a) [
  | yes e ↦
      subst
        (λ x.
          contains (add_named out name) x
          ≡ (contains out x || not (x == []) && not (x == pod) && name == x))
        e
        (contains-add_named_self out name
          ∙ and_true (contains out name) (name == []) (name == pod) (name == name) (==_self name))
  | no ne ↦ contains-add_named_other out name a ne ∙ ground arith
]

contains-add_rules :
    (out : List Text) (rs : List Rule) (a : Text)
    → contains (add_rules out rs) a
      ≡ (contains out a || not (a == []) && not (a == pod) && in_rules rs a)
unfolding add_rules in_rules
contains-add_rules out [] a = ground arith
contains-add_rules out (r ∷ rs) a = ground (
  arith,
  contains-add_rules (add_named (add_named out r.owner) r.exec_on) rs a,
  contains-add_named (add_named out r.owner) r.exec_on a,
  contains-add_named out r.owner a,
)

contains-In : (xs : List Text) (a : Text) → (contains xs a ≡ true) ↔ In a xs
contains-In [] a = ground arith
contains-In (x ∷ xs) a = ground (arith, contains-In xs a)

known_iff :
    (s : Backends) (name : Text)
    → contains s.machines [] ≡ false
    → (found : Bool)
    → found ≡ (
        not (name == pod) && contains s.machines name
        || not (name == []) && not (name == pod) && in_rules s.table.rules name)
    → (found ≡ true) ↔ ((name ≢ pod) × (name ≢ []) × (known_backend s name ≡ true))
unfolding known_backend
known_iff s name h found e = elim (text_eq.dec name []) [
  | yes n ↦
      let none_declared : contains s.machines name ≡ false = ap (contains s.machines) n ∙ h in
      ((λ f. absurd (ground arith)), (λ (p, ne, k). absurd (ne n)))
  | no ne ↦ elim (text_eq.dec name pod) [
    | yes p ↦ ((λ f. absurd (ground arith)), (λ (np, _, k). absurd (np p)))
    | no np ↦ ((λ f. (np, ne, ground arith)), (λ (_, _, k). ground arith))
  ]
]

-- `reachable` lists exactly the machines other than the pod that `knownBackend` knows, if no
-- machine is declared with an empty name; a rule's empty owner or `exec_on` is not taken for one.
pub reachable_iff :
    (s : Backends) (name : Text)
    → contains s.machines [] ≡ false
    → In name (reachable s) ↔ ((name ≢ pod) × (name ≢ []) × (known_backend s name ≡ true))
unfolding reachable known_backend
reachable_iff s name h =
    let all = add_rules (add_machines [] s.machines) s.table.rules in
    let found = contains-add_rules (add_machines [] s.machines) s.table.rules name in
    let declared = contains-add_machines [] s.machines name in
    let known = known_iff s name h (contains all name) (ground arith) in
    (
      (λ m. known.0 ((contains-In all name).1 ((In-sort_by text_lt name all).0 m))),
      (λ k. (In-sort_by text_lt name all).1 ((contains-In all name).0 (known.1 k))),
    )
