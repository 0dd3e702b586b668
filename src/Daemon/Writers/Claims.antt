-- ===== src/Daemon/Writers/Claims.antt =====
-- internal/daemon/reconcile.go: the claims on writing while `desired` runs.
use vibepod.Base.{
  Bool, true, false, not, ◌||◌, Option, none, some, ◌∷◌, ◌++◌, ◌≡◌, refl, ap, ◌∙◌, ◌⊎◌, inl, inr,
}
use vibepod.Base.{Text, codes, ◌==◌, text_eq, arith, if_cases}
use vibepod.Base.Dict.{lookup, get_or, lookup-insert}
use vibepod.Proto.{MountSpec}
use vibepod.Route.{pod}
use vibepod.Daemon.Mounts.{MountRec}
use vibepod.Daemon.Writers.Defs.{Access, claimed, is_writer, read_only_for, decided, via, spec_for}

-- The machine may write to the mount: it holds the claim, or the mount takes many writers.
abbrev pub MayWrite : Access → Text → Text → Type 0
MayWrite a host at = (lookup at a.writers ≡ some host) ⊎ (get_or at a.many_writers false ≡ true)

-- No claim is lost.
abbrev pub Grows : Access → Access → Type 0
Grows a a' =
    (a'.many_writers ≡ a.many_writers)
    × ((at who : Text) → lookup at a.writers ≡ some who → lookup at a'.writers ≡ some who)

pub Grows-trans : (a b c : Access) → Grows a b → Grows b c → Grows a c
Grows-trans a b c (e, f) (e', f') = (e' ∙ e, λ at who h. f' at who (f at who h))

pub MayWrite-Grows :
    (a a' : Access) (host at : Text) → Grows a a' → MayWrite a host at → MayWrite a' host at
MayWrite-Grows a a' host at (e, f) (inl h) = inl (f at host h)
MayWrite-Grows a a' host at (e, f) (inr h) = inr (ap (λ d. get_or at d false) e ∙ h)

-- An answer to `isWriter`: claims only grow, and a yes is backed by a claim.
abbrev pub Backed : Access → Text → Text → Bool × Access → Type 0
Backed a host at (it, a') = Grows a a' × (it ≡ true → MayWrite a' host at)

claimed-Backed :
    (a : Access) (host at : Text) (taken : Option Text)
    → lookup at a.writers ≡ taken
    → Backed a host at (claimed a host at taken)
unfolding claimed
claimed-Backed a host at (some who) h = ((refl, λ _ _ e. e), λ y. inl (ground arith))
claimed-Backed a host at none h = (
  (refl, λ at' who e. ground (arith, lookup-insert at' at host a.writers)),
  λ y. inl (ground (arith, lookup-insert at at host a.writers)),
)

is_writer-Backed : (a : Access) (host at : Text) → Backed a host at (is_writer a host at)
unfolding is_writer
is_writer-Backed a host at =
    if_cases (Backed a host at) (get_or at a.many_writers false) (true, a)
      (claimed a host at (lookup at a.writers)) (λ y. ((refl, λ _ _ e. e), λ _. inr y))
      (λ _. claimed-Backed a host at (lookup at a.writers) refl)

-- The same of `ReadOnly`, whose no is backed.
abbrev pub BackedNo : Access → Text → Text → Bool × Access → Type 0
BackedNo a host at (it, a') = Grows a a' × (it ≡ false → MayWrite a' host at)

read_only_for-BackedNo :
    (a : Access) (host : Text) (m : MountRec) → BackedNo a host m.at (read_only_for a host m)
unfolding read_only_for
read_only_for-BackedNo a host m =
    if_cases (BackedNo a host m.at) m.read_only (true, a)
      (not (is_writer a host m.at).0, (is_writer a host m.at).1)
      (λ y. ((refl, λ _ _ e. e), λ n. absurd (ground arith)))
      (λ _. let (grows, may) = is_writer-Backed a host m.at in (grows, λ n. may (ground arith)))

abbrev pub SameClaims : Access → Text × Access → Type 0
SameClaims a (how, a') = (a'.writers ≡ a.writers) × (a'.many_writers ≡ a.many_writers)

decided-SameClaims :
    (can_reach : Text → Text → Bool) (a : Access) (host : Text) (m : MountRec) (known : Option Text)
    → SameClaims a (decided can_reach a host m known)
unfolding decided
decided-SameClaims can_reach a host m (some how) = (refl, refl)
decided-SameClaims can_reach a host m none = (refl, refl)

via-SameClaims :
    (can_reach : Text → Text → Bool) (a : Access) (host : Text) (m : MountRec)
    → SameClaims a (via can_reach a host m)
unfolding via
via-SameClaims can_reach a host m =
    if_cases (SameClaims a) (m.owner == pod) _ _ (λ _. (refl, refl))
      (λ _.
        if_cases (SameClaims a) (m.owner == host) _ _ (λ _. (refl, refl))
          (λ _.
            if_cases (SameClaims a) (m.via == codes "direct" || m.via == codes "relay") _ _
              (λ _. (refl, refl))
              (λ _. decided-SameClaims can_reach a host m (lookup (host ++ 0 ∷ m.owner) a.reach))))

-- A mount that `desired` names as writable is backed by a claim.
abbrev pub SpecBacked : Access → Text → MountSpec × Access → Type 0
SpecBacked a host (spec, a') = Grows a a' × (spec.read_only ≡ false → MayWrite a' host spec.at)

pub spec_for-SpecBacked :
    (can_reach : Text → Text → Bool) (a : Access) (host : Text) (m : MountRec)
    → SpecBacked a host (spec_for can_reach a host m)
unfolding spec_for
spec_for-SpecBacked can_reach a host m =
    let (grows, may) = read_only_for-BackedNo a host m in
    let a1 = (read_only_for a host m).1 in
    let a2 = (via can_reach a1 host m).1 in
    let (same, many) = via-SameClaims can_reach a1 host m in
    let grows' : Grows a1 a2 = (many, λ at who h. ap (lookup at) same ∙ h) in
    (Grows-trans a a1 a2 grows grows', λ n. MayWrite-Grows a1 a2 host m.at grows' (may n))
