-- ===== src/Daemon/Writers/Laws.antt =====
-- internal/daemon/reconcile.go: what `desired` names as writable, and what it names at all.
use mathlib.Core.Path.{subst}
use vibepod.Base.{
  Bool, true, false, some, List, [], ◌∷◌, ◌≡◌, refl, sym, ap, ◌∙◌, ◌≢◌, ◌⊎◌, inl, inr,
}
use vibepod.Base.{Text, ◌==◌, contains, if◌then◌else◌, text_eq, arith, if_cases, All, In, All-In}
use vibepod.Base.Dict.{Dict, lookup, get_or}
use vibepod.Proto.{MountSpec}
use vibepod.Route.{pod}
use vibepod.Daemon.Mounts.{MountRec}
use vibepod.Daemon.Writers.Defs.{
  Access, read_only_for, spec_for, withheld, desired, drop_writer, release_writer,
}
use vibepod.Daemon.Writers.Claims.{
  MayWrite, Grows, Grows-trans, MayWrite-Grows, spec_for-SpecBacked,
}

abbrev AllBacked : Access → Text → List MountSpec × Access → Type 0
AllBacked a host (specs, a') =
    Grows a a' × All (λ spec. spec.read_only ≡ false → MayWrite a' host spec.at) specs

module _ (can_reach : Text → Text → Bool) where
  desired-AllBacked :
      (ms : List MountRec) (host : Text) (a : Access)
      → AllBacked a host (desired can_reach ms host a)
  unfolding desired
  desired-AllBacked [] host a = ((refl, λ _ _ e. e), tt)
  desired-AllBacked (m ∷ ms) host a =
      let a1 = (spec_for can_reach a host m).1 in
      let a2 = (desired can_reach ms host a1).1 in
      let (grows, may) = spec_for-SpecBacked can_reach a host m in
      let (grows', mays) = desired-AllBacked ms host a1 in
      let skipped = desired-AllBacked ms host a in
      if_cases (AllBacked a host) (withheld host m) _ _ (λ _. skipped)
        (λ _. (
          Grows-trans a a1 a2 grows grows',
          (λ n. MayWrite-Grows a1 a2 host _ grows' (may n), mays),
        ))

  -- The daemon's steps between two reconciliations that concern the claims: a reconciliation of any
  -- machine, and the release of the claims of a machine that goes, other than the one given.
  pub data Steps (kept : Text) : Access → Access → Type 0 where
    done : {a : Access} → Steps kept a a
    reconciled :
        {a a' : Access} (ms : List MountRec) (host : Text)
        → Steps kept (desired can_reach ms host a).1 a'
        → Steps kept a a'
    released :
        {a a' : Access} (host : Text)
        → host ≢ kept
        → Steps kept (release_writer a host) a'
        → Steps kept a a'

drop_writer-lookup :
    (host who at : Text) (d : Dict Text Text)
    → host ≢ who
    → lookup at d ≡ some who
    → lookup at (drop_writer host d) ≡ some who
unfolding drop_writer lookup
drop_writer-lookup host who at [] ne h = absurd (ground arith)
drop_writer-lookup host who at ((k, v) ∷ d) ne h =
    ground (arith, drop_writer-lookup host who at d ne)

release_writer-MayWrite :
    (a : Access) (host who at : Text)
    → host ≢ who
    → MayWrite a who at
    → MayWrite (release_writer a host) who at
unfolding release_writer
release_writer-MayWrite a host who at ne (inl h) =
    inl (drop_writer-lookup host who at a.writers ne h)
release_writer-MayWrite a host who at ne (inr h) = inr h

module _ (can_reach : Text → Text → Bool) where
  Steps-MayWrite :
      (host at : Text) {a a' : Access}
      → Steps can_reach host a a'
      → MayWrite a host at
      → MayWrite a' host at
  Steps-MayWrite host at done may = may
  Steps-MayWrite host at (reconciled {a = a} ms h steps) may =
      let (grows, _) = desired-AllBacked can_reach ms h a in
      Steps-MayWrite host at steps (MayWrite-Grows a (desired can_reach ms h a).1 host at grows may)
  Steps-MayWrite host at (released {a = a} h ne steps) may =
      Steps-MayWrite host at steps (release_writer-MayWrite a h host at ne may)

  Steps-many :
      {kept : Text} {a a' : Access} → Steps can_reach kept a a' → a'.many_writers ≡ a.many_writers
  Steps-many done = refl
  Steps-many (reconciled {a = a} ms h steps) =
      let ((many, _), _) = desired-AllBacked can_reach ms h a in Steps-many steps ∙ many
  Steps-many (released h ne steps) = Steps-many steps ∙ unfold release_writer in refl

  -- If a machine was given a mount as writable, and after that any machines were reconciled, with
  -- any mount lists, and any machines but this one gave up their claims, then another machine to
  -- which `desired` gives a mount at the same path as writable is the same machine, unless the
  -- path takes many writers.
  pub desired-single_writer :
      (host other : Text) (ms ms' : List MountRec) (a a' : Access) (m m' : MountSpec)
      → In m (desired can_reach ms host a).0
      → Steps can_reach host (desired can_reach ms host a).1 a'
      → In m' (desired can_reach ms' other a').0
      → m'.at ≡ m.at
      → m.read_only ≡ false
      → m'.read_only ≡ false
      → (other ≡ host) ⊎ (get_or m.at a.many_writers false ≡ true)
  desired-single_writer host other ms ms' a a' m m' given steps given' same rw_ rw' =
      let a1 = (desired can_reach ms host a).1 in
      let a2 = (desired can_reach ms' other a').1 in
      let ((many, _), backed) = desired-AllBacked can_reach ms host a in
      let (grows', backed') = desired-AllBacked can_reach ms' other a' in
      let (many', _) = grows' in
      let first =
        All-In (λ spec. spec.read_only ≡ false → MayWrite a1 host spec.at) m
          (desired can_reach ms host a).0 backed given rw_ in
      let second =
        All-In (λ spec. spec.read_only ≡ false → MayWrite a2 other spec.at) m'
          (desired can_reach ms' other a').0 backed' given' rw' in
      let kept = MayWrite-Grows a' a2 host m.at grows' (Steps-MayWrite host m.at steps first) in
      one_of host other m.at a2 kept (subst (MayWrite a2 other) same second)
        (many' ∙ Steps-many steps ∙ many)
    where
      one_of :
          (host other at : Text) (a2 : Access)
          → MayWrite a2 host at
          → MayWrite a2 other at
          → a2.many_writers ≡ a.many_writers
          → (other ≡ host) ⊎ (get_or at a.many_writers false ≡ true)
      one_of host other at a2 (inl h) (inl k) e = inl (ground arith)
      one_of host other at a2 (inr h) k e = inr (ap (λ d. get_or at d false) (sym e) ∙ h)
      one_of host other at a2 h (inr k) e = inr (ap (λ d. get_or at d false) (sym e) ∙ k)

-- What is sent of a mount: nothing of the identity plane, and of this machine's own directories
-- only what is exposed to the machine; the path and the source are the mount's, and a mount that is
-- read-only stays so.
abbrev pub SentOf : Text → MountSpec → MountRec → Type 0
SentOf host m r =
    (r.identity ≡ false)
    × (r.owner ≡ pod → contains r.expose_to host ≡ true)
    × (m.at ≡ r.at)
    × (m.host ≡ (if r.owner == pod then [] else r.owner))
    × (m.path ≡ (if r.owner == pod then r.src else r.remote_path))
    × (r.read_only ≡ true → m.read_only ≡ true)

abbrev Sent : List MountRec → Text → List MountSpec × Access → Type 0
Sent ms host (specs, _) = (m : MountSpec) → In m specs → (r : MountRec) × In r ms × SentOf host m r

module _ (can_reach : Text → Text → Bool) where
  spec_for-SentOf :
      (host : Text) (a : Access) (r : MountRec)
      → withheld host r ≡ false
      → SentOf host (spec_for can_reach a host r).0 r
  unfolding spec_for withheld read_only_for
  spec_for-SentOf host a r e =
      (ground arith, (λ own. ground arith), refl, refl, refl, (λ ro. ground arith))

  desired-Sent :
      (ms : List MountRec) (host : Text) (a : Access) → Sent ms host (desired can_reach ms host a)
  unfolding desired
  desired-Sent [] host a = λ m i. absurd i
  desired-Sent (r ∷ ms) host a =
      let rest = desired-Sent ms host (spec_for can_reach a host r).1 in
      let skipped = desired-Sent ms host a in
      if_cases (Sent (r ∷ ms) host) (withheld host r) _ _
        (λ _ m i. let (q, there, sent) = skipped m i in (q, inr there, sent))
        (λ e m i. elim i [
          | inl same ↦
              (r, inl refl, subst (λ x. SentOf host x r) (sym same) (spec_for-SentOf host a r e))
          | inr later ↦ let (q, there, sent) = rest m later in (q, inr there, sent)
        ])

  -- Every mount that `desired` names for a machine comes from a mount in the daemon's list that is
  -- not of the identity plane and, where it is a directory of this machine's own, is exposed to
  -- that machine; its path and source are those of the mount, and it is read-only if the mount is.
  pub desired_sent :
      (ms : List MountRec) (host : Text) (a : Access) (m : MountSpec)
      → In m (desired can_reach ms host a).0
      → (r : MountRec) × In r ms × SentOf host m r
  desired_sent ms host a m i = desired-Sent ms host a m i
