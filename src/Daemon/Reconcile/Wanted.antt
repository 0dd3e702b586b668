-- ===== src/Daemon/Reconcile/Wanted.antt =====
-- `reconcile` as a whole, with the list that `desired` makes of the daemon's mounts.
use vibepod.Base.{ℕ, Bool, false, none, some, List, [], ◌∷◌, ◌≡◌, refl}
use vibepod.Base.{Text, ◌==◌, text_eq, arith, if_cases, All, All-map}
use vibepod.Proto.{MountSpec}
use vibepod.Node.{OnePerPath}
use vibepod.Daemon.Mounts.{MountRec, mount_at, AtDistinct}
use vibepod.Daemon.Writers.{Access, spec_for, withheld, desired}
use vibepod.Daemon.Reconcile.Defs.{Net, ok, World, want_path, reconcile}
use vibepod.Daemon.Reconcile.Loops.{Listed, Apart}
use vibepod.Daemon.Reconcile.Laws.{Converged, reconcile_converges}
use vibepod.Daemon.Reconcile.Progress.{reconcile_succeeds}
use vibepod.Daemon.Reconcile.Chain.{Works}

Listed-later :
    (m : MountRec) (ms : List MountRec) (spec : MountSpec) → Listed ms spec → Listed (m ∷ ms) spec
unfolding mount_at
Listed-later m ms spec (r, e) =
    if_cases (λ o. (r : MountRec) × (o ≡ some r)) (m.at == spec.at) _ _ (λ _. (m, refl))
      (λ _. (r, e))

spec_for-at :
    (can_reach : Text → Text → Bool) (host : Text) (m : MountRec) (a : Access)
    → (spec_for can_reach a host m).0.at ≡ m.at
unfolding spec_for
spec_for-at can_reach host m a = refl

module _ (can_reach : Text → Text → Bool) (host : Text) where
  abbrev AllListed : List MountRec → List MountSpec × Access → Type 0
  AllListed ms (specs, _) = All (Listed ms) specs

  desired-Listed : (ms : List MountRec) (a : Access) → AllListed ms (desired can_reach ms host a)
  unfolding desired
  desired-Listed [] a = tt
  desired-Listed (m ∷ ms) a =
      let later = desired-Listed ms (spec_for can_reach a host m).1 in
      let skipped = desired-Listed ms a in
      if_cases (AllListed (m ∷ ms)) (withheld host m) _ _
        (λ _. All-map (Listed-later m ms) _ skipped)
        (λ _. ((m, unfold mount_at spec_for in ground arith), All-map (Listed-later m ms) _ later))

  abbrev NotWanted : Text → List MountSpec × Access → Type 0
  NotWanted at (specs, _) = want_path specs at ≡ false

  desired-NotWanted :
      (ms : List MountRec) (a : Access) (at : Text)
      → mount_at ms at ≡ none
      → NotWanted at (desired can_reach ms host a)
  unfolding desired mount_at want_path
  desired-NotWanted [] a at h = refl
  desired-NotWanted (m ∷ ms) a at h =
      let later = desired-NotWanted ms (spec_for can_reach a host m).1 at in
      let skipped = desired-NotWanted ms a at in
      if_cases (NotWanted at) (withheld host m) _ _ (λ _. skipped (ground arith))
        (λ _. ground (arith, later (ground arith), spec_for-at can_reach host m a))

  abbrev SpecsApart : List MountSpec × Access → Type 0
  SpecsApart (specs, _) = Apart specs

  desired-Apart :
      (ms : List MountRec) (a : Access) → AtDistinct ms → SpecsApart (desired can_reach ms host a)
  unfolding desired
  desired-Apart [] a u = tt
  desired-Apart (m ∷ ms) a (fresh, u) =
      let a1 = (spec_for can_reach a host m).1 in
      let later = desired-Apart ms a1 u in
      let skipped = desired-Apart ms a u in
      let apart = desired-NotWanted ms a1 m.at fresh in
      if_cases SpecsApart (withheld host m) _ _ (λ _. skipped)
        (λ _. (unfold spec_for in apart, later))

-- Whatever a machine holds, if it holds at most one mount at a path and the daemon's mounts are at
-- different paths: a reconciliation with what the daemon desires there that returns without an
-- error leaves the machine with just the desired mounts, of the desired machine, directory and
-- access, and the daemon knowing just this, at the generation of the list.
pub reconcile-desired :
    (w : World) (can_reach : Text → Text → Bool) (ms : List MountRec) (host : Text) (a : Access)
    (gen : ℕ) (s s' : Net)
    → AtDistinct ms
    → OnePerPath s.node.held
    → reconcile w ms (desired can_reach ms host a).0 gen s ≡ (ok tt, s')
    → Converged (desired can_reach ms host a).0 gen s'
reconcile-desired w can_reach ms host a gen s s' apart u h =
    reconcile_converges w ms (desired can_reach ms host a).0 gen s s'
      (desired-Apart can_reach host ms a apart) (desired-Listed can_reach host ms a) u h

-- Whatever a machine holds, if it holds at most one mount at a path and the daemon's mounts are at
-- different paths: where every request and reply arrives, every call of the node's own succeeds and
-- every tunnel can be set up, a reconciliation with what the daemon desires there returns without an
-- error and leaves the machine with just the desired mounts.
pub reconcile-desired-Works :
    (w : World) (can_reach : Text → Text → Bool) (ms : List MountRec) (host : Text) (a : Access)
    (gen : ℕ) (s : Net)
    → AtDistinct ms
    → OnePerPath s.node.held
    → Works w
    → (s' : Net) × (reconcile w ms (desired can_reach ms host a).0 gen s ≡ (ok tt, s'))
      × Converged (desired can_reach ms host a).0 gen s'
reconcile-desired-Works w can_reach ms host a gen s apart u works =
    reconcile_succeeds w ms (desired can_reach ms host a).0 gen s works
      (desired-Apart can_reach host ms a apart) (desired-Listed can_reach host ms a) u
