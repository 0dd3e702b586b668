-- ===== src/Daemon/Reconcile/Chain.antt =====
-- Steps of internal/daemon/reconcile.go that succeed, one after the other.
use vibepod.Base.{
  ℕ, true, false, not, ◌&&◌, none, some, List, [], ◌∷◌, ◌≡◌, sym, ap, ◌∙◌, ◌≢◌, inl, inr,
}
use vibepod.Base.{Text, ◌==◌, if◌then◌else◌, text_eq, arith, Bool-cases, All}
use vibepod.Base.Dict.{Dict, lookup}
use vibepod.Proto.{MountSpec, RelaySpec, Held}
use vibepod.Node.{unmount, find_at}
use vibepod.Daemon.Mounts.{MountRec}
use vibepod.Daemon.Reconcile.Defs.{
  Net, Outcome, ok, M, after, return, World, node_call, node_held, by_path, want_path, take_one,
  take_all, release, set_held, report, converge,
}

-- Every request reaches the node, its reply comes back, the node's own calls succeed, and a
-- tunnel can be set up.
abbrev pub Works : World → Type 0
Works w =
    (n : ℕ)
    → (w.delivered n ≡ true)
      × (w.replied n ≡ true)
      × ((w.outcomes n).mounted ≡ true)
      × ((w.outcomes n).flushed ≡ true)
      × ((w.outcomes n).bound ≡ true)
      × ((r : MountRec) → (l : RelaySpec) × (w.relays n r ≡ some l))

pub after_done :
    {A B : Type 0} (r : Outcome A × Net) (f : A → M B) (a : A) (t : Net)
    → r ≡ (ok a, t)
    → after r f ≡ f a t
after_done r f a t e = ap (λ x. after x f) e

-- What the second loop is to release is held.
abbrev pub StillHeld : List MountSpec → List Held → List Held → Type 0
StillHeld want now hs = All (λ g. want_path want g.at ≡ false → find_at now g.at ≢ none) hs

find_at-none :
    (h : Held) (hs : List Held) (at : Text)
    → find_at (h ∷ hs) at ≡ none
    → (h.at ≢ at) × (find_at hs at ≡ none)
unfolding find_at
find_at-none h hs at e = elim (Bool-cases (h.at == at)) [
  | inl y ↦ absurd (ground arith)
  | inr n ↦ (ground arith, ground arith)
]

pub StillHeld-frame :
    (want : List MountSpec) (at : Text) (hs now later : List Held)
    → find_at hs at ≡ none
    → ((a : Text)
        → find_at later a ≡ (if not (want_path want at) && a == at then none else find_at now a))
    → StillHeld want now hs
    → StillHeld want later hs
StillHeld-frame want at [] now later fresh step there = tt
StillHeld-frame want at (h ∷ hs) now later fresh step (here, there) =
    let (ne, rest) = find_at-none h hs at fresh in
    let same : find_at later h.at ≡ find_at now h.at = ground (arith, step h.at) in
    (λ n e. here n (sym same ∙ e), StillHeld-frame want at hs now later rest step there)

pub release_step :
    (w : World) (want : List MountSpec) (g : Held) (hs : List Held) (s t t' : Net)
    → (if want_path want g.at then return tt else node_call w (unmount g.at)) s ≡ (ok tt, t)
    → release w want hs t ≡ (ok tt, t')
    → release w want (g ∷ hs) s ≡ (ok tt, t')
release_step w want g hs s t t' first rest =
    unfold release in
    after_done ((if want_path want g.at then return tt else node_call w (unmount g.at)) s)
      (λ _. release w want hs) tt t first
    ∙ rest

pub take_all_step :
    (w : World) (ms : List MountRec) (m : MountSpec) (want : List MountSpec) (bp : Dict Text Held)
    (s t t' : Net)
    → take_one w ms m (lookup m.at bp) s ≡ (ok tt, t)
    → take_all w ms bp want t ≡ (ok tt, t')
    → take_all w ms bp (m ∷ want) s ≡ (ok tt, t')
take_all_step w ms m want bp s t t' first rest =
    unfold take_all in
    after_done (take_one w ms m (lookup m.at bp) s) (λ _. take_all w ms bp want) tt t first ∙ rest

pub converge_step :
    (w : World) (ms : List MountRec) (want : List MountSpec) (gen : ℕ) (hs : List Held)
    (s t1 t2 t3 : Net)
    → take_all w ms (by_path [] hs) want s ≡ (ok tt, t1)
    → release w want hs t1 ≡ (ok tt, t2)
    → node_held w t2 ≡ (ok t2.node.held, t3)
    → converge w ms want gen hs s ≡ (
      ok tt,
      record t3 {
        daemon = record (t3.daemon) { held = t2.node.held; gen = gen; reachable = true };
      },
    )
converge_step w ms want gen hs s t1 t2 t3 taken freed asked =
    unfold converge report set_held in
    ap (λ x. after (after x (λ _. release w want hs)) (λ _. report w gen)) taken
    ∙ after_done (release w want hs t1) (λ _. report w gen) tt t2 freed
    ∙ after_done (node_held w t2) (λ final. set_held final gen) t2.node.held t3 asked
