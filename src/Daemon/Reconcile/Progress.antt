-- ===== src/Daemon/Reconcile/Progress.antt =====
-- internal/daemon/reconcile.go: a run of `reconcile` in a world where nothing fails.
use mathlib.Core.Path.{subst}
use vibepod.Base.{
  ℕ, suc, true, false, Option, none, some, List, [], ◌∷◌, ◌++◌, ◌≡◌, refl, sym, ap, ◌∙◌, ◌≢◌, inl,
  inr,
}
use vibepod.Base.{Text, codes, ◌==◌, if◌then◌else◌, text_eq, arith, Bool-cases, All, All-map}
use vibepod.Base.Dict.{Dict, lookup}
use vibepod.Proto.{MountSpec, Held}
use vibepod.Node.{
  Node, Request, ask_held, mount, unmount, handle, remembered, All-found, remove_first, find_at,
  OnePerPath, holds_at, holds_at-find_at, add_mount, remove_mount,
}
use vibepod.Daemon.Mounts.{MountRec}
use vibepod.Daemon.Reconcile.Defs.{
  Net, ok, return, World, lost, answer, node_request, node_call, node_held, by_path, same_mount,
  want_path, relay_then_mount, bring_relayed, bring, take_one, take_all, release, converge,
  reconcile,
}
use vibepod.Daemon.Reconcile.Loops.{Listed, Apart, take_all-TookAll}
use vibepod.Daemon.Reconcile.Loops.{take_one-Took, released, All-frame}
use vibepod.Daemon.Reconcile.Laws.{All-at, Converged, reconcile_converges}
use vibepod.Daemon.Reconcile.Chain.{
  Works, after_done, StillHeld, StillHeld-frame, release_step, take_all_step, converge_step,
}

module _ (w : World) (works : Works w) where
  node_request_done :
      (r : Request) (s : Net) (n : Node)
      → handle (w.outcomes s.sent) s.node r ≡ (true, n)
      → (t : Net) × (node_request w r s ≡ (ok n.held, t)) × (t.node ≡ n)
  unfolding node_request answer
  node_request_done r s n e =
      let (sent, replied, _, _, _, _) = works s.sent in
      (
        record { daemon = record (s.daemon) { reachable = true }; node = n; sent = suc s.sent },
        ground arith,
        refl,
      )

  node_call_done :
      (r : Request) (s : Net) (n : Node)
      → handle (w.outcomes s.sent) s.node r ≡ (true, n)
      → (t : Net) × (node_call w r s ≡ (ok tt, t))
  unfolding node_call
  node_call_done r s n e =
      let (t, asked, _) = node_request_done r s n e in
      (t, after_done (node_request w r s) (λ _. return tt) n.held t asked)

  mount_done : (m : MountSpec) (s : Net) → (t : Net) × (node_call w (mount m) s ≡ (ok tt, t))
  mount_done m s =
      let (_, _, mounted, flushed, bound, _) = works s.sent in
      node_call_done (mount m) s
        (record (s.node) { held = s.node.held ++ remembered s.node.name m ∷ [] })
        (unfold handle add_mount in ground arith)

  unmount_done :
      (at : Text) (s : Net)
      → find_at s.node.held at ≢ none
      → (t : Net) × (node_call w (unmount at) s ≡ (ok tt, t))
  unmount_done at s held =
      let (_, _, mounted, flushed, bound, _) = works s.sent in
      let there : holds_at s.node.held at ≡ true = elim (Bool-cases (holds_at s.node.held at)) [
        | inl y ↦ y
        | inr n ↦ absurd (held (holds_at-find_at s.node.held at n))
      ] in
      node_call_done (unmount at) s (record (s.node) { held = remove_first s.node.held at })
        (unfold handle remove_mount in ground arith)

  node_held_done : (s : Net) → (t : Net) × (node_held w s ≡ (ok s.node.held, t)) × (t.node ≡ s.node)
  unfolding node_held lost handle
  node_held_done s =
      let (t, asked, same) = node_request_done ask_held s s.node refl in (t, ground arith, same)

  bring_done :
      (ms : List MountRec) (m : MountSpec) (s : Net)
      → Listed ms m
      → (t : Net) × (bring w ms m s ≡ (ok tt, t))
  unfolding bring
  bring_done ms m s (r, listed) =
      let (_, _, _, _, _, tunnel) = works s.sent in
      let (l, e) = tunnel r in
      elim (Bool-cases (m.via == codes "relay")) [
        | inl y ↦
            let (t, d) = mount_done (record m { relay = some l }) s in
            (t, unfold bring_relayed relay_then_mount in ground arith)
        | inr n ↦ let (t, d) = mount_done m s in (t, ground arith)
      ]

  take_one_done :
      (ms : List MountRec) (m : MountSpec) (had : Option Held) (s : Net)
      → Listed ms m
      → find_at s.node.held m.at ≡ had
      → (t : Net) × (take_one w ms m had s ≡ (ok tt, t))
  unfolding take_one
  take_one_done ms m none s l now = bring_done ms m s l
  take_one_done ms m (some g) s l now = elim (Bool-cases (same_mount g m)) [
    | inl y ↦ (s, ground arith)
    | inr n ↦
        let (t, freed) = unmount_done m.at s (λ e. absurd (ground arith)) in
        let (t', d) = bring_done ms m t l in
        (
          t',
          ground (arith, after_done (node_call w (unmount m.at) s) (λ _. bring w ms m) tt t freed),
        )
  ]

  take_all_done :
      (ms : List MountRec) (want : List MountSpec) (bp : Dict Text Held) (s : Net)
      → Apart want
      → All (Listed ms) want
      → OnePerPath s.node.held
      → All (λ m. find_at s.node.held m.at ≡ lookup m.at bp) want
      → (t : Net) × (take_all w ms bp want s ≡ (ok tt, t))
  take_all_done ms [] bp s apart l u now = (s, unfold take_all in refl)
  take_all_done ms (m ∷ want) bp s (apart, aparts) (l, ls) u (now, nows) =
      let (t, first) = take_one_done ms m (lookup m.at bp) s l now in
      let (ut, _, frame) = take_one-Took w ms s t m (lookup m.at bp) l u now first in
      let (t', rest) =
        take_all_done ms want bp t aparts ls ut
          (All-frame want bp m.at s.node.held t.node.held apart frame nows) in
      (t', take_all_step w ms m want bp s t t' first rest)

  released_done :
      (want : List MountSpec) (g : Held) (s : Net)
      → (want_path want g.at ≡ false → find_at s.node.held g.at ≢ none)
      → (t : Net) × ((if want_path want g.at then return tt else node_call w (unmount g.at)) s
          ≡ (ok tt, t))
  released_done want g s here = elim (Bool-cases (want_path want g.at)) [
    | inl y ↦ (s, ground arith)
    | inr n ↦ let (t, freed) = unmount_done g.at s (here n) in (t, ground arith)
  ]

  release_done :
      (want : List MountSpec) (hs : List Held) (s : Net)
      → OnePerPath s.node.held
      → OnePerPath hs
      → StillHeld want s.node.held hs
      → (t : Net) × (release w want hs s ≡ (ok tt, t))
  release_done want [] s u us there = (s, unfold release in refl)
  release_done want (g ∷ hs) s u (fresh, us) (here, there) =
      let (t, first) = released_done want g s here in
      let (ut, now) = released w want g s t u first in
      let (t', rest) =
        release_done want hs t ut us
          (StillHeld-frame want g.at hs s.node.held t.node.held fresh now there) in
      (t', release_step w want g hs s t t' first rest)

  converge_done :
      (ms : List MountRec) (want : List MountSpec) (gen : ℕ) (s : Net)
      → Apart want
      → All (Listed ms) want
      → OnePerPath s.node.held
      → (t : Net) × (converge w ms want gen s.node.held s ≡ (ok tt, t))
  converge_done ms want gen s apart l u =
      let hs = s.node.held in
      let at_start = All-at hs want u in
      let (t1, taken) = take_all_done ms want (by_path [] hs) s apart l u at_start in
      let (u1, _, frame) =
        take_all-TookAll w ms want (by_path [] hs) s t1 apart l u at_start taken in
      let (t2, freed) =
        release_done want hs t1 u1 u
          (All-map (λ g held n e. held (sym (frame g.at n) ∙ e)) hs (All-found hs)) in
      let (t3, asked, _) = node_held_done t2 in
      (
        record t3 {
          daemon = record (t3.daemon) { held = t2.node.held; gen = gen; reachable = true };
        },
        converge_step w ms want gen hs s t1 t2 t3 taken freed asked,
      )

-- From a node that holds at most one mount at a path, for wanted mounts at different paths that
-- are all in the daemon's own list: where every request reaches the node and its reply comes
-- back, every call of the node's own succeeds and every tunnel can be set up, `reconcile` returns
-- without an error, and the node has converged to the list.
pub reconcile_succeeds :
    (w : World) (ms : List MountRec) (want : List MountSpec) (gen : ℕ) (s : Net)
    → Works w
    → Apart want
    → All (Listed ms) want
    → OnePerPath s.node.held
    → (s' : Net) × (reconcile w ms want gen s ≡ (ok tt, s')) × Converged want gen s'
reconcile_succeeds w ms want gen s works apart l u =
    let (s1, asked, still) = node_held_done w works s in
    let u1 : OnePerPath s1.node.held = subst (λ (n : Node). OnePerPath n.held) (sym still) u in
    let (s', done) = converge_done w works ms want gen s1 apart l u1 in
    let whole : reconcile w ms want gen s ≡ (ok tt, s') =
      unfold reconcile in
      after_done (node_held w s) (converge w ms want gen) s.node.held s1 asked
      ∙ ap (λ (n : Node). converge w ms want gen n.held s1) (sym still)
      ∙ done in
    (s', whole, reconcile_converges w ms want gen s s' apart l u whole)
