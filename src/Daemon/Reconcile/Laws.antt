-- ===== src/Daemon/Reconcile/Laws.antt =====
-- internal/daemon/reconcile.go: a run of `reconcile` that returns without an error.
use mathlib.Core.Path.{subst}
use vibepod.Base.{
  ℕ, true, false, not, ◌&&◌, Option, none, some, List, [], ◌∷◌, ◌≡◌, refl, sym, ap, ◌∙◌, inl, inr,
}
use vibepod.Base.{Text, if◌then◌else◌, text_eq, arith, Bool-cases, Option-cases, All}
use vibepod.Base.Dict.{Dict, lookup, insert, lookup-insert}
use vibepod.Proto.{MountSpec, Held}
use vibepod.Node.{Node, find_at, OnePerPath, holds_at, holds_at-find_at}
use vibepod.Daemon.Mounts.{MountRec}
use vibepod.Daemon.Reconcile.Defs.{
  Net, ok, after, World, node_held, by_path, want_path, take_all, release, set_held, report,
  converge, reconcile,
}
use vibepod.Daemon.Reconcile.Sync.{after_ok, node_held_ok, HeldAs}
use vibepod.Daemon.Reconcile.Loops.{Listed, Apart, take_all-TookAll, release_find}

abbrev or_else : Option Held → Option Held → Option Held
or_else none y = y
or_else (some x) y = some x

lookup-by_path_from :
    (hs : List Held) (d : Dict Text Held) (a : Text)
    → OnePerPath hs
    → lookup a (by_path d hs) ≡ or_else (find_at hs a) (lookup a d)
unfolding by_path find_at
lookup-by_path_from [] d a u = refl
lookup-by_path_from (h ∷ hs) d a (fresh, u) =
    ground (arith, lookup-by_path_from hs (insert h.at h d) a u, lookup-insert a h.at h d)

lookup-by_path :
    (hs : List Held) (a : Text) → OnePerPath hs → find_at hs a ≡ lookup a (by_path [] hs)
unfolding lookup
lookup-by_path hs a u = elim (Option-cases (find_at hs a)) [
  | inl e ↦ ground (arith, lookup-by_path_from hs [] a u)
  | inr (v, e) ↦ ground (arith, lookup-by_path_from hs [] a u)
]

pub All-at :
    (hs : List Held) (want : List MountSpec)
    → OnePerPath hs
    → All (λ m. find_at hs m.at ≡ lookup m.at (by_path [] hs)) want
All-at hs [] u = tt
All-at hs (m ∷ want) u = (lookup-by_path hs m.at u, All-at hs want u)

-- What a reconciliation that succeeds leaves: the node holds every wanted mount, of the wanted
-- machine, directory and access, and nothing at any other path; and the daemon knows it to hold
-- just this, at the generation of the list, and to be reachable.
abbrev pub Converged : List MountSpec → ℕ → Net → Type 0
Converged want gen s =
    All (λ m. HeldAs m (find_at s.node.held m.at)) want
    × ((a : Text) → want_path want a ≡ false → find_at s.node.held a ≡ none)
    × (s.daemon.held ≡ s.node.held)
    × (s.daemon.gen ≡ gen)
    × (s.daemon.reachable ≡ true)

All-kept :
    (want : List MountSpec) (hs hs' : List Held)
    → ((a : Text) → want_path want a ≡ true → find_at hs' a ≡ find_at hs a)
    → All (λ m. HeldAs m (find_at hs m.at)) want
    → All (λ m. HeldAs m (find_at hs' m.at)) want
All-kept [] hs hs' kept all = tt
All-kept (m ∷ want) hs hs' kept (now, all) = (
  subst (HeldAs m) (sym (kept m.at (unfold want_path in ground arith))) now,
  All-kept want hs hs' (λ a e. kept a (unfold want_path in ground arith)) all,
)

unwanted_none :
    (want : List MountSpec) (start now later : List Held) (a : Text)
    → find_at later a ≡ (if not (want_path want a) && holds_at start a then none else find_at now a)
    → find_at now a ≡ find_at start a
    → want_path want a ≡ false
    → find_at later a ≡ none
unwanted_none want start now later a e frame ne = elim (Bool-cases (holds_at start a)) [
  | inl y ↦ ground arith
  | inr n ↦ ground (arith, holds_at-find_at start a n)
]

report_lem :
    (w : World) (gen : ℕ) (s s' : Net)
    → report w gen s ≡ (ok tt, s')
    → (s'.node ≡ s.node)
      × (s'.daemon.held ≡ s'.node.held)
      × (s'.daemon.gen ≡ gen)
      × (s'.daemon.reachable ≡ true)
unfolding report set_held
report_lem w gen s s' h =
    let (final, t, asked, rest) = after_ok (node_held w s) (λ final. set_held final gen) tt s' h in
    let (same, still) = node_held_ok w s t final asked in ground arith

converge_lem :
    (w : World) (ms : List MountRec) (want : List MountSpec) (gen : ℕ) (held : List Held)
    (s s' : Net)
    → Apart want
    → All (Listed ms) want
    → OnePerPath s.node.held
    → held ≡ s.node.held
    → converge w ms want gen held s ≡ (ok tt, s')
    → Converged want gen s'
converge_lem w ms want gen held s s' apart l u same h =
    let (_, t2, h2, reported) =
      after_ok (after (take_all w ms (by_path [] held) want s) (λ _. release w want held))
        (λ _. report w gen) tt s' (unfold converge in h) in
    let (_, t1, taken, freed) =
      after_ok (take_all w ms (by_path [] held) want s) (λ _. release w want held) tt t2 h2 in
    let at_start =
      subst (λ hs. All (λ m. find_at s.node.held m.at ≡ lookup m.at (by_path [] hs)) want)
        (sym same) (All-at s.node.held want u) in
    let (u1, all, frame) =
      take_all-TookAll w ms want (by_path [] held) s t1 apart l u at_start taken in
    let gone = release_find w want held t1 t2 u1 freed in
    let (stay, known, at_gen, reached) = report_lem w gen t2 s' reported in
    let kept : (a : Text)
        → want_path want a ≡ true
        → find_at s'.node.held a ≡ find_at t1.node.held a =
      λ a e. ap (λ (n : Node). find_at n.held a) stay ∙ ground (arith, gone a) in
    (
      All-kept want t1.node.held s'.node.held kept all,
      λ a e.
          ap (λ (n : Node). find_at n.held a) stay
          ∙ unwanted_none want held t1.node.held t2.node.held a (gone a)
              (frame a e ∙ ap (λ hs. find_at hs a) (sym same)) e,
      known,
      at_gen,
      reached,
    )

-- If `reconcile` succeeds from a node that holds at most one mount at a path, whatever else it
-- holds, for a list of wanted mounts at different paths that are all in the daemon's own list,
-- then the node has converged to the list.
pub reconcile_converges :
    (w : World) (ms : List MountRec) (want : List MountSpec) (gen : ℕ) (s s' : Net)
    → Apart want
    → All (Listed ms) want
    → OnePerPath s.node.held
    → reconcile w ms want gen s ≡ (ok tt, s')
    → Converged want gen s'
reconcile_converges w ms want gen s s' ap_ l u h =
    let (held, s1, asked, h1) =
      after_ok (node_held w s) (converge w ms want gen) tt s' (unfold reconcile in h) in
    let (same, still) = node_held_ok w s s1 held asked in
    let u1 : OnePerPath s1.node.held = subst (λ (n : Node). OnePerPath n.held) (sym still) u in
    converge_lem w ms want gen held s1 s' ap_ l u1 same h1
