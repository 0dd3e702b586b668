-- ===== src/Daemon/Reconcile/Loops.antt =====
-- What the two loops of `reconcile` do to the node's list of mounts when they succeed.
use mathlib.Core.Path.{subst}
use vibepod.Base.{
  Bool, true, false, not, ◌&&◌, Option, none, some, List, [], ◌∷◌, ◌≡◌, refl, sym, ap, ◌∙◌, ◌≢◌,
  inl, inr,
}
use vibepod.Base.{Text, codes, ◌==◌, if◌then◌else◌, text_eq, arith, Bool-cases, All}
use vibepod.Base.Dict.{Dict, lookup}
use vibepod.Proto.{MountSpec, RelaySpec, Held}
use vibepod.Node.{
  unmount, remove_first, find_at, OnePerPath, holds_at, find_at-remove_first,
  remove_first-OnePerPath,
}
use vibepod.Daemon.Mounts.{MountRec, mount_at}
use vibepod.Daemon.Reconcile.Defs.{
  Net, ok, return, World, node_call, same_bool, same_mount, want_path, relay_then_mount,
  bring_relayed, bring, take_one, take_all, release,
}
use vibepod.Daemon.Reconcile.Sync.{after_ok, HeldAs, Took, node_call-mount-Took, call_unmount}

-- The daemon's own list has the mount, so that a tunnel for it can be set up.
abbrev pub Listed : List MountRec → MountSpec → Type 0
Listed ms m = (r : MountRec) × (mount_at ms m.at ≡ some r)

same_bool_eq : (a b : Bool) → same_bool a b ≡ true → a ≡ b
unfolding same_bool
same_bool_eq true b e = sym e
same_bool_eq false true e = absurd (ground arith)
same_bool_eq false false e = refl

same_mount-HeldAs : (h : Held) (m : MountSpec) → same_mount h m ≡ true → HeldAs m (some h)
unfolding same_mount
same_mount-HeldAs h m e =
    let (host, path, ro) = parts_of in
    (h, refl, host, path, same_bool_eq h.read_only m.read_only ro)
  where
    parts_of : (h.host ≡ m.host) × (h.path ≡ m.path) × (same_bool h.read_only m.read_only ≡ true)
    parts_of = ground arith

-- After the first loop every wanted mount is held, and a path not wanted is as it was.
abbrev pub TookAll : List MountSpec → List Held → List Held → Type 0
TookAll want hs hs' =
    OnePerPath hs'
    × All (λ m. HeldAs m (find_at hs' m.at)) want
    × ((a : Text) → want_path want a ≡ false → find_at hs' a ≡ find_at hs a)

-- No two wanted mounts are at one path.
abbrev pub Apart : List MountSpec → Type 0
Apart [] = Unit
Apart (m ∷ want) = (want_path want m.at ≡ false) × Apart want

want_path_split :
    (m : MountSpec) (want : List MountSpec) (a : Text)
    → want_path (m ∷ want) a ≡ false
    → (a ≢ m.at) × (want_path want a ≡ false)
unfolding want_path
want_path_split m want a h = elim (Bool-cases (m.at == a)) [
  | inl e ↦ absurd (ground arith)
  | inr e ↦ (ground arith, ground arith)
]

-- What holds of the paths still to come is not changed by a change at another path.
pub All-frame :
    (want : List MountSpec) (bp : Dict Text Held) (at : Text) (hs hs' : List Held)
    → want_path want at ≡ false
    → ((a : Text) → a ≢ at → find_at hs' a ≡ find_at hs a)
    → All (λ m. find_at hs m.at ≡ lookup m.at bp) want
    → All (λ m. find_at hs' m.at ≡ lookup m.at bp) want
All-frame [] bp at hs hs' h frame now = tt
All-frame (m ∷ want) bp at hs hs' h frame (now, nows) =
    let (ne, rest) = want_path_split m want at h in
    (frame m.at (λ e. ne (sym e)) ∙ now, All-frame want bp at hs hs' rest frame nows)

module _ (w : World) (ms : List MountRec) where
  bring-Took :
      (s s' : Net) (m : MountSpec)
      → Listed ms m
      → OnePerPath s.node.held
      → find_at s.node.held m.at ≡ none
      → bring w ms m s ≡ (ok tt, s')
      → Took m s.node.held s'.node.held
  unfolding bring
  bring-Took s s' m (r, listed) u fresh h = elim (Bool-cases (m.via == codes "relay")) [
    | inr e ↦ node_call-mount-Took w s s' m m u fresh (refl, refl, refl, refl) (ground arith)
    | inl e ↦ relayed (w.relays s.sent r) (unfold bring_relayed in ground arith)
  ]
    where
      relayed :
          (l : Option RelaySpec)
          → relay_then_mount w ms m l s ≡ (ok tt, s')
          → Took m s.node.held s'.node.held
      relayed none e = absurd (unfold relay_then_mount in ground arith)
      relayed (some l) e =
          node_call-mount-Took w s s' m (record m { relay = some l }) u fresh
            (refl, refl, refl, refl) (unfold relay_then_mount in e)

  replaced-Took :
      (s t s' : Net) (m : MountSpec)
      → Listed ms m
      → OnePerPath s.node.held
      → t.node.held ≡ remove_first s.node.held m.at
      → bring w ms m t ≡ (ok tt, s')
      → Took m s.node.held s'.node.held
  replaced-Took s t s' m l u removed h =
      let ut : OnePerPath t.node.held =
        subst OnePerPath (sym removed) (remove_first-OnePerPath s.node.held m.at u) in
      let gone : (a : Text)
          → find_at t.node.held a ≡ (if a == m.at then none else find_at s.node.held a) =
        λ a. ap (λ hs. find_at hs a) removed ∙ find_at-remove_first s.node.held m.at a u in
      let (u', now, rest) = bring-Took t s' m l ut (ground (arith, gone m.at)) h in
      (u', now, λ a ne. rest a ne ∙ ground (arith, gone a))

  pub take_one-Took :
      (s s' : Net) (m : MountSpec) (had : Option Held)
      → Listed ms m
      → OnePerPath s.node.held
      → find_at s.node.held m.at ≡ had
      → take_one w ms m had s ≡ (ok tt, s')
      → Took m s.node.held s'.node.held
  take_one-Took s s' m none l u now h = bring-Took s s' m l u now (unfold take_one in h)
  take_one-Took s s' m (some g) l u now h = elim (Bool-cases (same_mount g m)) [
    | inl e ↦
        let stay : s ≡ s' = unfold take_one in ground arith in
        subst (λ (x : Net). Took m s.node.held x.node.held) stay
          (u, subst (HeldAs m) (sym now) (same_mount-HeldAs g m e), λ a ne. refl)
    | inr e ↦
        let (_, t, first, second) =
          after_ok (node_call w (unmount m.at) s) (λ _. bring w ms m) tt s'
            (unfold take_one in ground arith) in
        replaced-Took s t s' m l u (call_unmount w s t m.at (ground arith)) second
  ]

  pub take_all-TookAll :
      (want : List MountSpec) (bp : Dict Text Held) (s s' : Net)
      → Apart want
      → All (Listed ms) want
      → OnePerPath s.node.held
      → All (λ m. find_at s.node.held m.at ≡ lookup m.at bp) want
      → take_all w ms bp want s ≡ (ok tt, s')
      → TookAll want s.node.held s'.node.held
  take_all-TookAll [] bp s s' ap_ l u now h =
      let stay : s ≡ s' = unfold take_all in ground arith in
      subst (λ (x : Net). TookAll [] s.node.held x.node.held) stay (u, tt, λ a ne. refl)
  take_all-TookAll (m ∷ want) bp s s' (apart, aparts) (l, ls) u (now, nows) h =
      let (_, t, first, second) =
        after_ok (take_one w ms m (lookup m.at bp) s) (λ _. take_all w ms bp want) tt s'
          (unfold take_all in h) in
      let (ut, here, frame) = take_one-Took s t m (lookup m.at bp) l u now first in
      let (u', all, frames) =
        take_all-TookAll want bp t s' aparts ls ut
          (All-frame want bp m.at s.node.held t.node.held apart frame nows) second in
      (
        u',
        (subst (HeldAs m) (sym (frames m.at apart)) here, all),
        λ a ne. let (apart', rest) = want_path_split m want a ne in frames a rest ∙ frame a apart',
      )

-- One turn of the second loop.
pub released :
    (w : World) (want : List MountSpec) (g : Held) (s t : Net)
    → OnePerPath s.node.held
    → (if want_path want g.at then return tt else node_call w (unmount g.at)) s ≡ (ok tt, t)
    → OnePerPath t.node.held
      × ((a : Text)
          → find_at t.node.held a
            ≡ (if not (want_path want g.at) && a == g.at then none else find_at s.node.held a))
released w want g s t u h = elim (Bool-cases (want_path want g.at)) [
  | inl e ↦
      let stay : s ≡ t = ground arith in
      (subst (λ (x : Net). OnePerPath x.node.held) stay u, λ a. ground arith)
  | inr e ↦
      let gone : t.node.held ≡ remove_first s.node.held g.at =
        call_unmount w s t g.at (ground arith) in
      (
        subst OnePerPath (sym gone) (remove_first-OnePerPath s.node.held g.at u),
        λ a.
            ap (λ hs. find_at hs a) gone
            ∙ ground (arith, find_at-remove_first s.node.held g.at a u),
      )
]

-- After the second loop nothing of the given list is held that is not wanted.
pub release_find :
    (w : World) (want : List MountSpec) (hs : List Held) (s s' : Net)
    → OnePerPath s.node.held
    → release w want hs s ≡ (ok tt, s')
    → (a : Text)
    → find_at s'.node.held a
      ≡ (if not (want_path want a) && holds_at hs a then none else find_at s.node.held a)
unfolding holds_at
release_find w want [] s s' u h a =
    let stay : s ≡ s' = unfold release in ground arith in ground arith
release_find w want (g ∷ hs) s s' u h a =
    let (_, t, first, second) =
      after_ok ((if want_path want g.at then return tt else node_call w (unmount g.at)) s)
        (λ _. release w want hs) tt s' (unfold release in h) in
    let (ut, now) = released w want g s t u first in
    ground (arith, release_find w want hs t s' ut second a, now a)
