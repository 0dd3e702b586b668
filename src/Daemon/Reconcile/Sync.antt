-- ===== src/Daemon/Reconcile/Sync.antt =====
-- What a step of `reconcile` that succeeds has done to the node's list of mounts.
use mathlib.Core.Path.{subst}
use vibepod.Base.{
  suc, Bool, true, false, Option, none, some, List, [], ◌∷◌, ◌++◌, ◌≡◌, refl, sym, ap, ◌∙◌, ◌≢◌,
  ◌⊎◌, inl, inr,
}
use vibepod.Base.{Text, text_eq, arith, Bool-cases}
use vibepod.Proto.{MountSpec, Held}
use vibepod.Node.{
  Node, Outcomes, Request, ask_held, mount, unmount, handle, remembered, remove_first, find_at,
  OnePerPath, add_mount_ok, remove_mount_ok, remembered_fields, find_at-append, append-OnePerPath,
}
use vibepod.Daemon.Reconcile.Defs.{
  Net, Outcome, ok, failed, M, after, return, World, lost, answer, node_request, node_call,
  node_held,
}

pub Outcome-cases :
    {A : Type 0} (r : Outcome A × Net)
    → ((a : A) × (t : Net) × r ≡ (ok a, t)) ⊎ ((t : Net) × r ≡ (failed, t))
Outcome-cases (ok a, t) = inl (a, t, refl)
Outcome-cases (failed, t) = inr (t, refl)

-- A chain that succeeds has a first step that does.
pub after_ok :
    {A B : Type 0} (r : Outcome A × Net) (f : A → M B) (b : B) (s' : Net)
    → after r f ≡ (ok b, s')
    → (a : A) × (t : Net) × (r ≡ (ok a, t)) × (f a t ≡ (ok b, s'))
after_ok (ok a, t) f b s' h = (a, t, refl, h)
after_ok (failed, t) f b s' h = absurd (ground arith)

module _ (w : World) where
  answer_ok :
      (came : Bool) (r : Bool × Node) (s s' : Net) (held : List Held)
      → answer w came r s ≡ (ok held, s')
      → (r ≡ (true, s'.node)) × (held ≡ s'.node.held)
  unfolding answer
  answer_ok true (true, n) s s' held h = ground arith
  answer_ok false (true, n) s s' held h = absurd (ground arith)
  answer_ok came (false, n) s s' held h = absurd (ground arith)

  -- A request that succeeds was carried out by the node.
  pub node_request_ok :
      (r : Request) (s s' : Net) (held : List Held)
      → node_request w r s ≡ (ok held, s')
      → (o : Outcomes) × (handle o s.node r ≡ (true, s'.node)) × (held ≡ s'.node.held)
  unfolding node_request
  node_request_ok r s s' held h = elim (Bool-cases (w.delivered s.sent)) [
    | inl e ↦
        let (done, same) =
          answer_ok (w.replied s.sent) (handle (w.outcomes s.sent) s.node r)
            (record s { sent = suc s.sent }) s' held (ground arith) in
        (w.outcomes s.sent, done, same)
    | inr e ↦ absurd (ground arith)
  ]

  pub node_call_ok :
      (r : Request) (s s' : Net)
      → node_call w r s ≡ (ok tt, s')
      → (o : Outcomes) × (handle o s.node r ≡ (true, s'.node))
  unfolding node_call
  node_call_ok r s s' h =
      let (held, t, first, rest) = after_ok (node_request w r s) (λ _. return tt) tt s' h in
      let (o, done, _) = node_request_ok r s t held first in
      let same : t ≡ s' = ground arith in
      (o, subst (λ (x : Net). handle o s.node r ≡ (true, x.node)) same done)

  pub node_held_ok :
      (s s' : Net) (held : List Held)
      → node_held w s ≡ (ok held, s')
      → (held ≡ s'.node.held) × (s'.node ≡ s.node)
  unfolding node_held lost
  node_held_ok s s' held h = elim (Outcome-cases (node_request w ask_held s)) [
    | inl (a, t, e) ↦
        let (o, done, same) = node_request_ok ask_held s t a e in
        let stay : s.node ≡ t.node = unfold handle in ground arith in ground arith
    | inr (t, e) ↦ absurd (ground arith)
  ]

-- The node holds this mount, of this machine and directory, and as writable.
abbrev pub HeldAs : MountSpec → Option Held → Type 0
HeldAs m o =
    (h : Held) × (o ≡ some h) × (h.host ≡ m.host) × (h.path ≡ m.path) × (h.read_only ≡ m.read_only)

-- One mount was brought to what is wanted, and every other path is as it was.
abbrev pub Took : MountSpec → List Held → List Held → Type 0
Took m hs hs' =
    OnePerPath hs'
    × HeldAs m (find_at hs' m.at)
    × ((a : Text) → a ≢ m.at → find_at hs' a ≡ find_at hs a)

mounted_Took :
    (name : Text) (hs : List Held) (m m' : MountSpec)
    → OnePerPath hs
    → find_at hs m.at ≡ none
    → (m'.at ≡ m.at) × (m'.host ≡ m.host) × (m'.path ≡ m.path) × (m'.read_only ≡ m.read_only)
    → Took m hs (hs ++ remembered name m' ∷ [])
mounted_Took name hs m m' u fresh (at, host, path, ro) =
    let r = remembered name m' in
    let (r_at, r_host, r_path, r_ro) = remembered_fields name m' in
    let e : r.at ≡ m.at = r_at ∙ at in
    let fresh' : find_at hs r.at ≡ none = ap (find_at hs) e ∙ fresh in
    let there : find_at (hs ++ r ∷ []) m.at ≡ some r =
      ground (arith, find_at-append hs r m.at fresh') in
    (
      append-OnePerPath hs r u fresh',
      (r, there, r_host ∙ host, r_path ∙ path, r_ro ∙ ro),
      λ a ne. ground (arith, find_at-append hs r a fresh'),
    )

module _ (w : World) where
  pub node_call-mount-Took :
      (s s' : Net) (m m' : MountSpec)
      → OnePerPath s.node.held
      → find_at s.node.held m.at ≡ none
      → (m'.at ≡ m.at) × (m'.host ≡ m.host) × (m'.path ≡ m.path) × (m'.read_only ≡ m.read_only)
      → node_call w (mount m') s ≡ (ok tt, s')
      → Took m s.node.held s'.node.held
  node_call-mount-Took s s' m m' u fresh same h =
      let (o, done) = node_call_ok w (mount m') s s' h in
      let e : s'.node ≡ record (s.node) { held = s.node.held ++ remembered s.node.name m' ∷ [] } =
        add_mount_ok o s.node s'.node m' (unfold handle in done) in
      subst (Took m s.node.held) (sym (ap (λ (n : Node). n.held) e))
        (mounted_Took s.node.name s.node.held m m' u fresh same)

  pub call_unmount :
      (s s' : Net) (at : Text)
      → node_call w (unmount at) s ≡ (ok tt, s')
      → s'.node.held ≡ remove_first s.node.held at
  call_unmount s s' at h =
      let (o, done) = node_call_ok w (unmount at) s s' h in
      ap (λ (n : Node). n.held) (remove_mount_ok o s.node s'.node at (unfold handle in done))
