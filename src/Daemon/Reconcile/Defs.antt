-- ===== src/Daemon/Reconcile/Defs.antt =====
-- internal/daemon/reconcile.go, `reconcile` and the requests that it sends.
use vibepod.Base.{ℕ, suc, Bool, true, false, not, ◌&&◌, Option, none, some, List, [], ◌∷◌}
use vibepod.Base.{Text, codes, ◌==◌, if◌then◌else◌, text_eq}
use vibepod.Base.Dict.{Dict, lookup, insert}
use vibepod.Proto.{MountSpec, RelaySpec, Held}
use vibepod.Node.{Node, Outcomes, Request, ask_held, mount, unmount, handle}
use vibepod.Daemon.Mounts.{MountRec, mount_at}

-- `nodePod`: what the daemon knows about a pod on another machine.
pub record NodePod : Type 0 where
  pub host : Text
  pub held : List Held
  pub gen : ℕ
  pub reachable : Bool

-- The two machines, and how many requests have been sent.
pub record Net : Type 0 where
  pub daemon : NodePod
  pub node : Node
  pub sent : ℕ

pub data Outcome {ℓ} (A : Type ℓ) : Type ℓ where
  ok : A → Outcome A
  failed : Outcome A

abbrev pub M : Type 0 → Type 0
M A = Net → Outcome A × Net

abbrev pub after : {A B : Type 0} → Outcome A × Net → (A → M B) → Outcome B × Net
after (ok a, s) f = f a s
after (failed, s) f = (failed, s)

infixl 5 ◌>>=◌ ◌>>◌
abbrev pub ◌>>=◌ : {A B : Type 0} → M A → (A → M B) → M B
◌>>=◌ m f s = after (m s) f

abbrev pub ◌>>◌ : {B : Type 0} → M (Unit {0}) → M B → M B
m >> k = m >>= λ _. k

abbrev pub return : {A : Type 0} → A → M A
return a s = (ok a, s)

-- What happens to the n-th request: whether it reaches the node, how the node's own calls turn
-- out, and whether the reply comes back. `relays` says whether a tunnel for a mount can be set
-- up, and what the node is told of it.
pub record World : Type 0 where
  pub delivered : ℕ → Bool
  pub outcomes : ℕ → Outcomes
  pub replied : ℕ → Bool
  pub relays : ℕ → MountRec → Option RelaySpec

unfoldable pub lost : Outcome (List Held) → Net → Outcome (List Held) × Net
lost (ok held) t = (ok held, t)
lost failed t = (failed, record t { daemon = record (t.daemon) { reachable = false } })

module _ (w : World) where
  -- What the daemon learns of a request that reached the node.
  unfoldable pub answer : Bool → Bool × Node → Net → Outcome (List Held) × Net
  answer came (true, n) s =
      if came
      then (ok n.held, record s { daemon = record (s.daemon) { reachable = true }; node = n })
      else (failed, record s { node = n })
  answer came (false, n) s = (failed, record s { node = n })

  -- `nodeRequest`. A request that is lost, refused, or whose reply is lost is an error alike.
  unfoldable pub node_request : Request → M (List Held)
  unfolding answer
  node_request r s =
      let t = record s { sent = suc s.sent } in
      if w.delivered s.sent
      then answer (w.replied s.sent) (handle (w.outcomes s.sent) s.node r) t
      else (failed, t)

  -- `nodeCall`
  unfoldable pub node_call : Request → M (Unit {0})
  node_call r = node_request r >>= λ _. return tt

  -- `nodeHeld`, with the error path of `reconcile`: a node that does not say is not reachable.
  unfoldable pub node_held : M (List Held)
  node_held s = let (r, t) = node_request ask_held s in lost r t

-- `byPath`: a later mount at a path stands for an earlier one.
unfoldable pub by_path : Dict Text Held → List Held → Dict Text Held
by_path d [] = d
by_path d (h ∷ hs) = by_path (insert h.at h d) hs

unfoldable pub same_bool : Bool → Bool → Bool
same_bool true b = b
same_bool false b = not b

-- Identity, not just the path.
unfoldable pub same_mount : Held → MountSpec → Bool
same_mount h m = h.host == m.host && h.path == m.path && same_bool h.read_only m.read_only

-- `wantPath`
unfoldable pub want_path : List MountSpec → Text → Bool
want_path [] at = false
want_path (m ∷ want) at = if m.at == at then true else want_path want at

-- `setHeld`
unfoldable pub set_held : List Held → ℕ → M (Unit {0})
set_held final gen s =
    (ok tt, record s { daemon = record (s.daemon) { held = final; gen = gen; reachable = true } })

module _ (w : World) where
  -- The second loop: what is held and not wanted.
  unfoldable pub release : List MountSpec → List Held → M (Unit {0})
  release want [] = return tt
  release want (h ∷ hs) =
      (if want_path want h.at then return tt else node_call w (unmount h.at)) >> release want hs

-- What the node says that it holds in the end is what the daemon goes by.
unfoldable pub report : World → ℕ → M (Unit {0})
report w gen = node_held w >>= λ final. set_held final gen

module _ (w : World) (ms : List MountRec) where
  -- The end of a turn of the first loop: a tunnel where the mount needs one, and the mount.
  unfoldable pub relay_then_mount : MountSpec → Option RelaySpec → M (Unit {0})
  relay_then_mount m none s = (failed, s)
  relay_then_mount m (some r) s = node_call w (mount (record m { relay = some r })) s

  unfoldable pub bring_relayed : MountSpec → Option MountRec → M (Unit {0})
  bring_relayed m none s = (ok tt, s)
  bring_relayed m (some rec) s = relay_then_mount m (w.relays s.sent rec) s

  unfoldable pub bring : MountSpec → M (Unit {0})
  bring m =
      if m.via == codes "relay" then bring_relayed m (mount_at ms m.at) else node_call w (mount m)

  -- One turn of the first loop; `have` is what was held at the path at the start.
  unfoldable pub take_one : MountSpec → Option Held → M (Unit {0})
  take_one m none = bring m
  take_one m (some h) = if same_mount h m then return tt else node_call w (unmount m.at) >> bring m

  unfoldable pub take_all : Dict Text Held → List MountSpec → M (Unit {0})
  take_all bp [] = return tt
  take_all bp (m ∷ want) = take_one m (lookup m.at bp) >> take_all bp want

  -- `reconcile`, from the list that `desired` returned on; `gen` is the pod's generation.
  unfoldable pub converge : List MountSpec → ℕ → List Held → M (Unit {0})
  converge want gen held = take_all (by_path [] held) want >> release w want held >> report w gen

  unfoldable pub reconcile : List MountSpec → ℕ → M (Unit {0})
  reconcile want gen = node_held w >>= converge want gen
