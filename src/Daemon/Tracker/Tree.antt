-- ===== src/Daemon/Tracker/Tree.antt =====
-- internal/daemon/tracker.go, `tree`: the commands as a forest. Nodes are shared by pointer while the
-- forest is built: the map by pid holds them, a root is a pid, and a child is a copy.
use vibepod.Base.{ℕ, Bool, false, not, ◌&&◌, Option, none, some, List, [], ◌∷◌, ◌++◌}
use vibepod.Base.{Text, codes, ◌==◌, if◌then◌else◌, nat_eq, text_eq}
use vibepod.Base.Dict.{Dict, lookup, insert}
use vibepod.Daemon.Tracker.Defs.{ExecRec, is_done, elapsed_ms}

-- A `TreeNode` without its children.
pub record NodeInfo : Type 0 where
  pub pid : ℕ
  pub argv : List Text
  pub target : Text
  pub state : Text
  pub elapsed : ℕ
  pub code : Option ℕ
  pub session : Text
  pub started : ℕ
  pub exec_id : Text

mutual
  pub data TreeNode : Type 0 where
    node : NodeInfo → Nodes → TreeNode

  pub data Nodes : Type 0 where
    nil : Nodes
    cons : TreeNode → Nodes → Nodes

unfoldable pub add_node : Nodes → TreeNode → Nodes
add_node nil n = cons n nil
add_node (cons m ms) n = cons m (add_node ms n)

unfoldable pub info : TreeNode → NodeInfo
info (node i ns) = i

unfoldable pub with_child : TreeNode → TreeNode → TreeNode
unfolding add_node
with_child (node i ns) n = node i (add_node ns n)

-- `nodeOf`
unfoldable pub node_of : ℕ → ExecRec → TreeNode
unfolding is_done
node_of now r =
    node
      (record {
        pid = r.pid;
        argv = r.argv;
        target = r.target;
        state = if is_done r then codes "exited" else codes "running";
        elapsed = elapsed_ms now r;
        code = r.code;
        session = r.session;
        started = r.start;
        exec_id = r.exec_id;
      })
      nil

-- The map by pid, and the roots found so far.
pub record Forest : Type 0 where
  pub by_pid : Dict ℕ TreeNode
  pub roots : List ℕ

unfoldable pub is_running : Option TreeNode → Bool
unfolding info
is_running none = false
is_running (some n) = (info n).state == codes "running"

-- One round of the loop that fills the map.
unfoldable pub index_one : ℕ → Bool → ExecRec → Dict ℕ TreeNode → Dict ℕ TreeNode
unfolding is_done is_running node_of
index_one now all r d =
    if is_done r && not all
    then d
    else if is_running (lookup r.pid d)
    then d
    else insert r.pid (node_of now r) d

unfoldable pub index_all : ℕ → Bool → List ExecRec → Dict ℕ TreeNode → Dict ℕ TreeNode
unfolding index_one
index_all now all [] d = d
index_all now all (r ∷ rs) d = index_all now all rs (index_one now all r d)

-- A node goes to its parent as a copy, or is a root.
unfoldable pub place_node : ExecRec → Option TreeNode → Option TreeNode → Forest → Forest
unfolding with_child
place_node r none parent f = f
place_node r (some n) none f = record f { roots = f.roots ++ r.pid ∷ [] }
place_node r (some n) (some parent) f =
    if r.ppid == r.pid
    then record f { roots = f.roots ++ r.pid ∷ [] }
    else record f { by_pid = insert r.ppid (with_child parent n) f.by_pid }

unfoldable pub attach_all : List ExecRec → Forest → Forest
unfolding place_node
attach_all [] f = f
attach_all (r ∷ rs) f =
    attach_all rs (place_node r (lookup r.pid f.by_pid) (lookup r.ppid f.by_pid) f)

unfoldable pub nodes_of : Dict ℕ TreeNode → List ℕ → List TreeNode
nodes_of d [] = []
nodes_of d (pid ∷ pids) = elim (lookup pid d) [
  | none ↦ nodes_of d pids
  | some n ↦ n ∷ nodes_of d pids
]

-- The roots that `tree` gives to the sessions, for records sorted by start.
unfoldable pub root_nodes : ℕ → Bool → List ExecRec → List TreeNode
unfolding index_all attach_all nodes_of
root_nodes now all recs =
    let f = attach_all recs (record { by_pid = index_all now all recs []; roots = [] }) in
    nodes_of f.by_pid f.roots

-- `TreeSession`
pub record TreeSession : Type 0 where
  pub id : Text
  pub backend : Text
  pub nodes : List TreeNode

unfoldable pub backend_named : Option Text → Text
backend_named none = []
backend_named (some b) = b

unfoldable pub or_new : Text → Dict Text Text → Option TreeSession → TreeSession
unfolding backend_named
or_new id backends none = record {
  id = id;
  backend = backend_named (lookup id backends);
  nodes = [];
}
or_new id backends (some s) = s

unfoldable pub session_id : TreeNode → Text
unfolding info
session_id n = if (info n).session == [] then codes "detached" else (info n).session

-- The loop that puts the roots in their sessions; `backends` is what `live` answers.
unfoldable pub group :
    Dict Text Text → List TreeNode → Dict Text TreeSession → Dict Text TreeSession
unfolding or_new session_id
group backends [] d = d
group backends (n ∷ ns) d =
    let s = or_new (session_id n) backends (lookup (session_id n) d) in
    group backends ns (insert (session_id n) (record s { nodes = s.nodes ++ n ∷ [] }) d)

-- A session with nothing running is there all the same.
unfoldable pub add_idle : Dict Text Text → Dict Text TreeSession → Dict Text TreeSession
add_idle [] d = d
add_idle ((id, backend) ∷ rest) d = elim (lookup id d) [
  | none ↦ add_idle rest (insert id (record { id = id; backend = backend; nodes = [] }) d)
  | some s ↦ add_idle rest d
]

unfoldable pub sessions_of : Dict Text Text → List TreeNode → Dict Text TreeSession
unfolding group add_idle
sessions_of backends roots = add_idle backends (group backends roots [])
