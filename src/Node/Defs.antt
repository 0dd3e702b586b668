-- ===== src/Node/Defs.antt =====
-- internal/node/node.go: the list of mounts that a node pod holds, and the requests that read and
-- change it. The calls that leave the program (the FUSE backend, the bind in the pod's namespace,
-- the flush) succeed or fail as the answers of `Outcomes` say.
use vibepod.Base.{Bool, true, false, not, none, some, List, [], ◌∷◌, ◌++◌}
use vibepod.Base.{Text, ◌==◌, if◌then◌else◌, text_eq}
use vibepod.Proto.{MountSpec, Held}

-- The node's state: its own alias, and what it holds, in the order in which it was added.
pub record Node : Type 0 where
  pub name : Text
  pub held : List Held

-- How the calls of one request turn out: whether the file system mounts (for a directory of the
-- node's own this takes in `os.Executable`), whether what is unwritten can be flushed (true for a
-- mount that is not there or is read-only), and whether the pod binds or unbinds.
pub record Outcomes : Type 0 where
  pub mounted : Bool
  pub flushed : Bool
  pub bound : Bool

-- What `addMount`, `addRelayed` and `addOwn` remember of the mount that they made.
unfoldable pub remembered : Text → MountSpec → Held
remembered name m = elim m.relay [
  | some r ↦ record {
    at = m.at;
    host = m.host;
    path = m.path;
    native = false;
    read_only = m.read_only;
    generation = m.generation;
    relayed = true;
    hop = false;
  }
  | none ↦ record {
    at = m.at;
    host = m.host;
    path = m.path;
    native = m.host == name;
    read_only = m.read_only;
    generation = m.generation;
    relayed = false;
    hop = m.host == name;
  }
]

-- `addMount`, for each of its three kinds; a false result is an error.
unfoldable pub add_mount : Outcomes → Node → MountSpec → Bool × Node
add_mount o n m =
    if not o.mounted
    then (false, n)
    else if not o.bound
    then (false, n)
    else (true, record n { held = n.held ++ remembered n.name m ∷ [] })

-- Is a mount held at this path?
unfoldable pub holds_at : List Held → Text → Bool
holds_at [] at = false
holds_at (h ∷ hs) at = if h.at == at then true else holds_at hs at

-- The loop that takes out the first mount at the path.
unfoldable pub remove_first : List Held → Text → List Held
remove_first [] at = []
remove_first (h ∷ hs) at = if h.at == at then hs else h ∷ remove_first hs at

-- `removeMount`: flushed first, and refused where that fails.
unfoldable pub remove_mount : Outcomes → Node → Text → Bool × Node
unfolding holds_at remove_first
remove_mount o n at =
    if not (holds_at n.held at)
    then (false, n)
    else if not o.flushed
    then (false, n)
    else if not o.bound
    then (false, n)
    else (true, record n { held = remove_first n.held at })

-- The requests of `handle` that concern the mounts.
pub data Request : Type 0 where
  ask_held : Request
  mount : MountSpec → Request
  unmount : Text → Request

-- `handle`; the reply carries what the node then holds.
unfoldable pub handle : Outcomes → Node → Request → Bool × Node
handle o n ask_held = (true, n)
handle o n (mount m) = add_mount o n m
handle o n (unmount at) = remove_mount o n at
