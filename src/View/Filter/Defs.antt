-- ===== src/View/Filter/Defs.antt =====
-- cmd/vibepod/view.go: `treeFilter` with `match`, `prune` and `apply`, `find`, and `reorder`.
use vibepod.Base.{ℕ, Bool, true, false, not, ◌&&◌, ◌||◌, Option, none, some, List, [], ◌∷◌, ◌++◌}
use vibepod.Base.{Text, codes, ◌==◌, if◌then◌else◌, nat_eq, text_eq, ltb}
use vibepod.Strings.{has_prefix}
use vibepod.Daemon.Tracker.{NodeInfo, TreeNode, node, Nodes, nil, cons, TreeSession}

-- `treeFilter`; times and pids are not negative, and 0 stands for what is not asked.
pub record TreeFilter : Type 0 where
  pub running : Bool
  pub failed : Bool
  pub after : ℕ
  pub root : ℕ

-- `n.Code == nil || *n.Code == 0`
unfoldable pub no_failure : Option ℕ → Bool
no_failure none = true
no_failure (some code) = code == 0

-- `match`
unfoldable pub match_node : TreeFilter → NodeInfo → Bool
unfolding no_failure
match_node f n =
    if f.running && not (n.state == codes "running")
    then false
    else if f.failed && no_failure n.code
    then false
    else if ltb 0 f.after && ltb n.started f.after
    then false
    else true

unfoldable pub is_nil : Nodes → Bool
is_nil nil = true
is_nil (cons n ns) = false

-- `prune`, and its loop over the children.
unfoldable mutual
  unfolding match_node is_nil

  pub prune : TreeFilter → TreeNode → TreeNode × Bool
  prune f (node i ns) =
      let kids = prune_all f ns in (node i kids, match_node f i || not (is_nil kids))

  pub prune_all : TreeFilter → Nodes → Nodes
  prune_all f nil = nil
  prune_all f (cons n ns) =
      let k = prune f n in let rest = prune_all f ns in if k.1 then cons k.0 rest else rest

unfoldable pub or_found : Option TreeNode → Option TreeNode → Option TreeNode
or_found none other = other
or_found (some n) other = some n

-- `find`
unfoldable mutual
  unfolding or_found

  pub find_under : ℕ → TreeNode → Option TreeNode
  find_under pid (node i ns) = if i.pid == pid then some (node i ns) else find_in pid ns

  pub find_in : ℕ → Nodes → Option TreeNode
  find_in pid nil = none
  find_in pid (cons n ns) = or_found (find_under pid n) (find_in pid ns)

unfoldable pub find : ℕ → List TreeNode → Option TreeNode
find pid [] = none
find pid (n ∷ ns) = or_found (find_under pid n) (find pid ns)

-- The loop over the nodes of a session.
unfoldable pub prune_nodes : TreeFilter → List TreeNode → List TreeNode
unfolding prune
prune_nodes f [] = []
prune_nodes f (n ∷ ns) =
    let k = prune f n in let rest = prune_nodes f ns in if k.1 then k.0 ∷ rest else rest

unfoldable pub found_only : Option TreeNode → List TreeNode
found_only none = []
found_only (some n) = n ∷ []

-- The nodes of a session that are looked at; there are none where the root is not found.
unfoldable pub scope : TreeFilter → List TreeNode → List TreeNode
unfolding found_only find
scope f ns = if ltb 0 f.root then found_only (find f.root ns) else ns

unfoldable pub or_dropped : TreeSession → List TreeNode → List TreeSession
or_dropped s [] = []
or_dropped s (n ∷ ns) = record s { nodes = n ∷ ns } ∷ []

-- A session as it is shown, if it is.
unfoldable pub keep_session : TreeFilter → TreeSession → List TreeSession
unfolding or_dropped prune_nodes scope
keep_session f s = or_dropped s (prune_nodes f (scope f s.nodes))

-- `apply`, on the sessions of a tree.
unfoldable pub apply : TreeFilter → List TreeSession → List TreeSession
unfolding keep_session
apply f [] = []
apply f (s ∷ ss) = keep_session f s ++ apply f ss

-- `reorder`: the flags and the other arguments, with the value of `--since` behind its flag.
unfoldable pub is_since : Text → Bool
is_since a = a == codes "--since" || a == codes "-since"

unfoldable pub reordered : List Text → List Text → List Text → List Text
unfolding is_since has_prefix
reordered flags rest [] = flags ++ rest
reordered flags rest (a ∷ []) =
    if has_prefix a (codes "-") then (flags ++ a ∷ []) ++ rest else flags ++ rest ++ a ∷ []
reordered flags rest (a ∷ b ∷ args) = elim (has_prefix a (codes "-")) [
  | true ↦ elim (is_since a) [
    | true ↦ reordered (flags ++ a ∷ b ∷ []) rest args
    | false ↦ reordered (flags ++ a ∷ []) rest (b ∷ args)
  ]
  | false ↦ reordered flags (rest ++ a ∷ []) (b ∷ args)
]

unfoldable pub reorder : List Text → List Text
unfolding reordered
reorder args = reordered [] [] args
