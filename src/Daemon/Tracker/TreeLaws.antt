-- ===== src/Daemon/Tracker/TreeLaws.antt =====
-- internal/daemon/tracker.go, `tree`: what the forest shows.
use vibepod.Base.{ℕ, false, none, List, [], ◌∷◌}
use vibepod.Base.{◌≡◌, ◌≢◌, refl, ap, ◌∙◌, arith}
use vibepod.Base.{nat_eq, text_eq}
use vibepod.Base.Dict.{lookup, insert}
use vibepod.Daemon.Tracker.Defs.{ExecRec, is_done, is_some}
use vibepod.Daemon.Tracker.Tree.{
  TreeNode, node_of, with_child, Forest, is_running, index_one, index_all, place_node, attach_all,
  nodes_of, root_nodes,
}

-- Three running records in a row.
module _ (now : ℕ) (a b c : ExecRec) (ea : a.end_time ≡ none) (eb : b.end_time ≡ none)
    (ec : c.end_time ≡ none) (ab : a.pid ≢ b.pid) (ac : a.pid ≢ c.pid) (bc : b.pid ≢ c.pid) where
  indexed :
      index_all now false (a ∷ b ∷ c ∷ []) []
      ≡ (a.pid, node_of now a) ∷ (b.pid, node_of now b) ∷ (c.pid, node_of now c) ∷ []
  unfolding index_all index_one lookup insert is_done is_some is_running
  indexed = ground arith

attach_step :
    (r : ExecRec) (rs : List ExecRec) (f f' : Forest)
    → place_node r (lookup r.pid f.by_pid) (lookup r.ppid f.by_pid) f ≡ f'
    → attach_all (r ∷ rs) f ≡ attach_all rs f'
unfolding attach_all
attach_step r rs f f' e = ap (attach_all rs) e

-- A map of three pids.
abbrev three : ℕ → ℕ → ℕ → TreeNode → TreeNode → TreeNode → List ℕ → Forest
three p q s x y z roots = record { by_pid = (p, x) ∷ (q, y) ∷ (s, z) ∷ []; roots = roots }

module _ (p q s : ℕ) (x y z : TreeNode) (pq : p ≢ q) (ps : p ≢ s) (qs : q ≢ s) where
  root_step :
      (r : ExecRec)
      → r.pid ≡ p
      → r.ppid ≢ p
      → r.ppid ≢ q
      → r.ppid ≢ s
      → place_node r
          (lookup r.pid (three p q s x y z []).by_pid)
          (lookup r.ppid (three p q s x y z []).by_pid)
          (three p q s x y z [])
        ≡ three p q s x y z (p ∷ [])
  unfolding place_node lookup
  root_step r e np nq ns = ground arith

  child_step :
      (r : ExecRec) (roots : List ℕ)
      → r.pid ≡ q
      → r.ppid ≡ p
      → place_node r
          (lookup r.pid (three p q s x y z roots).by_pid)
          (lookup r.ppid (three p q s x y z roots).by_pid)
          (three p q s x y z roots)
        ≡ three p q s (with_child x y) y z roots
  unfolding place_node lookup insert
  child_step r roots e ep = ground arith

  grandchild_step :
      (r : ExecRec) (roots : List ℕ)
      → r.pid ≡ s
      → r.ppid ≡ q
      → place_node r
          (lookup r.pid (three p q s x y z roots).by_pid)
          (lookup r.ppid (three p q s x y z roots).by_pid)
          (three p q s x y z roots)
        ≡ three p q s x (with_child y z) z roots
  unfolding place_node lookup insert
  grandchild_step r roots e ep = ground arith

-- A command b that runs under a, and a command c that runs under b, each tracked by its own pid and
-- begun in this order, with nothing tracked above a: the forest shows a with b under it, and
-- does not show c at all.
pub root_nodes_chain :
    (now : ℕ) (a b c : ExecRec)
    → a.end_time ≡ none
    → b.end_time ≡ none
    → c.end_time ≡ none
    → a.pid ≢ b.pid
    → a.pid ≢ c.pid
    → b.pid ≢ c.pid
    → b.ppid ≡ a.pid
    → c.ppid ≡ b.pid
    → a.ppid ≢ a.pid
    → a.ppid ≢ b.pid
    → a.ppid ≢ c.pid
    → root_nodes now false (a ∷ b ∷ c ∷ []) ≡ with_child (node_of now a) (node_of now b) ∷ []
unfolding root_nodes
root_nodes_chain now a b c ea eb ec ab ac bc pb pc qa qb qc =
    let x = node_of now a in
    let y = node_of now b in
    let z = node_of now c in
    let forest : attach_all (a ∷ b ∷ c ∷ []) (three a.pid b.pid c.pid x y z [])
        ≡ three a.pid b.pid c.pid (with_child x y) (with_child y z) z (a.pid ∷ []) =
      attach_step a (b ∷ c ∷ []) _ _ (root_step a.pid b.pid c.pid x y z ab ac bc a refl qa qb qc)
      ∙ attach_step b (c ∷ []) _ _
          (child_step a.pid b.pid c.pid x y z ab ac bc b (a.pid ∷ []) refl pb)
      ∙ attach_step c [] _ _
          (grandchild_step a.pid b.pid c.pid (with_child x y) y z ab ac bc c (a.pid ∷ []) refl pc)
      ∙ unfold attach_all in refl in
    rw (indexed now a b c ea eb ec ab ac bc) (rw forest (unfold nodes_of lookup in ground arith))
