-- ===== src/View/Filter/Laws.antt =====
-- cmd/vibepod/view.go: what `vp tree` shows of a session when it is asked a question.
use vibepod.Base.{Bool, true, false, List, [], ◌∷◌, ◌++◌}
use vibepod.Base.{◌≡◌, ◌↔◌, ◌⊎◌, refl, arith, if_cases}
use vibepod.Base.{nat_eq, text_eq}
use vibepod.Daemon.Tracker.{NodeInfo, TreeNode, TreeSession}
use vibepod.View.Filter.Defs.{
  TreeFilter, prune, prune_nodes, scope, or_dropped, keep_session, apply,
}
use vibepod.View.Filter.Branches.{Branch, Leads, prune-Leads}

-- A branch of one of some trees.
abbrev pub BranchOf : List TreeNode → List NodeInfo → Type 0
BranchOf [] b = ⊥
BranchOf (n ∷ ns) b = Branch n b ⊎ BranchOf ns b

abbrev pub LeadsOf : TreeFilter → List TreeNode → List NodeInfo → Type 0
LeadsOf f [] b = ⊥
LeadsOf f (n ∷ ns) b = Leads f n b ⊎ LeadsOf f ns b

prune_nodes-LeadsOf :
    (f : TreeFilter) (ns : List TreeNode) (b : List NodeInfo)
    → BranchOf (prune_nodes f ns) b ↔ LeadsOf f ns b
unfolding prune_nodes
prune_nodes-LeadsOf f [] b = ((λ h. absurd h), (λ h. absurd h))
prune_nodes-LeadsOf f (n ∷ ns) b =
    if_cases (λ q. BranchOf q b ↔ (Leads f n b ⊎ LeadsOf f ns b)) (prune f n).1 _ _
      (λ y. kept y (prune-Leads f n b) (prune_nodes-LeadsOf f ns b))
      (λ e. dropped e (prune-Leads f n b) (prune_nodes-LeadsOf f ns b))
  where
    kept :
        {P A B C : Type 0} {k : Bool} → k ≡ true → ((k ≡ true) × P) ↔ A → B ↔ C → (P ⊎ B) ↔ (A ⊎ C)
    kept y one more = ground arith

    dropped : {P A B C : Type 0} {k : Bool} → k ≡ false → ((k ≡ true) × P) ↔ A → B ↔ C → B ↔ (A ⊎ C)
    dropped e one more = ground arith

-- What is shown of a session: either nothing, and no branch of what is looked at leads to a command that
-- the filter asks for, or the session with just the branches that lead to one.
abbrev pub IsShown : TreeFilter → TreeSession → List TreeSession → Type 0
IsShown f s [] = (b : List NodeInfo) → LeadsOf f (scope f s.nodes) b → ⊥
IsShown f s (t ∷ []) =
    (t.id ≡ s.id)
    × (t.backend ≡ s.backend)
    × ((b : List NodeInfo) → BranchOf t.nodes b ↔ LeadsOf f (scope f s.nodes) b)
IsShown f s (t ∷ u ∷ ts) = ⊥

keep_session-IsShown : (f : TreeFilter) (s : TreeSession) → IsShown f s (keep_session f s)
unfolding keep_session
keep_session-IsShown f s =
    shown (prune_nodes f (scope f s.nodes)) (λ b. prune_nodes-LeadsOf f (scope f s.nodes) b)
  where
    shown :
        (ns : List TreeNode)
        → ((b : List NodeInfo) → BranchOf ns b ↔ LeadsOf f (scope f s.nodes) b)
        → IsShown f s (or_dropped s ns)
    shown [] k = λ b h. (k b).1 h
    shown (n ∷ ns) k = (refl, refl, k)

-- What is shown of some sessions, one after another.
abbrev pub Answers : TreeFilter → List TreeSession → List TreeSession → Type 0
Answers f [] ts = ts ≡ []
Answers f (s ∷ ss) ts =
    (us : List TreeSession) × (vs : List TreeSession) × (ts ≡ us ++ vs)
    × IsShown f s us
    × Answers f ss vs

-- Of each session in turn, the filter shows either nothing, and then no branch of what is looked at
-- leads to a command that the filter asks for, or the session with just those branches that lead to
-- one: each command asked for with all that stand above it, and no other.
pub apply-Answers : (f : TreeFilter) (ss : List TreeSession) → Answers f ss (apply f ss)
unfolding apply
apply-Answers f [] = refl
apply-Answers f (s ∷ ss) =
    (keep_session f s, apply f ss, refl, keep_session-IsShown f s, apply-Answers f ss)
