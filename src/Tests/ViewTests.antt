-- ===== src/Tests/ViewTests.antt =====
-- cmd/vibepod/view.go at a concrete tree.
use vibepod.Base.{
  ℕ, true, false, none, some, Option, List, [], ◌∷◌, ◌≡◌, refl, codes, text_eq, nat_eq,
}
use vibepod.Strings.{has_prefix}
use vibepod.Daemon.Tracker.{NodeInfo, node, nil, cons, TreeSession}
use vibepod.View.Filter.{
  TreeFilter, no_failure, match_node, is_nil, prune, find_under, or_found, find, prune_nodes,
  found_only, scope, or_dropped, keep_session, apply, is_since, reordered, reorder, Answers,
  apply-Answers,
}

abbrev command : ℕ → Option ℕ → NodeInfo
command pid code = record {
  pid = pid;
  argv = codes "make" ∷ [];
  target = codes "pod";
  state = codes "exited";
  elapsed = 5;
  code = code;
  session = codes "s1";
  started = 100;
  exec_id = [];
}

abbrev sessions : List TreeSession
sessions =
    record {
      id = codes "s1";
      backend = codes "pod";
      nodes =
          node (command 1 (some 0))
            (cons (node (command 2 (some 1)) nil) (cons (node (command 3 none) nil) nil))
          ∷ node (command 4 (some 0)) nil
          ∷ [];
    }
    ∷ []

abbrev failed : TreeFilter
failed = record { running = false; failed = true; after = 0; root = 0 }

failed_run :
    apply failed sessions
    ≡ record {
      id = codes "s1";
      backend = codes "pod";
      nodes = node (command 1 (some 0)) (cons (node (command 2 (some 1)) nil) nil) ∷ [];
    }
      ∷ []
unfolding apply keep_session or_dropped prune_nodes scope prune match_node no_failure is_nil nat_eq
failed_run = refl

root_run : apply (record failed { root = 3 }) sessions ≡ []
unfolding apply keep_session or_dropped prune_nodes scope found_only find find_under or_found prune
    match_node no_failure is_nil nat_eq
root_run = refl

reorder_run :
    reorder (codes "work" ∷ codes "--since" ∷ codes "10m" ∷ codes "x" ∷ codes "-f" ∷ [])
    ≡ codes "--since" ∷ codes "10m" ∷ codes "-f" ∷ codes "work" ∷ codes "x" ∷ []
unfolding reorder reordered is_since has_prefix text_eq nat_eq
reorder_run = refl

apply-Answers_example : Answers failed sessions (apply failed sessions)
apply-Answers_example = apply-Answers failed sessions
