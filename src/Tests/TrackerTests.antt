-- ===== src/Tests/TrackerTests.antt =====
-- internal/daemon/tracker.go at concrete inputs.
use vibepod.Base.{ℕ, true, false, none, some, List, [], ◌∷◌, ◌≡◌, refl, arith}
use vibepod.Base.{codes, ◌==◌, text_eq, nat_eq, contains}
use vibepod.Base.Dict.{lookup, insert, erase}
use vibepod.Base.Sort.{sort_by}
use vibepod.Daemon.Tracker.{
  Command, ExecRec, begun_at, Tracker, new_tracker, tracked, with_rec, Op, begin, finish, watch,
  apply_op, apply_ops, record_exec, track, end_old, retire, set_rec, publish_exit, finish_exec,
  finish_found, finish_rec, finished, watch_round, watch_loop, see, drop_rec, publish_exits,
  is_done, is_some, max_execs, root_nodes, with_child, node_of, IsTracked, apply_ops-IsTracked,
  new_tracker-IsTracked, tracked-watch_round, root_nodes_chain,
}

abbrev shell : Command
shell = record {
  pid = 7;
  ppid = 1;
  argv = codes "sh" ∷ [];
  cwd = codes "/w";
  target = codes "pod";
  session = codes "1";
}

abbrev make : Command
make = record shell { pid = 8; ppid = 7; argv = codes "make" ∷ [] }

abbrev cc1 : Command
cc1 = record shell { pid = 9; ppid = 8; argv = codes "cc1" ∷ [] }

abbrev ops : List (ℕ × Op)
ops =
    (3, begin shell)
    ∷ (4, begin make)
    ∷ (5, begin shell)
    ∷ (6, watch (λ pid. pid == 7) (7 ∷ 8 ∷ []))
    ∷ (7, finish 1 0)
    ∷ []

-- The command that was found gone and is then finished stands in the history twice.
history_run : (apply_ops ops (new_tracker (codes "p"))).history ≡ 0 ∷ 1 ∷ 1 ∷ []
unfolding apply_ops apply_op record_exec track end_old retire set_rec publish_exit tracked with_rec
    finish_exec finish_found finish_rec watch_round watch_loop see drop_rec publish_exits is_done
    is_some lookup insert erase begun_at new_tracker max_execs nat_eq finished sort_by
history_run = refl

apply_ops-IsTracked_example : IsTracked 0 (apply_ops ops (new_tracker (codes "p")))
apply_ops-IsTracked_example =
    apply_ops-IsTracked ops (new_tracker (codes "p")) (new_tracker-IsTracked (codes "p"))

abbrev one : Tracker
one = apply_ops ((3, begin shell) ∷ []) (new_tracker (codes "p"))

one-tracked : (k : ℕ) (x : ℕ × ExecRec) → tracked one k ≡ some x → contains (7 ∷ []) k ≡ true
unfolding apply_ops apply_op record_exec track end_old tracked with_rec lookup insert begun_at
    new_tracker
one-tracked k x e = ground arith

tracked-watch_round_run : tracked (watch_round (λ pid. pid == 8) 9 (7 ∷ []) one) 7 ≡ none
unfolding nat_eq
tracked-watch_round_run =
    tracked-watch_round (λ pid. pid == 8) 9 (7 ∷ []) one
      (apply_ops-IsTracked ((3, begin shell) ∷ []) (new_tracker (codes "p"))
        (new_tracker-IsTracked (codes "p")))
      one-tracked 7

root_nodes_chain_run :
    root_nodes 9 false (begun_at 1 shell ∷ begun_at 2 make ∷ begun_at 3 cc1 ∷ [])
    ≡ with_child (node_of 9 (begun_at 1 shell)) (node_of 9 (begun_at 2 make)) ∷ []
unfolding begun_at
root_nodes_chain_run =
    root_nodes_chain 9 (begun_at 1 shell) (begun_at 2 make) (begun_at 3 cc1) refl refl refl
      (omega arith) (omega arith) (omega arith) refl refl (omega arith) (omega arith) (omega arith)
