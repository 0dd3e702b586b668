-- ===== src/Daemon/Tracker/Defs.antt =====
-- internal/daemon/tracker.go. Records are shared by pointer: a record stands in a store under a
-- number, and the map by pid and the history hold numbers. What is published is a list of events.
mod Records
unfoldable pub use Records.*
use vibepod.Base.{
  ℕ, suc, ◌-◌, Bool, true, false, not, ◌&&◌, Option, none, some, List, [], ◌∷◌, ◌++◌,
}
use vibepod.Base.{Text, codes, ◌==◌, if◌then◌else◌, nat_eq, ltb, length, drop}
use vibepod.Base.Dict.{Dict, lookup, insert, erase}
use vibepod.Base.Sort.{sort_by}
use vibepod.Event.{Event}

-- What `recordExec` does with the record that the pid was tracked by.
unfoldable pub end_old : ℕ → ℕ → Option (ℕ × ExecRec) → Tracker → Tracker
unfolding retire set_rec publish_exit is_done
end_old now pid none t = t
end_old now pid (some (id, old)) t =
    if not (pid == 0) && not (is_done old)
    then publish_exit now (record old { end_time = some now }) (codes "replaced")
        (retire id (set_rec id (record old { end_time = some now }) t))
    else t

-- A new record is put in the store and, with a pid, tracked by it.
unfoldable pub track : ExecRec → Tracker → Tracker
track r t = record t {
  next = suc t.next;
  store = insert t.next r t.store;
  execs = if r.pid == 0 then t.execs else insert r.pid t.next t.execs;
}

-- `recordExec`. The event of the replaced record goes out before the one of the new.
unfoldable pub record_exec : ℕ → ExecRec → Tracker → Tracker
unfolding track
record_exec now r t =
    let t' = track r (end_old now r.pid (tracked t r.pid) t) in
    record t' { published = t'.published ++ exec_event t r ∷ [] }

-- `finishExec`, for the record under a number.
unfoldable pub finished : ℕ → ℕ → ExecRec → ExecRec
finished now code r = record r { end_time = some (end_or now r.end_time); code = some code }

unfoldable pub finish_rec : ℕ → ℕ → ExecRec → Tracker → Tracker
unfolding retire set_rec publish_exit
finish_rec now id r t =
    let t' = set_rec id r t in
    publish_exit now r []
      (retire id (record t' { execs = if r.pid == 0 then t'.execs else erase r.pid t'.execs }))

unfoldable pub finish_found : ℕ → ℕ → ℕ → Option ExecRec → Tracker → Tracker
unfolding finish_rec finished
finish_found now id code none t = t
finish_found now id code (some r) t = finish_rec now id (finished now code r) t

unfoldable pub finish_exec : ℕ → ℕ → ℕ → Tracker → Tracker
unfolding finish_found
finish_exec now id code t = finish_found now id code (lookup id t.store) t

-- What `watchExits` does with a record whose process is gone.
unfoldable pub drop_rec : ℕ → ℕ → ℕ → ExecRec → Tracker → Tracker
unfolding set_rec retire
drop_rec now pid id r t =
    let t' = set_rec id (record r { end_time = some now }) t in
    retire id (record t' { execs = erase pid t'.execs })

-- What a round of `watchExits` does with a tracked record.
unfoldable pub see :
    (ℕ → Bool) → ℕ → ℕ → Option (ℕ × ExecRec) → Tracker × List ExecRec → Tracker × List ExecRec
unfolding drop_rec is_done
see alive now pid none (t, gone) = (t, gone)
see alive now pid (some (id, r)) (t, gone) =
    if not (is_done r) && not (alive r.pid)
    then (drop_rec now pid id r t, gone ++ (record r { end_time = some now }) ∷ [])
    else (t, gone)

-- The loop of a round, over the pids in the order in which the map is walked.
unfoldable pub watch_loop :
    (ℕ → Bool) → ℕ → List ℕ → Tracker × List ExecRec → Tracker × List ExecRec
unfolding see
watch_loop alive now [] x = x
watch_loop alive now (pid ∷ rest) x =
    watch_loop alive now rest (see alive now pid (tracked x.0 pid) x)

unfoldable pub publish_exits : ℕ → List ExecRec → Tracker → Tracker
unfolding publish_exit
publish_exits now [] t = t
publish_exits now (r ∷ rs) t = publish_exits now rs (publish_exit now r [] t)

unfoldable pub earlier : ExecRec → ExecRec → Bool
earlier a b = ltb a.start b.start

-- A round of `watchExits`; the exits go out in the order in which the commands began.
unfoldable pub watch_round : (ℕ → Bool) → ℕ → List ℕ → Tracker → Tracker
unfolding watch_loop publish_exits
watch_round alive now pids t =
    let (t', gone) = watch_loop alive now pids (t, []) in
    publish_exits now (sort_by earlier gone) t'

-- `setExitCode`
unfoldable pub note_code : ℕ → Option (ℕ × ExecRec) → Tracker → Tracker
unfolding set_rec
note_code code none t = t
note_code code (some (id, r)) t = set_rec id (record r { code = some code }) t

unfoldable pub set_exit_code : ℕ → ℕ → Tracker → Tracker
unfolding note_code
set_exit_code pid code t = note_code code (tracked t pid) t

-- A record as it is made for a command that begins.
pub record Command : Type 0 where
  pub pid : ℕ
  pub ppid : ℕ
  pub argv : List Text
  pub cwd : Text
  pub target : Text
  pub session : Text

unfoldable pub begun_at : ℕ → Command → ExecRec
begun_at now c = record {
  pid = c.pid;
  ppid = c.ppid;
  argv = c.argv;
  cwd = c.cwd;
  target = c.target;
  session = c.session;
  start = now;
  end_time = none;
  code = none;
  exec_id = [];
}

-- What happens to a tracker, at a time.
pub data Op : Type 0 where
  begin : Command → Op
  finish : ℕ → ℕ → Op
  watch : (ℕ → Bool) → List ℕ → Op
  exit_code : ℕ → ℕ → Op

unfoldable pub apply_op : ℕ → Op → Tracker → Tracker
unfolding record_exec finish_exec watch_round set_exit_code
apply_op now (begin c) t = record_exec now (begun_at now c) t
apply_op now (finish id code) t = finish_exec now id code t
apply_op now (watch alive pids) t = watch_round alive now pids t
apply_op now (exit_code pid code) t = set_exit_code pid code t

unfoldable pub apply_ops : List (ℕ × Op) → Tracker → Tracker
unfolding apply_op
apply_ops [] t = t
apply_ops ((now, op) ∷ ops) t = apply_ops ops (apply_op now op t)
