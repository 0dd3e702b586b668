-- ===== src/Daemon/Tracker/Defs/Records.antt =====
-- internal/daemon/tracker.go: the records of commands, their events, and what the pod keeps of them.
-- Records are shared by pointer: a record stands in a store under a number.
use vibepod.Base.{ℕ, ◌-◌, Bool, true, false, Option, none, some, List, [], ◌∷◌, ◌++◌}
use vibepod.Base.{Text, codes, if◌then◌else◌, nat_eq, ltb, length, drop}
use vibepod.Base.Dict.{Dict, lookup, insert}
use vibepod.Event.{Event}

-- `execRec`; a zero `End` and a nil `Code` are none.
pub record ExecRec : Type 0 where
  pub pid : ℕ
  pub ppid : ℕ
  pub argv : List Text
  pub cwd : Text
  pub target : Text
  pub session : Text
  pub start : ℕ
  pub end_time : Option ℕ
  pub code : Option ℕ
  pub exec_id : Text

-- `done`
unfoldable pub is_some : Option ℕ → Bool
is_some none = false
is_some (some t) = true

unfoldable pub is_done : ExecRec → Bool
unfolding is_some
is_done r = is_some r.end_time

-- `elapsedMS`
unfoldable pub end_or : ℕ → Option ℕ → ℕ
end_or now none = now
end_or now (some t) = t

unfoldable pub elapsed_ms : ℕ → ExecRec → ℕ
unfolding end_or
elapsed_ms now r = end_or now r.end_time - r.start

-- `maxExecs`
unfoldable pub max_execs : ℕ
max_execs = 4000

-- What a pod's state keeps for this; `published` is what the bus was given, in its order.
pub record Tracker : Type 0 where
  pub name : Text
  pub next : ℕ
  pub store : Dict ℕ ExecRec
  pub execs : Dict ℕ ℕ
  pub history : List ℕ
  pub published : List Event

unfoldable pub new_tracker : Text → Tracker
new_tracker name = record {
  name = name;
  next = 0;
  store = [];
  execs = [];
  history = [];
  published = [];
}

-- `retire`
unfoldable pub retire : ℕ → Tracker → Tracker
retire id t =
    let all = t.history ++ id ∷ [] in
    record t {
      history = if ltb max_execs (length all) then drop (length all - max_execs) all else all;
    }

-- The event of `publishExit`.
unfoldable pub exit_event : ℕ → Tracker → ExecRec → Text → Event
exit_event now t r detail = record {
  v = 0;
  kind = codes "exit";
  time = [];
  pod = t.name;
  pid = r.pid;
  ppid = 0;
  argv = r.argv;
  cwd = [];
  target = r.target;
  code = r.code;
  elapsed_ms = elapsed_ms now r;
  session = r.session;
  detail = detail;
}

unfoldable pub publish_exit : ℕ → ExecRec → Text → Tracker → Tracker
publish_exit now r detail t = record t { published = t.published ++ exit_event now t r detail ∷ [] }

-- The event of `recordExec`.
unfoldable pub exec_event : Tracker → ExecRec → Event
exec_event t r = record {
  v = 0;
  kind = codes "exec";
  time = [];
  pod = t.name;
  pid = r.pid;
  ppid = r.ppid;
  argv = r.argv;
  cwd = r.cwd;
  target = r.target;
  code = none;
  elapsed_ms = 0;
  session = r.session;
  detail = [];
}

unfoldable pub with_rec : Dict ℕ ExecRec → Option ℕ → Option (ℕ × ExecRec)
with_rec store none = none
with_rec store (some id) = elim (lookup id store) [ none ↦ none | some r ↦ some (id, r) ]

-- The record that a pid is tracked by.
unfoldable pub tracked : Tracker → ℕ → Option (ℕ × ExecRec)
unfolding with_rec
tracked t pid = with_rec t.store (lookup pid t.execs)

unfoldable pub set_rec : ℕ → ExecRec → Tracker → Tracker
set_rec id r t = record t { store = insert id r t.store }
