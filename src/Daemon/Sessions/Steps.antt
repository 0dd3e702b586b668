-- ===== src/Daemon/Sessions/Steps.antt =====
-- internal/daemon/session.go: the size of a session's terminals, its start and end, and the steps that its
-- goroutines make.
use vibepod.Base.{ℕ, Bool, false, true, ◌||◌, Option, none, some, List, [], ◌∷◌}
use vibepod.Base.{Text, ◌==◌, if◌then◌else◌, nat_eq}
use vibepod.Base.Dict.{Dict, lookup, insert}
use vibepod.Daemon.Sessions.Defs.{
  Shell, Session, LiveSession, opened, is_none, switch_to, go_on, read_chunk, pass_on, pump_end,
  attach, detach,
}

-- `resize`, over the shells of the table.
unfoldable pub resize_one : ℕ → ℕ → ℕ → Option Shell → Dict ℕ Shell → Dict ℕ Shell
resize_one rows cols i none hs = hs
resize_one rows cols i (some sh) hs = insert i (record sh { rows = rows; cols = cols }) hs

unfoldable pub resize_each : ℕ → ℕ → Dict Text ℕ → Dict ℕ Shell → Dict ℕ Shell
unfolding resize_one
resize_each rows cols [] hs = hs
resize_each rows cols ((b, i) ∷ shells) hs =
    resize_each rows cols shells (resize_one rows cols i (lookup i hs) hs)

unfoldable pub resize : ℕ → ℕ → Session → Session
unfolding resize_each
resize rows cols sess = if rows == 0 || cols == 0 then sess else record sess {
  rows = rows;
  cols = cols;
  handles = resize_each rows cols sess.shells sess.handles;
}

-- `close`
unfoldable pub close : Session → Session
close sess = record sess { shells = []; cur = none; primary = none }

-- The session of `startSession`, whose first shell has been opened.
unfoldable pub started : Text → Text → ℕ → ℕ → Session
unfolding opened
started id backend rows cols = opened backend true rows cols (record {
  id = id;
  next = 0;
  handles = [];
  shells = [];
  primary = none;
  cur = none;
  clients = [];
  rows = rows;
  cols = cols;
  ended = false;
  code = none;
})

unfoldable pub newly_started : Text → Text → ℕ → ℕ → LiveSession
unfolding started
newly_started id backend rows cols = record {
  sess = started id backend rows cols;
  tasks = [];
  chunks = [];
  recorded = none;
}

-- What a goroutine does next. The first number of `switch`, `end_pump` and `join_client` is a goroutine that has
-- nothing to do yet; the other goroutine is a shell's `pump`, under the number of the shell.
pub data Step : Type 0 where
  switch : ℕ → Text → Step
  proceed : Bool → ℕ → Step
  read : ℕ → Text → Step
  pass : (ℕ → Bool) → ℕ → Step
  end_pump : ℕ → ℕ → ℕ → Step
  join_client : ℕ → ℕ → Bool → Step
  leave : ℕ → Step
  set_size : ℕ → ℕ → Step

unfoldable pub session_step : Step → LiveSession → LiveSession
unfolding switch_to go_on read_chunk pass_on pump_end attach detach resize is_none
session_step (switch t backend) w = if is_none (lookup t w.tasks) then switch_to t backend w else w
session_step (proceed works t) w = go_on works t (lookup t w.tasks) w
session_step (read i chunk) w = read_chunk i chunk (lookup i w.sess.handles) w
session_step (pass works i) w = pass_on works i (lookup i w.chunks) w
session_step (end_pump t i code) w =
    if is_none (lookup t w.tasks) then pump_end t i code (lookup i w.sess.handles) w else w
session_step (join_client t k framed) w =
    if is_none (lookup t w.tasks) then attach t k framed w else w
session_step (leave k) w = detach k w
session_step (set_size rows cols) w = record w { sess = resize rows cols w.sess }

unfoldable pub session_steps : List Step → LiveSession → LiveSession
unfolding session_step
session_steps [] w = w
session_steps (s ∷ steps) w = session_steps steps (session_step s w)
