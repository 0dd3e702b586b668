-- ===== src/Daemon/Sessions/Defs.antt =====
-- internal/daemon/session.go, in the steps that other goroutines can come between: what is done under one
-- hold of the session's lock is one step, and so are a write to a ring, which has a lock of its own, and
-- a write to a terminal.
-- Shells are shared by pointer: a shell stands in a store under a number.
-- What is written to a terminal is gathered in `out`; whether a write succeeds is an argument.
mod State
unfoldable pub use State.*
use vibepod.Base.{ℕ, Bool, true, false, not, ◌&&◌, ◌||◌, Option, none, some, List, [], ◌∷◌, ◌++◌}
use vibepod.Base.{Text, codes, ◌==◌, if◌then◌else◌, nat_eq, text_eq}
use vibepod.Base.Dict.{Dict, lookup, insert, erase}
use vibepod.Ring.{Ring, write, snapshot}

unfoldable pub is_none {ℓ} : {A : Type ℓ} → Option A → Bool
is_none none = true
is_none (some a) = false

unfoldable pub with_task : ℕ → Task → LiveSession → LiveSession
with_task t task w = record w { tasks = insert t task w.tasks }

unfoldable pub without_task : ℕ → LiveSession → LiveSession
without_task t w = record w { tasks = erase t w.tasks }

unfoldable pub shows_on : Option Shell → Text → Bool
shows_on none backend = false
shows_on (some sh) backend = sh.backend == backend

-- The first section of `switchTo`, by a goroutine `t`.
unfoldable pub found : Text → Option ℕ → Task
found backend none = opening backend
found backend (some i) = turning i

unfoldable pub switch_to : ℕ → Text → LiveSession → LiveSession
unfolding with_task shows_on shell_at found
switch_to t backend w =
    if shows_on (shell_at w.sess w.sess.cur) backend
    then w
    else with_task t (found backend (lookup backend w.sess.shells)) w

-- `openShell`, which works or does not, and its last section.
unfoldable pub open_shell : Bool → ℕ → Text → ℕ → ℕ → LiveSession → LiveSession
unfolding with_task without_task opened
open_shell works t backend rows cols w =
    if works
    then with_task t (turning w.sess.next)
        (record w { sess = opened backend false rows cols w.sess })
    else without_task t w

-- The second section of `switchTo`: the shell is shown, and is to be drawn on the terminals there are.
unfoldable pub turn_to : ℕ → ℕ → Option Shell → LiveSession → LiveSession
unfolding with_task without_task client_ids show_text banner
turn_to t i none w = without_task t w
turn_to t i (some sh) w =
    let draw : Bool → Text =
      λ framed. show_text framed sh.backend (banner sh.backend w.sess.id) (snapshot sh.ring) in
    with_task t (writing (client_ids w.sess.clients) draw true)
      (record w { sess = record w.sess { cur = some i } })

-- One write to the terminal `k`, outside the lock.
unfoldable pub shown_to : Bool → Bool → (Bool → Text) → Client → Client
unfolding write_or_stop
shown_to works stops text c = if works || stops then write_or_stop works (text c.framed) c else c

unfoldable pub at_client : (Client → Client) → ℕ → Option Client → Dict ℕ Client → Dict ℕ Client
at_client f k none cs = cs
at_client f k (some c) cs = insert k (f c) cs

unfoldable pub with_client : (Client → Client) → ℕ → LiveSession → LiveSession
unfolding at_client
with_client f k w = record w {
  sess = record w.sess { clients = at_client f k (lookup k w.sess.clients) w.sess.clients };
}

unfoldable pub stop_client : Client → Client
stop_client c = record c { stopped = true }

-- The next thing that the goroutine `t` does; `works` is whether a call out of the session works.
unfoldable pub go_on : Bool → ℕ → Option Task → LiveSession → LiveSession
unfolding with_task without_task open_shell turn_to with_client shown_to stop_client
go_on works t none w = w
go_on works t (some (opening backend)) w = with_task t (starting backend w.sess.rows w.sess.cols) w
go_on works t (some (starting backend rows cols)) w = open_shell works t backend rows cols w
go_on works t (some (turning i)) w = turn_to t i (lookup i w.sess.handles) w
go_on works t (some (writing [] text stops)) w = without_task t w
go_on works t (some (writing (k ∷ ks) text stops)) w =
    with_client (shown_to works stops text) k (with_task t (writing ks text stops) w)
go_on works t (some (noting fallback ks text)) w =
    with_task t (writing ks text false) (record w { recorded = some fallback })
go_on works t (some (closing code ks)) w = with_task t (stopping ks) (record w {
  sess = record w.sess {
    ended = true;
    code = elim w.sess.code [ none ↦ some code | some c ↦ some c ];
  };
})
go_on works t (some (stopping [])) w = without_task t w
go_on works t (some (stopping (k ∷ ks))) w = with_client stop_client k (with_task t (stopping ks) w)

unfoldable pub same_id : Option ℕ → ℕ → Bool
same_id none i = false
same_id (some j) i = j == i

-- A round of the loop of `pump`, of the shell `i`: a chunk is read and put into the ring.
unfoldable pub read_chunk : ℕ → Text → Option Shell → LiveSession → LiveSession
unfolding is_none
read_chunk i chunk none w = w
read_chunk i chunk (some sh) w =
    if sh.running && is_none (lookup i w.chunks)
    then record w {
      sess = record w.sess {
        handles = insert i (record sh { ring = write sh.ring chunk }) w.sess.handles;
      };
      chunks = insert i chunk w.chunks;
    }
    else w

unfoldable pub chunk_out : (ℕ → Bool) → Text → ℕ → Client → Client
unfolding write_out stop_client
chunk_out works chunk k c = if works k then write_out chunk c else stop_client c

-- The section of the round: the chunk goes to the terminals, if the shell is the one shown.
unfoldable pub pass_on : (ℕ → Bool) → ℕ → Option Text → LiveSession → LiveSession
unfolding each_client same_id chunk_out
pass_on works i none w = w
pass_on works i (some chunk) w = record w {
  sess = record w.sess {
    clients =
        if same_id w.sess.cur i
        then each_client (chunk_out works chunk) w.sess.clients
        else w.sess.clients;
  };
  chunks = erase i w.chunks;
}

-- What the terminals are told when a shell other than the first has ended.
unfoldable pub end_note : Text → Text → Text
unfolding dim
end_note backend fallback =
    0x0d ∷ 0x0a ∷ dim (codes "the shell on " ++ (backend ++ (codes " ended; back on " ++ fallback)))

unfoldable pub told : Text → Text → Text → Bool → Text
unfolding show_text end_note
told backend fallback back framed =
    if framed
    then show_text true (fallback ++ (codes ";ended=" ++ backend)) [] back
    else end_note backend fallback

unfoldable pub snapshot_of : Option Shell → Text
snapshot_of none = []
snapshot_of (some sh) = snapshot sh.ring

unfoldable pub fallback_of : Option Shell → Text
fallback_of none = pod_name
fallback_of (some sh) = sh.backend

-- The section at the end of `pump`: the first shell is to end the session; another goes away, and the
-- session falls back to the first if it was shown.
unfoldable pub end_first : ℕ → ℕ → LiveSession → LiveSession
unfolding with_task client_ids
end_first t code w = with_task t (closing code (client_ids w.sess.clients)) w

unfoldable pub end_other : ℕ → ℕ → Shell → LiveSession → LiveSession
unfolding with_task client_ids told same_id snapshot_of fallback_of shell_at
end_other t i sh w =
    let first = shell_at w.sess w.sess.primary in
    with_task t
      (noting (fallback_of first) (client_ids w.sess.clients)
        (told sh.backend (fallback_of first) (snapshot_of first)))
      (record w {
        sess = record w.sess {
          shells = erase sh.backend w.sess.shells;
          cur = if same_id w.sess.cur i then w.sess.primary else w.sess.cur;
        };
      })

unfoldable pub stopped_shell : ℕ → Shell → LiveSession → LiveSession
stopped_shell i sh w = record w {
  sess = record w.sess { handles = insert i (record sh { running = false }) w.sess.handles };
}

unfoldable pub end_shell : ℕ → ℕ → ℕ → Shell → LiveSession → LiveSession
unfolding end_first end_other stopped_shell same_id
end_shell t i code sh w =
    if same_id w.sess.primary i
    then end_first t code (stopped_shell i sh w)
    else end_other t i sh (stopped_shell i sh w)

unfoldable pub pump_end : ℕ → ℕ → ℕ → Option Shell → LiveSession → LiveSession
unfolding end_shell is_none
pump_end t i code none w = w
pump_end t i code (some sh) w =
    if sh.running && is_none (lookup i w.chunks) then end_shell t i code sh w else w

-- The section of `attach`, for a terminal `k`, which then is to be shown what there is.
unfoldable pub attach : ℕ → ℕ → Bool → LiveSession → LiveSession
unfolding with_task show_text snapshot_of backend_of_shell shell_at
attach t k framed w =
    let new : Client = record { framed = framed; out = []; stopped = false } in
    let text : Bool → Text =
      λ f. show_text f (backend_of_shell w.sess) [] (snapshot_of (shell_at w.sess w.sess.cur)) in
    with_task t (writing (k ∷ []) text false)
      (record w { sess = record w.sess { clients = insert k new w.sess.clients } })

-- The end of `attach`.
unfoldable pub detach : ℕ → LiveSession → LiveSession
detach k w = record w { sess = record w.sess { clients = erase k w.sess.clients } }
