-- ===== src/Daemon/Sessions/Defs/State.antt =====
-- internal/daemon/session.go: the session with its shells and terminals, and what is written to a
-- terminal. Shells are shared by pointer: a shell stands in a store under a number. What is written is
-- gathered in `out`; `works` says for which terminals a write succeeds.
use vibepod.Base.{ℕ, suc, Bool, true, false, Option, none, some, List, [], ◌∷◌, ◌++◌}
use vibepod.Base.{Text, codes, ◌==◌, if◌then◌else◌, nat_eq, text_eq}
use vibepod.Base.Dict.{Dict, lookup, insert}
use vibepod.Ring.{Ring, new_ring}

-- `shellHandle`; `running` is that its pump has not ended.
pub record Shell : Type 0 where
  pub backend : Text
  pub ring : Ring
  pub running : Bool
  pub rows : ℕ
  pub cols : ℕ

-- `attachment`; `stopped` is what `done` does.
pub record Client : Type 0 where
  pub framed : Bool
  pub out : Text
  pub stopped : Bool

-- `session`; `code` is what waits in its channel `done`.
pub record Session : Type 0 where
  pub id : Text
  pub next : ℕ
  pub handles : Dict ℕ Shell
  pub shells : Dict Text ℕ
  pub primary : Option ℕ
  pub cur : Option ℕ
  pub clients : Dict ℕ Client
  pub rows : ℕ
  pub cols : ℕ
  pub ended : Bool
  pub code : Option ℕ

-- `route.Pod`
abbrev pub pod_name : Text
pod_name = codes "pod"

-- `scrollback`
unfoldable pub scrollback : ℕ
scrollback = 262144

-- `frameMark`
unfoldable pub frame_mark : Text → Text
frame_mark kv = 0x1b ∷ (codes "]7717;" ++ (kv ++ 0x07 ∷ []))

-- What `show` writes.
unfoldable pub show_text : Bool → Text → Text → Text → Text
unfolding frame_mark
show_text framed backend note snap =
    if framed
    then frame_mark (codes "backend=" ++ backend) ++ (snap ++ frame_mark (codes "replayed"))
    else note ++ snap

unfoldable pub write_out : Text → Client → Client
write_out b c = record c { out = c.out ++ b }

-- A write to a terminal, which is stopped if the write fails; with nothing to write, none is made.
unfoldable pub write_or_stop : Bool → Text → Client → Client
unfolding write_out
write_or_stop works b c =
    if b == [] then c else if works then write_out b c else record c { stopped = true }

-- Every terminal, by its number.
unfoldable pub each_client : (ℕ → Client → Client) → Dict ℕ Client → Dict ℕ Client
each_client f [] = []
each_client f ((k, c) ∷ cs) = (k, f k c) ∷ each_client f cs

unfoldable pub client_ids : Dict ℕ Client → List ℕ
client_ids [] = []
client_ids ((k, c) ∷ cs) = k ∷ client_ids cs

-- The last section of `openShell`: a shell that was started in the size that the session had then is
-- put under its backend. The first is shown, too.
unfoldable pub opened : Text → Bool → ℕ → ℕ → Session → Session
opened backend first rows cols sess = record sess {
  next = suc sess.next;
  handles =
      insert sess.next
        (record {
          backend = backend;
          ring = new_ring scrollback;
          running = true;
          rows = rows;
          cols = cols;
        })
        sess.handles;
  shells = insert backend sess.next sess.shells;
  primary = if first then some sess.next else sess.primary;
  cur = if first then some sess.next else sess.cur;
}

-- `backendOfShell`; the session's `cur` may be nil.
unfoldable pub backend_of_handle : Option Shell → Text
backend_of_handle none = []
backend_of_handle (some sh) = sh.backend

unfoldable pub shell_at : Session → Option ℕ → Option Shell
shell_at sess none = none
shell_at sess (some i) = lookup i sess.handles

unfoldable pub backend_of_shell : Session → Text
unfolding shell_at backend_of_handle
backend_of_shell sess = backend_of_handle (shell_at sess sess.cur)

-- `interactive`
unfoldable pub interactive : Session → Bool
interactive sess = elim sess.primary [ none ↦ false | some i ↦ true ]

-- The note of `switchTo`.
unfoldable pub dim : Text → Text
dim s =
    0x1b ∷ (codes "[2m[vibepod: " ++ (s ++ (codes "]" ++ 0x1b ∷ (codes "[0m" ++ 0x0d ∷ 0x0a ∷ []))))

unfoldable pub banner : Text → Text → Text
unfolding dim
banner backend id =
    (0x0d ∷ 0x0a ∷ dim (codes "this terminal is now on " ++ backend))
    ++ (if backend == pod_name
        then []
        else dim (
            codes "vp lives in the pod, not there; `vp use pod -s "
            ++ (id ++ codes "` from another terminal, or b in the cockpit, moves it back")))

-- What a goroutine has yet to do once it has released the session's lock.
pub data Task : Type 0 where
  -- `switchTo`, which has found no shell on the machine: `openShell` begins.
  opening : Text → Task
  -- `openShell`, which has read the session's size: the shell is started.
  starting : Text → ℕ → ℕ → Task
  -- `switchTo`, which has its shell.
  turning : ℕ → Task
  -- The terminals to write to, what is written to a framed one and to another, and whether one that
  -- cannot be written to is stopped.
  writing : List ℕ → (Bool → Text) → Bool → Task
  -- The end of `pump`: the pod records where the session is, and the terminals are told.
  noting : Text → List ℕ → (Bool → Text) → Task
  -- The end of `pump` of the first shell, which waits for its exit code; then the terminals are stopped.
  closing : ℕ → List ℕ → Task
  stopping : List ℕ → Task

-- A session, what its goroutines have yet to do, the chunk that a shell's `pump` has put into the ring and
-- not yet handed on, and what the pod has recorded as the session's backend.
pub record LiveSession : Type 0 where
  pub sess : Session
  pub tasks : Dict ℕ Task
  pub chunks : Dict ℕ Text
  pub recorded : Option Text
