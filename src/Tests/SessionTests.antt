-- ===== src/Tests/SessionTests.antt =====
-- internal/daemon/session.go, and the environment of a session of daemon.go, at concrete inputs.
use vibepod.Base.{true, some, List, [], ◌∷◌, ◌≡◌, refl}
use vibepod.Base.{Text, codes, text_eq, nat_eq}
use vibepod.Base.Dict.{lookup, insert, erase}
use vibepod.Strings.{has_prefix, trim_prefix}
use vibepod.Route.{pod}
use vibepod.Daemon.SessionEnv.{
  session_env, session_vars, real_shell, pod_path, shell_or, is_real, values_of, value_or,
  values_of-session_env,
}
use vibepod.Daemon.Sessions.{
  LiveSession, Shell, scrollback, attach, chunks_read, chunk_read, read_chunk, pass_on,
  without_task, with_client, at_client, opened, started, newly_started, Step, switch, proceed, read,
  pass, end_pump, join_client, leave, session_step, session_steps, switch_to, shows_on, shell_at,
  is_none, found, with_task, go_on, open_shell, turn_to, client_ids,
}
use vibepod.Ring.{new_ring}

abbrev steps : List Step
steps =
    join_client 0 0 true
    ∷ switch 1 (codes "gpu")
    ∷ proceed true 1
    ∷ proceed true 1
    ∷ proceed true 0
    ∷ proceed true 1
    ∷ read 1 (codes "hi")
    ∷ proceed true 1
    ∷ pass (λ k. true) 1
    ∷ end_pump 2 1 0
    ∷ leave 0
    ∷ []

abbrev first : LiveSession
first = newly_started (codes "1") (codes "pod") 24 80

abbrev switching : List Step
switching = switch 1 (codes "gpu") ∷ proceed true 1 ∷ proceed true 1 ∷ proceed true 1 ∷ []

-- A session that has moved shows the new shell.
moved_run : (session_steps switching first).sess.cur ≡ some 1
unfolding session_steps session_step newly_started started opened switch_to shows_on shell_at
    is_none found with_task go_on open_shell turn_to lookup insert nat_eq text_eq client_ids
moved_run = refl

abbrev pod_shell : Shell
pod_shell = record {
  backend = codes "pod";
  ring = new_ring scrollback;
  running = true;
  rows = 24;
  cols = 80;
}

-- The scrollback is shown behind the first chunk.
abbrev streaming : List Step
streaming =
    read 0 (codes "a")
    ∷ pass (λ k. true) 0
    ∷ proceed true 7
    ∷ read 5 (codes "b")
    ∷ read 0 (codes "c")
    ∷ []

-- Both chunks are among those read, in their order.
chunks_run : chunks_read 0 true streaming (attach 7 3 true first) ≡ codes "a" ∷ codes "c" ∷ []
unfolding chunks_read chunk_read session_step attach newly_started started opened read_chunk pass_on
    go_on with_task without_task with_client at_client is_none lookup insert erase nat_eq
chunks_run = refl

abbrev caller : List Text
caller = codes "PATH=/usr/bin" ∷ codes "SHELL=/vp/bin/vpsh" ∷ codes "LANG=C" ∷ []

-- A shell of the pod's own is passed over.
real_shell_run : real_shell (codes "/bin/zsh") caller ≡ codes "/bin/zsh"
unfolding real_shell shell_or is_real has_prefix trim_prefix text_eq nat_eq
real_shell_run = refl

values_of-session_env_example :
    ((n : Text)
      → values_of n (session_env (codes "p") (codes "1") pod (codes "/bin/zsh") caller)
        ≡ value_or
            (lookup n (
              session_vars
                (codes "p")
                (codes "1")
                pod
                (real_shell (codes "/bin/zsh") caller)
                (pod_path caller)))
            (values_of n caller))
    × (is_real (real_shell (codes "/bin/zsh") caller) ≡ true)
    × (has_prefix (pod_path caller) (codes "/vp/bin:") ≡ true)
values_of-session_env_example =
    values_of-session_env (codes "p") (codes "1") pod (codes "/bin/zsh") caller
