-- ===== src/Daemon/SessionEnv/Defs.antt =====
-- internal/daemon/daemon.go: `sessionEnv`, `realShell` and `podPath`; internal/pod/root.go: the pod's paths.
use vibepod.Base.{Bool, false, not, ◌&&◌, Option, none, some, List, [], ◌∷◌, ◌++◌}
use vibepod.Base.{Text, codes, ◌==◌, contains, if◌then◌else◌, text_eq}
use vibepod.Base.Dict.{Dict}
use vibepod.Strings.{has_prefix, trim_prefix, cut}
use vibepod.Daemon.Env.{assignment}

abbrev pub vp_dir : Text
vp_dir = codes "/vp"

abbrev pub sock_path : Text
sock_path = codes "/vp/run/pod.sock"

abbrev pub shell_path : Text
shell_path = codes "/vp/bin/vpsh"

abbrev pub bin_dir : Text
bin_dir = codes "/vp/bin"

-- The names that `sessionEnv` leaves out of the caller's environment.
abbrev pub own_names : List Text
own_names =
    codes "SHELL"
    ∷ codes "PATH"
    ∷ codes "VIBEPOD_POD"
    ∷ codes "VIBEPOD_SESSION"
    ∷ codes "VIBEPOD_SOCK"
    ∷ codes "VIBEPOD_BACKEND"
    ∷ codes "VIBEPOD_REAL_SHELL"
    ∷ []

unfoldable pub is_own : Option (Text × Text) → Bool
is_own none = false
is_own (some (name, _)) = contains own_names name

unfoldable pub kept_env : List Text → List Text
unfolding is_own
kept_env [] = []
kept_env (kv ∷ env) = let rest = kept_env env in if is_own (cut kv b'=') then rest else kv ∷ rest

-- A shell that a command can be handed to: not empty, and none of the pod's own.
unfoldable pub is_real : Text → Bool
is_real sh = not (sh == []) && not (has_prefix sh (vp_dir ++ codes "/"))

unfoldable pub shell_or : Text → Text
unfolding is_real
shell_or sh = if is_real sh then sh else codes "/bin/sh"

-- `realShell`; the first argument is the daemon's own SHELL.
unfoldable pub real_shell : Text → List Text → Text
unfolding is_real shell_or
real_shell daemon_shell [] = shell_or daemon_shell
real_shell daemon_shell (e ∷ env) =
    let rest = real_shell daemon_shell env in
    let v = trim_prefix e (codes "SHELL=") in
    if has_prefix e (codes "SHELL=") && is_real v then v else rest

-- `podPath`
unfoldable pub pod_path : List Text → Text
pod_path [] = bin_dir ++ codes ":/usr/bin:/bin"
pod_path (e ∷ env) =
    let rest = pod_path env in
    if has_prefix e (codes "PATH=") then bin_dir ++ b':' ∷ trim_prefix e (codes "PATH=") else rest

-- The variables that `sessionEnv` appends, in its order.
unfoldable pub own_env : Text → Text → Text → Text → List Text → Dict Text Text
unfolding real_shell pod_path
own_env name session backend daemon_shell caller_env =
    (codes "VIBEPOD_POD", name)
    ∷ (codes "VIBEPOD_SESSION", session)
    ∷ (codes "VIBEPOD_SOCK", sock_path)
    ∷ (codes "VIBEPOD_BACKEND", backend)
    ∷ (codes "VIBEPOD_REAL_SHELL", real_shell daemon_shell caller_env)
    ∷ (codes "SHELL", shell_path)
    ∷ (codes "PATH", pod_path caller_env)
    ∷ []

unfoldable pub assignments_of : Dict Text Text → List Text
unfolding assignment
assignments_of [] = []
assignments_of ((name, value) ∷ d) = assignment name value ∷ assignments_of d

-- `sessionEnv`
unfoldable pub session_env : Text → Text → Text → Text → List Text → List Text
unfolding kept_env own_env assignments_of
session_env name session backend daemon_shell caller_env =
    kept_env caller_env ++ assignments_of (own_env name session backend daemon_shell caller_env)
