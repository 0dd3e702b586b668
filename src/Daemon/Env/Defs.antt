-- ===== src/Daemon/Env/Defs.antt =====
-- internal/daemon/env.go: which of a command's variables cross to another machine.
use vibepod.Base.{Bool, true, false, none, some, List, [], ◌∷◌, ◌++◌}
use vibepod.Base.{Text, codes, ◌==◌, contains, if◌then◌else◌, text_eq, sort_by}
use vibepod.Base.Dict.{Dict, lookup, insert}
use vibepod.Strings.{has_prefix, cut, text_lt}

-- `EnvMode`. The two named modes are tested for; every other value is the delta.
pub data EnvMode : Type 0 where
  delta env_none explicit : EnvMode

pub record EnvPolicy : Type 0 where
  pub mode : EnvMode
  pub names : List Text

abbrev pub identity_vars : List Text
identity_vars =
    codes "PATH"
    ∷ codes "HOME"
    ∷ codes "USER"
    ∷ codes "LOGNAME"
    ∷ codes "SHELL"
    ∷ codes "TMPDIR"
    ∷ codes "LD_LIBRARY_PATH"
    ∷ codes "LD_PRELOAD"
    ∷ codes "PYTHONHOME"
    ∷ []

abbrev pub identity_prefixes : List Text
identity_prefixes = codes "SSH_" ∷ codes "XDG_" ∷ codes "VIBEPOD_" ∷ []

abbrev pub shell_noise : List Text
shell_noise =
    codes "SHLVL" ∷ codes "_" ∷ codes "PWD" ∷ codes "OLDPWD" ∷ codes "COLUMNS" ∷ codes "LINES" ∷ []

unfoldable pub any_prefix : Text → List Text → Bool
any_prefix name [] = false
any_prefix name (p ∷ ps) = if has_prefix name p then true else any_prefix name ps

unfoldable pub is_identity : Text → Bool
unfolding any_prefix
is_identity name = if contains identity_vars name then true else any_prefix name identity_prefixes

unfoldable pub is_noise : Text → Bool
is_noise name = contains shell_noise name

-- `envMap`: a later assignment wins, and an entry with no `=` is skipped.
unfoldable pub env_map_from : Dict Text Text → List Text → Dict Text Text
env_map_from m [] = m
env_map_from m (kv ∷ env) =
    env_map_from (elim (cut kv b'=') [ none ↦ m | some (name, value) ↦ insert name value m ]) env

unfoldable pub env_map : List Text → Dict Text Text
unfolding env_map_from
env_map env = env_map_from [] env

-- `name + "=" + value`
unfoldable pub assignment : Text → Text → Text
assignment name value = name ++ b'=' ∷ value

-- `sort.Strings`.
unfoldable pub sort_texts : List Text → List Text
sort_texts = sort_by text_lt

-- The names that the policy lists and the command sets, in the order of the policy.
unfoldable pub explicit_env : Dict Text Text → List Text → List Text
unfolding assignment
explicit_env have [] = []
explicit_env have (name ∷ names) = elim (lookup name have) [
  | none ↦ explicit_env have names
  | some v ↦ assignment name v ∷ explicit_env have names
]

-- What becomes of one entry of the command's environment in delta mode.
pub data Verdict : Type 0 where
  skipped : Verdict
  withheld : Text → Verdict
  forwarded : Text → Text → Verdict

-- The body of the loop, from the cut entry on.
unfoldable pub verdict_of : Dict Text Text → Text → Text → Verdict
verdict_of base name value = if name == [] then skipped else elim (lookup name base) [
  | some was ↦
      if was == value
      then skipped
      else if is_noise name
      then skipped
      else if is_identity name
      then withheld name
      else forwarded name value
  | none ↦
      if is_noise name
      then skipped
      else if is_identity name
      then withheld name
      else forwarded name value
]

unfoldable pub verdict : Dict Text Text → Text → Verdict
unfolding verdict_of
verdict base kv = elim (cut kv b'=') [
  | none ↦ skipped
  | some (name, value) ↦ verdict_of base name value
]

-- The loop: the assignments kept and the names refused, before they are sorted.
unfoldable pub delta_env : Dict Text Text → List Text → List Text × List Text
unfolding verdict assignment
delta_env base [] = ([], [])
delta_env base (kv ∷ command) =
    let (keep, refused) = delta_env base command in
    elim (verdict base kv) [
      | skipped ↦ (keep, refused)
      | withheld name ↦ (keep, name ∷ refused)
      | forwarded name value ↦ (assignment name value ∷ keep, refused)
    ]

-- `forwardEnv`.
unfoldable pub forward_env : EnvPolicy → List Text → List Text → List Text × List Text
unfolding explicit_env delta_env sort_texts env_map
forward_env p baseline command = elim p.mode [
  | env_none ↦ ([], [])
  | explicit ↦ (explicit_env (env_map command) p.names, [])
  | delta ↦
      let (keep, refused) = delta_env (env_map baseline) command in
      (sort_texts keep, sort_texts refused)
]
