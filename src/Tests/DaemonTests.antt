-- ===== src/Tests/DaemonTests.antt =====
-- internal/daemon/env.go and internal/term/ring.go at concrete inputs.
use mathlib.Core.List.{flatten}
use vibepod.Base.{List, [], ◌∷◌, ◌≡◌, refl, ◌↔◌}
use vibepod.Base.{Text, codes, text_eq, nat_eq, In, sort_by}
use vibepod.Base.Dict.{lookup, insert}
use vibepod.Strings.{has_prefix, cut}
use vibepod.Ring.{new_ring, write_all, snapshot, last, snapshot-write_all}
use vibepod.Daemon.Env.{
  delta, explicit, is_noise, is_identity, env_map, forward_env, Crosses, Refused, Asked,
  forward_env-delta_keep, forward_env-delta-Refused, forward_env-explicit,
}

snapshot-write_all_example :
    snapshot (write_all (new_ring 3) (codes "ab" ∷ codes "cde" ∷ codes "f" ∷ []))
    ≡ last 3 (flatten (codes "ab" ∷ codes "cde" ∷ codes "f" ∷ []))
snapshot-write_all_example = snapshot-write_all 3 (codes "ab" ∷ codes "cde" ∷ codes "f" ∷ [])

abbrev session : List Text
session = codes "LANG=C" ∷ codes "PATH=/bin" ∷ []

abbrev command : List Text
command = codes "LANG=C" ∷ codes "PATH=/opt" ∷ codes "CUDA=1" ∷ []

-- The case of `TestForwardEnvCarriesTheDeltaAndNothingElse`.
delta_test :
    forward_env (record { mode = delta; names = [] }) session command
    ≡ (codes "CUDA=1" ∷ [], codes "PATH" ∷ [])
unfolding forward_env sort_by cut nat_eq text_eq lookup insert is_noise is_identity has_prefix
delta_test = refl

forward_env-delta_keep_example :
    In (codes "CUDA=1") (forward_env (record { mode = delta; names = [] }) session command).0
    ↔ (In (codes "CUDA=1") command × Crosses (env_map session) (codes "CUDA=1"))
forward_env-delta_keep_example = forward_env-delta_keep [] session command (codes "CUDA=1")

forward_env-delta-Refused_example :
    In (codes "PATH") (forward_env (record { mode = delta; names = [] }) session command).1
    ↔ Refused (env_map session) command (codes "PATH")
forward_env-delta-Refused_example = forward_env-delta-Refused [] session command (codes "PATH")

forward_env_explicit_run :
    (In
        (codes "PATH=/opt")
        (forward_env (record { mode = explicit; names = codes "PATH" ∷ [] }) session command).0
      ↔ Asked (env_map command) (codes "PATH" ∷ []) (codes "PATH=/opt"))
    × ((forward_env (record { mode = explicit; names = codes "PATH" ∷ [] }) session command).1 ≡ [])
forward_env_explicit_run =
    forward_env-explicit (codes "PATH" ∷ []) session command (codes "PATH=/opt")
