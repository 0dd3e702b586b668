-- ===== src/Daemon/Env/Laws.antt =====
-- What crosses to another machine, what is refused, and what stays behind in silence.
use vibepod.Base.{◌≡◌, refl, ◌⊎◌, inl, inr, ◌↔◌, ◌∙◌, sym, ap, List, [], ◌∷◌}
use vibepod.Base.{none, some, Text, In, In-sort_by, arith, Option-cases, text_eq}
use vibepod.Base.Dict.{Dict, lookup}
use vibepod.Strings.{text_lt}
use vibepod.Daemon.Env.Defs.{forward_env, delta, explicit, env_map}
use vibepod.Daemon.Env.Defs.{delta_env}
use vibepod.Daemon.Env.Defs.{assignment, explicit_env}
use vibepod.Daemon.Env.Verdict.{Crosses, Refused}
use vibepod.Daemon.Env.Loop.{
  keep_of_forwarded, delta_env-Crosses, delta_env-Refused, withheld_of_refused,
}

-- In delta mode an entry of the command's environment crosses exactly when the caller set it for
-- this command (it is new, or differs from the session's) and its name is neither the shell's own
-- bookkeeping nor one that describes this machine; and nothing else crosses.
pub forward_env-delta_keep :
    (names baseline command : List Text) (kv : Text)
    → In kv (forward_env (record { mode = delta; names = names }) baseline command).0
      ↔ (In kv command × Crosses (env_map baseline) kv)
unfolding forward_env
forward_env-delta_keep names baseline command kv = (
  λ m. keep_of_forwarded base command kv ((In-sort_by text_lt kv kept).0 m),
  λ (m, x). (In-sort_by text_lt kv kept).1 (delta_env-Crosses base command kv m x),
)
  where
    base : Dict Text Text
    base = env_map baseline

    kept : List Text
    kept = (delta_env base command).0

-- In delta mode the names reported as refused are exactly those that the caller set for this
-- command and that describe this machine: no such variable is dropped in silence.
pub forward_env-delta-Refused :
    (names baseline command : List Text) (name : Text)
    → In name (forward_env (record { mode = delta; names = names }) baseline command).1
      ↔ Refused (env_map baseline) command name
unfolding forward_env
forward_env-delta-Refused names baseline command name = (
  λ m. delta_env-Refused base command name ((In-sort_by text_lt name held).0 m),
  λ r.
      (In-sort_by text_lt name held).1
        (withheld_of_refused base command name r.kv r.value r.present r.by_caller r.identity),
)
  where
    base : Dict Text Text
    base = env_map baseline

    held : List Text
    held = (delta_env base command).1

-- An assignment of a variable that the policy names and the command sets.
pub record Asked (have : Dict Text Text) (names : List Text) (kv : Text) : Type 0 where
  pub name : Text
  pub value : Text
  pub listed : In name names
  pub set : lookup name have ≡ some value
  pub rendered : kv ≡ assignment name value

module _ (have : Dict Text Text) where
  step_unset :
      (n : Text) (ns : List Text)
      → lookup n have ≡ none
      → explicit_env have (n ∷ ns) ≡ explicit_env have ns
  unfolding explicit_env
  step_unset n ns e = ground arith

  step_set :
      (n v : Text) (ns : List Text)
      → lookup n have ≡ some v
      → explicit_env have (n ∷ ns) ≡ assignment n v ∷ explicit_env have ns
  unfolding explicit_env
  step_set n v ns e = ground arith

  explicit_env-Asked :
      (names : List Text) (kv : Text) → In kv (explicit_env have names) → Asked have names kv
  explicit_env-Asked [] kv m = absurd (unfold explicit_env in m)
  explicit_env-Asked (n ∷ ns) kv m = elim (Option-cases (lookup n have)) [
    | inl e ↦ later (explicit_env-Asked ns kv (rw (step_unset n ns e) at m))
    | inr (v, e) ↦ elim (split v e m) [
      | inl here ↦ record { name = n; value = v; listed = inl refl; set = e; rendered = here }
      | inr there ↦ later (explicit_env-Asked ns kv there)
    ]
  ]
    where
      later : Asked have ns kv → Asked have (n ∷ ns) kv
      later a = record {
        name = a.name;
        value = a.value;
        listed = inr a.listed;
        set = a.set;
        rendered = a.rendered;
      }

      split :
          (v : Text)
          → lookup n have ≡ some v
          → In kv (explicit_env have (n ∷ ns))
          → (kv ≡ assignment n v) ⊎ In kv (explicit_env have ns)
      split v e m = rw (step_set n v ns e) at m

  Asked-explicit_env :
      (names : List Text) (kv name value : Text)
      → In name names
      → lookup name have ≡ some value
      → kv ≡ assignment name value
      → In kv (explicit_env have names)
  Asked-explicit_env [] kv name value m e r = absurd m
  Asked-explicit_env (n ∷ ns) kv name value (inl same) e r =
      rw (step_set n value ns (ap (λ t. lookup t have) (sym same) ∙ e))
        (inl (r ∙ ap (λ t. assignment t value) same))
  Asked-explicit_env (n ∷ ns) kv name value (inr m) e r =
      let ih = Asked-explicit_env ns kv name value m e r in
      elim (Option-cases (lookup n have)) [
        | inl u ↦ rw (step_unset n ns u) ih
        | inr (v, u) ↦ rw (step_set n v ns u) (inr ih)
      ]

-- In explicit mode exactly the variables that the policy names and the command sets cross, each
-- with the value that the command gives it last, and no name is refused: not even one that
-- describes this machine.
pub forward_env-explicit :
    (names baseline command : List Text) (kv : Text)
    → (In kv (forward_env (record { mode = explicit; names = names }) baseline command).0
        ↔ Asked (env_map command) names kv)
      × ((forward_env (record { mode = explicit; names = names }) baseline command).1 ≡ [])
unfolding forward_env
forward_env-explicit names baseline command kv = (
  (
    explicit_env-Asked (env_map command) names kv,
    λ a. Asked-explicit_env (env_map command) names kv a.name a.value a.listed a.set a.rendered,
  ),
  refl,
)
