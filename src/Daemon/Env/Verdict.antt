-- ===== src/Daemon/Env/Verdict.antt =====
-- What `forwardEnv` decides for one entry of the command's environment.
use vibepod.Base.{true, false, ◌≡◌, refl, ◌⊎◌, inl, inr, ◌≢◌, List, []}
use vibepod.Base.{some, Text, In, arith, Option-cases, text_eq, if◌then◌else◌}
use vibepod.Base.Dict.{Dict, lookup}
use vibepod.Strings.{cut}
use vibepod.Daemon.Env.Defs.{verdict, Verdict, skipped, withheld, forwarded}
use vibepod.Daemon.Env.Defs.{is_noise, is_identity}

-- The caller set `name` to `value` for this command: the session does not have it so, and it is
-- not what a shell keeps for itself.
pub record SetByCaller (base : Dict Text Text) (kv name value : Text) : Type 0 where
  pub parsed : cut kv b'=' ≡ some (name, value)
  pub named : name ≢ []
  pub new_or_changed : lookup name base ≢ some value
  pub typed : is_noise name ≡ false

-- An entry that crosses: set by the caller, and not describing this machine.
pub record Crosses (base : Dict Text Text) (kv : Text) : Type 0 where
  pub name : Text
  pub value : Text
  pub by_caller : SetByCaller base kv name value
  pub no_identity : is_identity name ≡ false

-- A name that is refused: set by the caller, and describing this machine.
pub record Refused (base : Dict Text Text) (command : List Text) (name : Text) : Type 0 where
  pub kv : Text
  pub value : Text
  pub present : In kv command
  pub by_caller : SetByCaller base kv name value
  pub identity : is_identity name ≡ true

module _ (base : Dict Text Text) where
  pub verdict_forwarded :
      (kv name value : Text)
      → verdict base kv ≡ forwarded name value
      → SetByCaller base kv name value × (is_identity name ≡ false)
  unfolding verdict
  verdict_forwarded kv name value h = elim (Option-cases (cut kv b'=')) [
    | inl e ↦ ground arith
    | inr ((n, v), e) ↦ ground arith
  ]

  pub verdict-withheld :
      (kv name : Text)
      → verdict base kv ≡ withheld name
      → (value : Text) × SetByCaller base kv name value × (is_identity name ≡ true)
  unfolding verdict
  verdict-withheld kv name h = elim (Option-cases (cut kv b'=')) [
    | inl e ↦ ground arith
    | inr ((n, v), e) ↦ (v, ground arith, ground arith)
  ]

  pub verdict_of_set :
      (kv name value : Text)
      → SetByCaller base kv name value
      → verdict base kv ≡ (if is_identity name then withheld name else forwarded name value)
  unfolding verdict
  verdict_of_set kv name value s = ground (arith, s.parsed, s.named, s.new_or_changed, s.typed)

  pub Verdict-cases :
      (v : Verdict)
      → (v ≡ skipped)
        ⊎ ((n : Text) × (v ≡ withheld n))
        ⊎ ((n : Text) × (w : Text) × (v ≡ forwarded n w))
  Verdict-cases skipped = inl refl
  Verdict-cases (withheld n) = inr (inl (n, refl))
  Verdict-cases (forwarded n w) = inr (inr (n, w, refl))
