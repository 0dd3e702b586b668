-- ===== src/Config/Resolve/Defs/Types.antt =====
-- internal/config/config.go: the types of vibepod.yaml and of what is made of it.
use vibepod.Base.{ℕ, Bool, Option, List}
use vibepod.Base.{◌≡◌, refl, ◌⊎◌, inl, inr, Text, text_eq, nat_eq}
use vibepod.Base.Dict.{Dict}
use vibepod.Proto.{MountSpec, PortSpec}
use vibepod.Config.Guard.{GuardError}

pub record Host : Type 0 where
  pub toolbin : Bool
  pub forward_credentials : Bool

pub record Mount : Type 0 where
  pub local : Text
  pub remote : Text
  pub at : Text
  pub mode : Text
  pub read_only : Bool
  pub exec_on : Text
  pub expose_to : List Text
  pub requires : List Text
  pub cache : Text
  pub prefetch : Bool
  pub writers : Text
  pub via : Text

pub record ForwardEnv : Type 0 where
  pub mode : Text
  pub names : List Text

pub record RemoteTools : Type 0 where
  pub names : List Text
  pub hosts : Dict Text Text

pub record Config : Type 0 where
  pub pod_name : Text
  pub hosts : Dict Text Host
  pub mounts : List Mount
  pub host_access : List Text
  pub ports : List Text
  pub exec_default : Text
  pub forward_env : ForwardEnv
  pub remote_tools : RemoteTools
  pub can_mount : List Text
  pub lease : Text

pub record Resolved : Type 0 where
  pub credentials : List Text
  pub toolbin : List Text
  pub name : Text
  pub lease : Text
  pub ports : List PortSpec
  pub machines : List Text
  pub tools : List Text
  pub tool_hosts : Dict Text Text
  pub can_mount : List Text
  pub forward_env : ForwardEnv
  pub mounts : List MountSpec
  pub default : Text

-- The refusals of `Resolve`, each with what its message names.
pub data ResolveError : Type 0 where
  bad_lease : Text → ResolveError
  both_sides : Text → ResolveError
  neither_side : ResolveError
  no_home : Text → ResolveError
  missing_local : Text → ResolveError
  guarded : Text → GuardError → ResolveError
  both_claim : Text → Text → Text → ResolveError
  not_exposed : Text → Text → ResolveError
  bad_remote : Text → ResolveError
  two_names : Text → Text → Text → ResolveError
  overlaps : Text → Text → ResolveError
  bad_mode : Text → Text → ResolveError
  bad_via : Text → Text → ResolveError
  bad_writers : Text → Text → ResolveError
  bad_port : Text → ResolveError
  tool_on_unknown : Text → Text → ResolveError
  unknown_default : Text → ResolveError

pub data Result {ℓ} (A : Type ℓ) : Type ℓ where
  ok : A → Result A
  err : ResolveError → Result A

infixl 5 ◌>>=◌
abbrev pub ◌>>=◌ {ℓ κ} : {A : Type ℓ} {B : Type κ} → Result A → (A → Result B) → Result B
ok a >>= f = f a
err e >>= f = err e

pub Result-cases {ℓ} :
    {A : Type ℓ} (r : Result A) → ((e : ResolveError) × (r ≡ err e)) ⊎ ((a : A) × (r ≡ ok a))
Result-cases (err e) = inl (e, refl)
Result-cases (ok a) = inr (a, refl)

-- What the machine answers: the home and the working directory, `none` where Go's call fails;
-- whether `os.Stat` of a path succeeds, whether `time.ParseDuration` accepts a text, and what
-- `fmt.Sscan` reads into an int, `none` for an error or a negative number.
pub record Os : Type 0 where
  pub home : Option Text
  pub working : Option Text
  pub exists : Text → Bool
  pub is_duration : Text → Bool
  pub scan : Text → Option ℕ
