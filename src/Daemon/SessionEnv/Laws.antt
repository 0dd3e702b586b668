-- ===== src/Daemon/SessionEnv/Laws.antt =====
-- internal/daemon/daemon.go: what a program in a session finds in its environment.
use vibepod.Base.{Bool, true, false, ◌&&◌, Option, none, some, List, [], ◌∷◌, ◌++◌}
use vibepod.Base.{
  ◌≡◌, refl, sym, ap, ◌∙◌, arith, inl, inr, Bool-cases, if_cases, append_assoc, append-nil,
}
use vibepod.Base.{Text, codes, ◌==◌, ==_iff, contains, if◌then◌else◌, text_eq, nat_eq}
use vibepod.Base.Dict.{Dict, lookup}
use mathlib.Core.Bool.{cond}
use vibepod.Strings.{has_prefix, trim_prefix, cut}
use vibepod.Daemon.Env.{assignment}
use vibepod.Daemon.SessionEnv.Defs.{
  own_names, is_own, kept_env, is_real, shell_or, real_shell, pod_path, own_env, assignments_of,
  session_env,
}

-- The values that a name is given by an entry, and by an environment, in their order.
unfoldable pub value_in : Text → Option (Text × Text) → List Text
value_in n none = []
value_in n (some (name, value)) = if name == n then value ∷ [] else []

unfoldable pub values_of : Text → List Text → List Text
unfolding value_in
values_of n [] = []
values_of n (kv ∷ env) = value_in n (cut kv b'=') ++ values_of n env

-- One value, or else those.
unfoldable pub value_or : Option Text → List Text → List Text
value_or none vs = vs
value_or (some v) vs = v ∷ []

values_of-append :
    (n : Text) (a b : List Text) → values_of n (a ++ b) ≡ values_of n a ++ values_of n b
unfolding values_of
values_of-append n [] b = refl
values_of-append n (kv ∷ a) b =
    ap (λ l. value_in n (cut kv b'=') ++ l) (values_of-append n a b)
    ∙ sym (append_assoc (value_in n (cut kv b'=')) (values_of n a) (values_of n b))

nothing : (b : Bool) → cond {A = List Text} b [] [] ≡ []
nothing true = refl
nothing false = refl

-- An entry of a name that the session sets is left out with its value.
value_in-own :
    (n : Text) (o : Option (Text × Text))
    → is_own o ≡ true
    → (if contains own_names n then [] else value_in n o) ≡ []
unfolding is_own value_in
value_in-own n none y = absurd (cc)
value_in-own n (some (k, v)) y = elim (Bool-cases (k == n)) [
  | inl e ↦
      ap (λ b. if b then [] else (if k == n then v ∷ [] else []))
        (sym (ap (contains own_names) ((==_iff k n).0 e)) ∙ y)
  | inr d ↦
      ap (λ b. if contains own_names n then [] else (if b then v ∷ [] else [])) d
      ∙ nothing (contains own_names n)
]

value_in-kept :
    (n : Text) (o : Option (Text × Text))
    → is_own o ≡ false
    → value_in n o ≡ (if contains own_names n then [] else value_in n o)
unfolding is_own value_in
value_in-kept n none y = sym (nothing (contains own_names n))
value_in-kept n (some (k, v)) y = elim (Bool-cases (k == n)) [
  | inl e ↦ sym (
      ap (λ b. if b then [] else (if k == n then v ∷ [] else []))
        (sym (ap (contains own_names) ((==_iff k n).0 e)) ∙ y))
  | inr d ↦
      ap (λ b. if b then v ∷ [] else []) d
      ∙ sym (nothing (contains own_names n))
      ∙ sym (ap (λ b. if contains own_names n then [] else (if b then v ∷ [] else [])) d)
]

together :
    (b : Bool) (x y : List Text)
    → (if b then [] else x) ++ (if b then [] else y) ≡ (if b then [] else x ++ y)
together true x y = refl
together false x y = refl

values_of-kept_env :
    (n : Text) (env : List Text)
    → values_of n (kept_env env) ≡ (if contains own_names n then [] else values_of n env)
unfolding kept_env values_of
values_of-kept_env n [] = sym (nothing (contains own_names n))
values_of-kept_env n (kv ∷ env) =
    if_cases
      (λ l.
        values_of n l
        ≡ (if contains own_names n then [] else value_in n (cut kv b'=') ++ values_of n env))
      (is_own (cut kv b'=')) _ _
      (λ y.
        values_of-kept_env n env
        ∙ ap (λ l. l ++ (if contains own_names n then [] else values_of n env))
            (sym (value_in-own n (cut kv b'=') y))
        ∙ together (contains own_names n) (value_in n (cut kv b'=')) (values_of n env))
      (λ d.
        ap (λ l. value_in n (cut kv b'=') ++ l) (values_of-kept_env n env)
        ∙ ap (λ l. l ++ (if contains own_names n then [] else values_of n env))
            (value_in-kept n (cut kv b'=') d)
        ∙ together (contains own_names n) (value_in n (cut kv b'=')) (values_of n env))

IsFresh : Dict Text Text → Type 0
IsFresh [] = Unit
IsFresh ((k, v) ∷ d) = (lookup k d ≡ none) × (contains k b'=' ≡ false) × IsFresh d

cut-assignment : (n v : Text) → contains n b'=' ≡ false → cut (assignment n v) b'=' ≡ some (n, v)
unfolding cut assignment nat_eq
cut-assignment [] v h = refl
cut-assignment (c ∷ n) v h = ground (arith, cut-assignment n v)

one_more :
    (n k v : Text) (d : Dict Text Text)
    → lookup k d ≡ none
    → value_in n (some (k, v)) ++ value_or (lookup n d) [] ≡ value_or (lookup n ((k, v) ∷ d)) []
unfolding lookup value_or value_in
one_more n k v d fr = ground arith

values_of-assignments_of :
    (n : Text) (d : Dict Text Text)
    → IsFresh d
    → values_of n (assignments_of d) ≡ value_or (lookup n d) []
unfolding assignments_of values_of IsFresh
values_of-assignments_of n [] h = unfold lookup value_or in refl
values_of-assignments_of n ((k, v) ∷ d) (fr, ne, h) =
    ap (λ o. value_in n o ++ values_of n (assignments_of d)) (cut-assignment k v ne)
    ∙ ap (λ l. value_in n (some (k, v)) ++ l) (values_of-assignments_of n d h)
    ∙ one_more n k v d fr

-- The variables of a session, with their values.
abbrev pub session_vars : Text → Text → Text → Text → Text → Dict Text Text
session_vars name session backend shell path =
    (codes "VIBEPOD_POD", name)
    ∷ (codes "VIBEPOD_SESSION", session)
    ∷ (codes "VIBEPOD_SOCK", codes "/vp/run/pod.sock")
    ∷ (codes "VIBEPOD_BACKEND", backend)
    ∷ (codes "VIBEPOD_REAL_SHELL", shell)
    ∷ (codes "SHELL", codes "/vp/bin/vpsh")
    ∷ (codes "PATH", path)
    ∷ []

module _ (name session backend shell path : Text) where
  abbrev vars : Dict Text Text
  vars = session_vars name session backend shell path

  vars-IsFresh : IsFresh vars
  unfolding IsFresh lookup text_eq nat_eq
  vars-IsFresh = (
    refl,
    refl,
    (refl, refl, (refl, refl, (refl, refl, (refl, refl, (refl, refl, (refl, refl, tt)))))),
  )

  vars-cover : (n : Text) → lookup n vars ≡ none → contains own_names n ≡ false
  unfolding lookup
  vars-cover n h = ground arith

  vars-within : (n v : Text) → lookup n vars ≡ some v → contains own_names n ≡ true
  unfolding lookup
  vars-within n v h = ground arith

  value_or-vars :
      (n : Text) (vs : List Text) (o : Option Text)
      → lookup n vars ≡ o
      → (if contains own_names n then [] else vs) ++ value_or o [] ≡ value_or o vs
  unfolding value_or
  value_or-vars n vs none e =
      append-nil (if contains own_names n then [] else vs)
      ∙ ap (λ b. if b then [] else vs) (vars-cover n e)
  value_or-vars n vs (some v) e = ap (λ b. (if b then [] else vs) ++ v ∷ []) (vars-within n v e)

shell_or-is_real : (sh : Text) → is_real (shell_or sh) ≡ true
unfolding shell_or is_real has_prefix text_eq nat_eq
shell_or-is_real sh = if_cases (λ s. is_real s ≡ true) (is_real sh) _ _ (λ y. y) (λ _. refl)

real_shell-is_real : (sh : Text) (env : List Text) → is_real (real_shell sh env) ≡ true
unfolding real_shell
real_shell-is_real sh [] = shell_or-is_real sh
real_shell-is_real sh (e ∷ env) =
    if_cases (λ s. is_real s ≡ true)
      (has_prefix e (codes "SHELL=") && is_real (trim_prefix e (codes "SHELL="))) _ _
      (λ y. ground arith) (λ _. real_shell-is_real sh env)

-- The pod's tools stand first.
pod_path-tools : (env : List Text) → has_prefix (pod_path env) (codes "/vp/bin:") ≡ true
unfolding pod_path has_prefix nat_eq
pod_path-tools [] = refl
pod_path-tools (e ∷ env) =
    if_cases (λ p. has_prefix p (codes "/vp/bin:") ≡ true) (has_prefix e (codes "PATH=")) _ _
      (λ _. refl) (λ _. pod_path-tools env)

-- In the environment of a session each of the seven names that sessionEnv sets has one value, its own,
-- and nothing is left of what the caller gave these names; every other name has the values that
-- the caller gave it, in their order. VIBEPOD_REAL_SHELL is not empty and not under /vp, and PATH begins
-- with the directory of the pod's tools.
pub values_of-session_env :
    (name session backend daemon_shell : Text) (caller_env : List Text)
    → ((n : Text)
        → values_of n (session_env name session backend daemon_shell caller_env)
          ≡ value_or
              (lookup n (
                session_vars name session backend
                  (real_shell daemon_shell caller_env)
                  (pod_path caller_env)))
              (values_of n caller_env))
      × (is_real (real_shell daemon_shell caller_env) ≡ true)
      × (has_prefix (pod_path caller_env) (codes "/vp/bin:") ≡ true)
unfolding session_env own_env
values_of-session_env name session backend daemon_shell caller_env =
    let shell = real_shell daemon_shell caller_env in
    let path = pod_path caller_env in
    let vars = session_vars name session backend shell path in
    (
      (λ n.
          values_of-append n (kept_env caller_env) (assignments_of vars)
          ∙ ap (λ l. l ++ values_of n (assignments_of vars)) (values_of-kept_env n caller_env)
          ∙ ap (λ l. (if contains own_names n then [] else values_of n caller_env) ++ l)
              (values_of-assignments_of n vars (vars-IsFresh name session backend shell path))
          ∙ value_or-vars name session backend shell path n (values_of n caller_env) (lookup n vars)
              refl),
      real_shell-is_real daemon_shell caller_env,
      pod_path-tools caller_env,
    )
