-- ===== src/Daemon/Unmount/Home.antt =====
-- internal/daemon/mount.go, `removeMount`: where the sessions go.
use vibepod.Base.{Bool, true, false, some, List, [], ◌∷◌}
use vibepod.Base.{◌≡◌, ◌≢◌, ◌⊎◌, refl, sym, ap, ◌∙◌, arith, inl, inr, Bool-cases, All}
use vibepod.Base.{Text, ◌==◌, ==_iff, if◌then◌else◌, if_cases, text_eq, contains}
use mathlib.Core.Path.{subst}
use vibepod.Base.Dict.{Dict, lookup, lookup-insert}
use vibepod.Route.{pod}
use vibepod.Daemon.Mounts.{MountRec}
use vibepod.Daemon.Backends.{Backends, known_backend, set_backend, target_of}
use vibepod.Daemon.Unmount.Defs.{stranded, send_home, settle_one, settle}

pod-known : (b : Backends) → known_backend b pod ≡ true
unfolding known_backend text_eq
pod-known b = refl

target-pod : (b : Backends) → target_of b pod ≡ pod
unfolding target_of text_eq
target-pod b = refl

-- A session that is sent to the pod is there, and no other moves.
lookup-set_backend :
    (switched : Bool) (b : Backends) (j id : Text)
    → id ≢ []
    → lookup id (set_backend switched b j pod).1.backends
      ≡ (if id == j then some pod else lookup id b.backends)
unfolding set_backend
lookup-set_backend switched b j id ne = elim (Bool-cases (j == [])) [
  | inl y ↦ rw y (ground arith)
  | inr n ↦ rw (n, target-pod, pod-known) (lookup-insert id j pod b.backends)
]

-- Only the sessions move.
known-set_backend :
    (switched : Bool) (b : Backends) (j x : Text)
    → known_backend (set_backend switched b j pod).1 x ≡ known_backend b x
unfolding set_backend
known-set_backend switched b j x = elim (Bool-cases (j == [])) [
  | inl y ↦ rw y refl
  | inr n ↦ rw (n, target-pod, pod-known) (unfold known_backend in refl)
]

lookup-send_home :
    (switched : Text → Bool) (ids : List Text) (b : Backends) (id : Text)
    → id ≢ []
    → lookup id (send_home switched ids b).backends
      ≡ (if contains ids id then some pod else lookup id b.backends)
unfolding send_home
lookup-send_home switched [] b id ne = refl
lookup-send_home switched (j ∷ ids) b id ne =
    let one = lookup-set_backend (switched j) b j id ne in
    let rest = lookup-send_home switched ids (set_backend (switched j) b j pod).1 id ne in
    ground arith

known-send_home :
    (switched : Text → Bool) (ids : List Text) (b : Backends) (x : Text)
    → known_backend (send_home switched ids b) x ≡ known_backend b x
unfolding send_home
known-send_home switched [] b x = refl
known-send_home switched (j ∷ ids) b x =
    known-send_home switched ids (set_backend (switched j) b j pod).1 x
    ∙ known-set_backend (switched j) b j x

contains-stranded :
    (host id : Text) (d : Dict Text Text)
    → lookup id d ≡ some host
    → contains (stranded host d) id ≡ true
unfolding stranded lookup
contains-stranded host id [] e = cc
contains-stranded host id ((j, x) ∷ d) e = ground (arith, contains-stranded host id d)

-- Where a session may stand when the mounts of `hs` are settled.
abbrev pub IsSettled : Backends → List MountRec → Text → Text → Type 0
IsSettled b hs id x =
    (known_backend b x ≡ true) ⊎ ((lookup id b.backends ≡ some x) × All (λ m. m.owner ≢ x) hs)

known_backend-IsSettled :
    (b : Backends) (h : MountRec) (hs : List MountRec) (id x : Text)
    → known_backend b h.owner ≡ true
    → IsSettled b hs id x
    → IsSettled b (h ∷ hs) id x
known_backend-IsSettled b h hs id x k (inl y) = inl y
known_backend-IsSettled b h hs id x k (inr (l, all)) = elim (Bool-cases (h.owner == x)) [
  | inl y ↦ inl (subst (λ o. known_backend b o ≡ true) ((==_iff h.owner x).0 y) k)
  | inr n ↦ inr (l, (ground arith, all))
]

not_both : {b : Bool} → b ≡ false → b ≡ true → ⊥
not_both {b} n y = absurd (ground arith)

send_home-IsSettled :
    (switched : Text → Bool) (b : Backends) (h : MountRec) (hs : List MountRec) (id x : Text)
    → id ≢ []
    → IsSettled (send_home switched (stranded h.owner b.backends) b) hs id x
    → IsSettled b (h ∷ hs) id x
send_home-IsSettled switched b h hs id x ne (inl y) =
    inl (sym (known-send_home switched (stranded h.owner b.backends) b x) ∙ y)
send_home-IsSettled switched b h hs id x ne (inr (l, all)) =
    let moved = lookup-send_home switched (stranded h.owner b.backends) b id ne in
    elim (Bool-cases (contains (stranded h.owner b.backends) id)) [
      | inl y ↦ inl (subst (λ o. known_backend b o ≡ true) (ground arith) (pod-known b))
      | inr n ↦ stayed n (ground arith)
    ]
  where
    stayed :
        contains (stranded h.owner b.backends) id ≡ false
        → lookup id b.backends ≡ some x
        → IsSettled b (h ∷ hs) id x
    stayed n e = inr (
      e,
      ((λ eo. not_both n (contains-stranded h.owner id b.backends (e ∙ ap some (sym eo)))), all),
    )

settle_one-IsSettled :
    (switched : Text → Bool) (b : Backends) (h : MountRec) (hs : List MountRec) (id x : Text)
    → id ≢ []
    → IsSettled (settle_one switched h b) hs id x
    → IsSettled b (h ∷ hs) id x
unfolding settle_one
settle_one-IsSettled switched b h hs id x ne =
    if_cases (λ b'. IsSettled b' hs id x → IsSettled b (h ∷ hs) id x) (known_backend b h.owner) _ _
      (λ k. known_backend-IsSettled b h hs id x k)
      (λ _. send_home-IsSettled switched b h hs id x ne)

pub settle-IsSettled :
    (switched : Text → Bool) (hs : List MountRec) (b : Backends) (id x : Text)
    → id ≢ []
    → lookup id (settle switched hs b).backends ≡ some x
    → IsSettled b hs id x
unfolding settle
settle-IsSettled switched [] b id x ne e = inr (e, tt)
settle-IsSettled switched (h ∷ hs) b id x ne e =
    settle_one-IsSettled switched b h hs id x ne
      (settle-IsSettled switched hs (settle_one switched h b) id x ne e)
