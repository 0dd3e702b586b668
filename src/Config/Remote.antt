-- ===== src/Config/Remote.antt =====
-- internal/config/config.go, `ParseRemote`: a remote mount as a person writes it.
use vibepod.Base.{ℕ, suc, ◌+◌, true, not, ◌||◌, Option, none, some}
use vibepod.Base.{[], ◌∷◌, ◌++◌, ◌≡◌, refl, sym, ap, ◌∙◌, ◌≢◌, inl, inr, Text, ◌==◌, if◌then◌else◌}
use vibepod.Base.{text_eq, nat_eq, length, take, drop, All, arith, Option-cases, ltb}
use vibepod.Strings.{has_prefix, cut, cut-append, cut_sound, has_prefix_more}
use native.Mathlib.Nat.{add-zero}
use mathlib.Core.Path.{subst}
use vibepod.Filepath.{clean, slash}

-- `strings.LastIndex(s, p)`.
unfoldable pub last_index : Text → Text → Option ℕ
unfolding has_prefix
last_index [] p = if p == [] then some 0 else none
last_index (c ∷ s) p = elim (last_index s p) [
  | some i ↦ some (suc i)
  | none ↦ if has_prefix (c ∷ s) p then some 0 else none
]

abbrev pub colon_slash : Text
colon_slash = b':' ∷ b'/' ∷ []

pub record Remote : Type 0 where
  pub host : Text
  pub path : Text
  pub at : Text

-- The part behind the host: the path there, and the pod path where one follows the last `:/`.
unfoldable pub parse_rest : Text → Text → Remote
unfolding last_index
parse_rest host rest = elim (last_index rest colon_slash) [
  | none ↦ record { host = host; path = clean rest; at = [] }
  | some i ↦
      if ltb 0 i
      then record { host = host; path = clean (take i rest); at = drop (suc i) rest }
      else record { host = host; path = clean rest; at = [] }
]

-- `ParseRemote`; `none` is its one error.
unfoldable pub parse_remote : Text → Option Remote
unfolding parse_rest cut has_prefix
parse_remote s = elim (cut s b':') [
  | none ↦ none
  | some (host, rest) ↦
      if host == [] || not (has_prefix rest slash) then none else some (parse_rest host rest)
]

-- No `:/` stands in a text.
abbrev pub Plain : Text → Type 0
Plain s = last_index s colon_slash ≡ none

last_index-append :
    (a b : Text) (p : Text) (i : ℕ)
    → last_index b p ≡ some i
    → last_index (a ++ b) p ≡ some (length a + i)
unfolding last_index
last_index-append [] b p i h = ground arith
last_index-append (c ∷ a) b p i h = ground (arith, last_index-append a b p i h)

-- A pod path with no further `:/` begins where the last one stands.
last_index_here :
    (at : Text)
    → has_prefix at slash ≡ true
    → Plain at
    → last_index (b':' ∷ at) colon_slash ≡ some 0
unfolding last_index has_prefix
last_index_here [] h p = absurd (cc)
last_index_here (c ∷ at) h p = ground arith

take-append_self : (a b : Text) → take (length a) (a ++ b) ≡ a
take-append_self [] [] = refl
take-append_self [] (x ∷ b) = refl
take-append_self (x ∷ a) b = ap (λ t. x ∷ t) (take-append_self a b)

drop-suc-append : (a : Text) (x : ℕ) (b : Text) → drop (suc (length a)) (a ++ x ∷ b) ≡ b
drop-suc-append [] x b = refl
drop-suc-append (y ∷ a) x b = drop-suc-append a x b

parse_remote-cut :
    (host rest : Text)
    → host ≢ []
    → All (λ c. c ≢ b':') host
    → has_prefix rest slash ≡ true
    → parse_remote (host ++ b':' ∷ rest) ≡ some (parse_rest host rest)
unfolding parse_remote
parse_remote-cut host rest ne h abs = ground (arith, cut-append host rest b':' h)

-- `host:path` reads back as the host and the cleaned path, with no pod path, if the path is
-- absolute and holds no `:/`.
pub parse_remote_two :
    (host path : Text)
    → host ≢ []
    → All (λ c. c ≢ b':') host
    → has_prefix path slash ≡ true
    → Plain path
    → parse_remote (host ++ b':' ∷ path) ≡ some (record { host = host; path = clean path; at = [] })
unfolding parse_rest
parse_remote_two host path ne h abs p = parse_remote-cut host path ne h abs ∙ ground arith

parse_rest_three :
    (host path at : Text) (c : ℕ)
    → last_index (b':' ∷ at) colon_slash ≡ some 0
    → parse_rest host ((c ∷ path) ++ b':' ∷ at)
      ≡ record { host = host; path = clean (c ∷ path); at = at }
unfolding parse_rest
parse_rest_three host path at c e = ground (
  arith,
  last_index-append (c ∷ path) (b':' ∷ at) colon_slash 0 e,
  add-zero (length (c ∷ path)),
  take-append_self (c ∷ path) (b':' ∷ at),
  drop-suc-append (c ∷ path) b':' at,
)

-- `host:path:at` reads back as its three parts, the path cleaned, if both paths are absolute and
-- the pod path holds no `:/`; the remote path may hold one.
pub parse_remote_three :
    (host path at : Text)
    → host ≢ []
    → All (λ c. c ≢ b':') host
    → has_prefix path slash ≡ true
    → has_prefix at slash ≡ true
    → Plain at
    → parse_remote (host ++ b':' ∷ (path ++ b':' ∷ at))
      ≡ some (record { host = host; path = clean path; at = at })
parse_remote_three host [] at ne h abs abs' p = absurd (unfold has_prefix in cc)
parse_remote_three host (c ∷ path) at ne h abs abs' p =
    parse_remote-cut host ((c ∷ path) ++ b':' ∷ at) ne h
      (has_prefix_more (c ∷ path) (b':' ∷ at) slash abs)
    ∙ ap some (parse_rest_three host path at c (last_index_here at abs' p))

parse_rest-host : (host rest : Text) → (parse_rest host rest).host ≡ host
unfolding parse_rest
parse_rest-host host rest = ground arith

-- The host of a remote mount is never empty, and holds no colon.
pub parse_remote-host :
    (s : Text) (r : Remote) → parse_remote s ≡ some r → (r.host ≢ []) × All (λ c. c ≢ b':') r.host
unfolding parse_remote
parse_remote-host s r h = elim (Option-cases (cut s b':')) [
  | inl e ↦ absurd (ground arith)
  | inr ((host, rest), e) ↦
      let named : host ≢ [] = ground arith in
      let same : r ≡ parse_rest host rest = ground arith in
      let at : r.host ≡ host = ap (λ (q : Remote). q.host) same ∙ parse_rest-host host rest in
      (λ z. named (sym at ∙ z), subst (All (λ c. c ≢ b':')) (sym at) (cut_sound s b':' e).1)
]
