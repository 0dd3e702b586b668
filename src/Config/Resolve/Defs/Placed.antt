-- ===== src/Config/Resolve/Defs/Placed.antt =====
-- internal/config/config.go, `Resolve`: the loops over the mounts and the host access.
use vibepod.Base.{Bool, true, false, not, ◌&&◌, ◌||◌, Option, none, some, List, [], ◌∷◌, ◌++◌}
use vibepod.Base.{Text, codes, ◌==◌, contains, if◌then◌else◌, text_eq, nat_eq}
use vibepod.Base.Dict.{Dict, lookup, insert}
use vibepod.Strings.{has_prefix, cut, trim_prefix}
use vibepod.Filepath.{clean, is_abs, join_path}
use vibepod.Proto.{MountSpec}
use vibepod.Config.Guard.{guard_path, is_under}
use vibepod.Config.Remote.{Remote, parse_remote}
use vibepod.Config.Resolve.Defs.Types.{
  Mount, ResolveError, both_sides, neither_side, no_home, missing_local, guarded, both_claim,
  not_exposed, bad_remote, two_names, overlaps, bad_mode, bad_via, bad_writers, Result, ok, err,
  ◌>>=◌, Os,
}

-- What the loop over the mounts has so far.
pub record Placing : Type 0 where
  pub claimed : Dict Text Text
  pub origins : Dict Text Text
  pub mounts : List MountSpec

-- The closure `claim`.
unfoldable pub claim : Placing → Text → Text → Result Placing
claim p at by = elim (guard_path (clean at)) [
  | some e ↦ err (guarded by e)
  | none ↦ elim (lookup (clean at) p.claimed) [
    | some prev ↦ err (both_claim prev by (clean at))
    | none ↦ ok (record p { claimed = insert (clean at) by p.claimed })
  ]
]

-- `before, after, _ := strings.Cut(t, ":")`: with no colon, the whole text and nothing.
unfoldable pub cut_or_all : Text → Text × Text
cut_or_all t = elim (cut t b':') [ none ↦ (t, []) | some (a, b) ↦ (a, b) ]

-- The inner loop over `origins`: the first mount of the same machine whose directory this one
-- contains or lies in.
unfoldable pub overlap : Dict Text Text → Text → Text → Option (Text × Text)
unfolding cut_or_all
overlap [] host path = none
overlap ((prev, by) ∷ origins) host path =
    let (ph, pp) = cut_or_all prev in
    if ph == host && (is_under path pp || is_under pp path)
    then some (prev, by)
    else overlap origins host path

unfoldable pub expand : Os → Text → Result Text
unfolding has_prefix trim_prefix join_path
expand os p = do
  q ←
      if has_prefix p (codes "~")
      then elim os.home [
        | none ↦ err (no_home p)
        | some home ↦ ok (join_path home (trim_prefix p (codes "~")))
      ]
      else ok p
  r ←
      if is_abs q
      then ok q
      else elim os.working [ none ↦ err (no_home p) | some dir ↦ ok (join_path dir q) ]
  ok (clean r)

-- A spec with every field at its zero value.
abbrev pub bare_spec : Text → MountSpec
bare_spec at = record {
  at = at;
  src = [];
  host = [];
  path = [];
  read_only = false;
  mode = [];
  exec_on = [];
  identity = false;
  requires = [];
  cache = [];
  prefetch = false;
  generation = 0;
  many_writers = false;
  via = [];
  expose_to = [];
  relay = none;
}

-- The mount that `Resolve` appends for a directory of this machine.
unfoldable pub local_spec : Mount → Text → Text → MountSpec
local_spec m src at = record (bare_spec at) {
  src = src;
  read_only = m.read_only;
  exec_on = m.exec_on;
  expose_to = m.expose_to;
}

-- Where a directory of this machine stands in the pod.
unfoldable pub local_at : Mount → Text → Text
local_at m src = if m.at == [] then src else m.at

-- It may be meant to run only on a machine that it is exposed to.
unfoldable pub exposed : Mount → Bool
exposed m = m.exec_on == [] || contains m.expose_to m.exec_on

-- The case `m.Local != ""`.
unfoldable pub place_local : Os → Placing → Mount → Result Placing
place_local os p m = do
  src ← expand os m.local
  let at = local_at m src
  q ← if os.exists src then claim p at m.local else err (missing_local m.local)
  if exposed m
      then ok (record q { mounts = q.mounts ++ local_spec m src at ∷ [] })
      else err (not_exposed m.local m.exec_on)

abbrev pub known_mode : Text → Bool
known_mode mode = mode == codes "fuse" || mode == codes "sync"

abbrev pub known_via : Text → Bool
known_via via = via == [] || via == codes "auto" || via == codes "direct" || via == codes "relay"

abbrev pub known_writers : Text → Bool
known_writers writers = writers == [] || writers == codes "one" || writers == codes "many"

-- The mount that `Resolve` appends for a remote directory.
unfoldable pub remote_spec : Mount → Remote → Text → MountSpec
remote_spec m r at = record (bare_spec at) {
  host = r.host;
  path = r.path;
  read_only = m.read_only;
  mode = if m.mode == [] then codes "fuse" else m.mode;
  exec_on = m.exec_on;
  requires = m.requires;
  cache = m.cache;
  prefetch = m.prefetch;
  many_writers = m.writers == codes "many";
  via = m.via;
}

-- Where a remote mount stands in the pod.
unfoldable pub remote_at : Mount → Remote → Text
remote_at m r = if m.at == [] then (if r.at == [] then r.path else r.at) else m.at

-- The switches on `mode:`, `via:` and `writers:`.
unfoldable pub check_options : Mount → Option ResolveError
check_options m =
    if not (known_mode (if m.mode == [] then codes "fuse" else m.mode))
    then some (bad_mode m.remote m.mode)
    else if not (known_via m.via)
    then some (bad_via m.remote m.via)
    else if not (known_writers m.writers)
    then some (bad_writers m.remote m.writers)
    else none

-- The case `m.Remote != ""`, once the text is parsed.
unfoldable pub place_parsed : Placing → Mount → Remote → Result Placing
place_parsed p m r =
    if not (r.at == []) && not (m.at == []) && not (clean r.at == clean m.at)
    then err (two_names m.remote r.at m.at)
    else do
      let at = remote_at m r
      p' ← claim p at m.remote
      elim (overlap p'.origins r.host r.path) [
        | some (prev, by) ↦ err (overlaps m.remote by)
        | none ↦ elim (check_options m) [
          | some e ↦ err e
          | none ↦ ok (record p' {
            origins = insert (r.host ++ b':' ∷ r.path) m.remote p'.origins;
            mounts = p'.mounts ++ remote_spec m r at ∷ [];
          })
        ]
      ]

unfoldable pub place_remote : Placing → Mount → Result Placing
place_remote p m = elim (parse_remote m.remote) [
  | none ↦ err (bad_remote m.remote)
  | some r ↦ place_parsed p m r
]

-- The body of the loop over `c.Mounts`.
unfoldable pub place : Os → Placing → Mount → Result Placing
place os p m =
    if not (m.local == []) && not (m.remote == [])
    then err (both_sides m.local)
    else if not (m.local == [])
    then place_local os p m
    else if not (m.remote == [])
    then place_remote p m
    else err neither_side

unfoldable pub place_all : Os → Placing → List Mount → Result Placing
place_all os p [] = ok p
place_all os p (m ∷ ms) = place os p m >>= λ p'. place_all os p' ms

unfoldable pub identity_spec : Text → MountSpec
identity_spec src = record (bare_spec src) { src = src; identity = true }

unfoldable pub claim_identity : Placing → Text → Text → Result Placing
claim_identity p src path =
    claim p src path >>= λ q. ok (record q { mounts = q.mounts ++ identity_spec src ∷ [] })

-- The loop over `host_access`: a path that is not there is passed over.
unfoldable pub place_identity : Os → Placing → Text → Result Placing
place_identity os p path = do
  src ← expand os path
  if os.exists src then claim_identity p src path else ok p

unfoldable pub place_access : Os → Placing → List Text → Result Placing
place_access os p [] = ok p
place_access os p (s ∷ ss) = place_identity os p s >>= λ p'. place_access os p' ss
