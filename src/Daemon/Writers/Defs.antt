-- ===== src/Daemon/Writers/Defs.antt =====
-- internal/daemon/reconcile.go, `desired`, `isWriter`, `releaseWriter`; internal/daemon/relay.go, `via`.
use vibepod.Base.{Bool, true, false, not, ◌&&◌, ◌||◌, Option, none, some, List, [], ◌∷◌, ◌++◌}
use vibepod.Base.{Text, codes, ◌==◌, contains, if◌then◌else◌, text_eq}
use vibepod.Base.Dict.{Dict, lookup, insert, get_or}
use vibepod.Proto.{MountSpec}
use vibepod.Route.{pod}
use vibepod.Daemon.Mounts.{MountRec}

-- The part of `podState` that decides: who writes to which mount, which mounts take many writers,
-- and how a machine was found to reach another.
pub record Access : Type 0 where
  pub writers : Dict Text Text
  pub many_writers : Dict Text Bool
  pub reach : Dict Text Text

unfoldable pub claimed : Access → Text → Text → Option Text → Bool × Access
claimed a host at (some who) = (who == host, a)
claimed a host at none = (true, record a { writers = insert at host a.writers })

-- `isWriter`: the first to ask for a mount keeps it.
unfoldable pub is_writer : Access → Text → Text → Bool × Access
is_writer a host at =
    if get_or at a.many_writers false then (true, a) else claimed a host at (lookup at a.writers)

unfoldable pub drop_writer : Text → Dict Text Text → Dict Text Text
drop_writer host [] = []
drop_writer host ((at, who) ∷ d) =
    let rest = drop_writer host d in if who == host then rest else (at, who) ∷ rest

-- `releaseWriter`
unfoldable pub release_writer : Access → Text → Access
release_writer a host = record a { writers = drop_writer host a.writers }

-- `!isWriter` stands behind `||`: a mount that is read-only claims nothing.
unfoldable pub read_only_for : Access → Text → MountRec → Bool × Access
read_only_for a host m =
    if m.read_only then (true, a) else let (writes, a') = is_writer a host m.at in (not writes, a')

-- `m.Identity`, and a directory of this machine's own that is not exposed.
unfoldable pub withheld : Text → MountRec → Bool
withheld host m = m.identity || m.owner == pod && not (contains m.expose_to host)

-- Whether one machine can reach another by itself is asked of it over ssh: a parameter.
module _ (can_reach : Text → Text → Bool) where
  unfoldable pub decided : Access → Text → MountRec → Option Text → Text × Access
  decided a host m (some how) = (how, a)
  decided a host m none =
      let how = if can_reach host m.owner then codes "direct" else codes "relay" in
      (how, record a { reach = insert (host ++ 0 ∷ m.owner) how a.reach })

  -- `via`
  unfoldable pub via : Access → Text → MountRec → Text × Access
  via a host m =
      if m.owner == pod
      then (codes "relay", a)
      else if m.owner == host
      then (codes "direct", a)
      else if m.via == codes "direct" || m.via == codes "relay"
      then (m.via, a)
      else decided a host m (lookup (host ++ 0 ∷ m.owner) a.reach)

  -- The body of the loop of `desired`, past its two tests.
  unfoldable pub spec_for : Access → Text → MountRec → MountSpec × Access
  spec_for a host m =
      let (read_only, a1) = read_only_for a host m in
      let (how, a2) = via a1 host m in
      let local = m.owner == pod in
      (
        record {
          at = m.at;
          src = [];
          host = if local then [] else m.owner;
          path = if local then m.src else m.remote_path;
          read_only = read_only;
          mode = [];
          exec_on = [];
          identity = false;
          requires = [];
          cache = m.cache;
          prefetch = m.prefetch;
          generation = m.gen;
          many_writers = false;
          via = how;
          expose_to = [];
          relay = none;
        },
        a2,
      )

  -- `desired`
  unfoldable pub desired : List MountRec → Text → Access → List MountSpec × Access
  desired [] host a = ([], a)
  desired (m ∷ ms) host a =
      let (spec, a1) = spec_for a host m in
      let (rest, a2) = desired ms host a1 in
      let skipped = desired ms host a in if withheld host m then skipped else (spec ∷ rest, a2)
