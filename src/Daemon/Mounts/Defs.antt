-- ===== src/Daemon/Mounts/Defs.antt =====
-- internal/daemon/mount.go: the live mount list, and what may be added to it.
use vibepod.Base.{
  ℕ, suc, Bool, true, false, not, ◌&&◌, ◌||◌, Option, none, some, List, [], ◌∷◌, ◌++◌,
}
use vibepod.Base.{Text, codes, ◌==◌, if◌then◌else◌, text_eq}
use vibepod.Filepath.{clean}
use vibepod.Base.Dict.{Dict, insert}
use vibepod.Proto.{MountSpec}
use vibepod.Route.{under}
use vibepod.Config.Guard.{GuardError, guard_path}

-- `mountRec`. The FUSE mount below it is named by its mountpoint, `src`.
pub record MountRec : Type 0 where
  pub at : Text
  pub src : Text
  pub owner : Text
  pub remote_path : Text
  pub exec_on : Text
  pub kind : Text
  pub read_only : Bool
  pub requires : List Text
  pub cache : Text
  pub prefetch : Bool
  pub gen : ℕ
  pub many_writers : Bool
  pub via : Text
  pub expose_to : List Text
  pub runtime : Bool
  pub identity : Bool

-- `mountAt`.
unfoldable pub mount_at : List MountRec → Text → Option MountRec
mount_at [] at = none
mount_at (m ∷ ms) at = if m.at == at then some m else mount_at ms at

-- The errors of `checkNewMount` and `addMount`; a nil error is `none`, a mount is `added`.
pub data MountError : Type 0 where
  guarded : GuardError → MountError
  already_mounted : Text → MountError
  would_shadow : Text → Text → MountError
  overlaps_source : Text → Text → MountError
  mode_is_sync : MountError
  unknown_mode : Text → MountError
  call_failed : MountError

-- Do two paths contain one another?
unfoldable pub nested : Text → Text → Bool
nested a b = under a b || under b a

-- One turn of the loop of `checkNewMount`.
unfoldable pub check_against : Text → Text → Text → Bool → MountRec → Option MountError
check_against at host path runtime m =
    if m.at == at
    then some (already_mounted at)
    else if runtime && nested at m.at
    then some (would_shadow at m.at)
    else if m.owner == host
        && not (path == [])
        && not (m.remote_path == [])
        && nested path m.remote_path
    then some (overlaps_source path m.remote_path)
    else none

unfoldable pub check_loop : Text → Text → Text → Bool → List MountRec → Option MountError
check_loop at host path runtime [] = none
check_loop at host path runtime (m ∷ ms) =
    let rest = check_loop at host path runtime ms in
    elim (check_against at host path runtime m) [ some e ↦ some e | none ↦ rest ]

-- `checkNewMount`
unfoldable pub check_new_mount : List MountRec → Text → Text → Text → Bool → Option MountError
check_new_mount ms at host path runtime = elim (guard_path (clean at)) [
  | some e ↦ some (guarded e)
  | none ↦ check_loop (clean at) host path runtime ms
]

-- The part of `podState` that `addMount` changes.
pub record Live : Type 0 where
  pub mounts : List MountRec
  pub gen : ℕ
  pub mount_count : ℕ
  pub many_writers : Dict Text Bool

-- How the calls of `addMount` that leave the program turn out: a FUSE backend is there (`backend`
-- is its name), the machine answers, and the file system mounts. `point` names the n-th mountpoint
-- in the pod's run directory.
pub record Calls : Type 0 where
  pub picked : Bool
  pub backend : Text
  pub warm : Bool
  pub mounted : Bool
  pub point : ℕ → Text

unfoldable pub added_rec : Calls → Live → MountSpec → Text → Bool → MountRec
added_rec c s rm at runtime = record {
  at = at;
  src = c.point (suc s.mount_count);
  owner = rm.host;
  remote_path = rm.path;
  exec_on = rm.exec_on;
  kind = c.backend;
  read_only = rm.read_only;
  requires = rm.requires;
  cache = rm.cache;
  prefetch = rm.prefetch;
  gen = suc s.gen;
  many_writers = rm.many_writers;
  via = rm.via;
  expose_to = [];
  runtime = runtime;
  identity = false;
}

-- The calls of `addMount`, past its checks; the number of the mountpoint is spent before the
-- file system is mounted.
unfoldable pub bring_up : Calls → Live → MountSpec → Text → Bool → Option MountError × Live
bring_up c s rm at runtime =
    let s1 = record s { mount_count = suc s.mount_count } in
    let many = if rm.many_writers then insert at true s.many_writers else s.many_writers in
    if not (c.picked && c.warm)
    then (some call_failed, s)
    else if not c.mounted
    then (some call_failed, s1)
    else (
      none,
      record s1 {
        gen = suc s.gen;
        many_writers = many;
        mounts = s.mounts ++ added_rec c s rm at runtime ∷ [];
      },
    )

-- `at`, which is the remote path where none is given
unfoldable pub mount_path : MountSpec → Text
mount_path rm = if rm.at == [] then rm.path else rm.at

unfoldable pub checked_add :
    Calls → Live → MountSpec → Bool → Option MountError → Option MountError × Live
checked_add c s rm runtime (some e) = (some e, s)
checked_add c s rm runtime none = bring_up c s rm (mount_path rm) runtime

-- `addMount`
unfoldable pub add_mount : Calls → Live → MountSpec → Bool → Option MountError × Live
add_mount c s rm runtime =
    if rm.mode == codes "sync"
    then (some mode_is_sync, s)
    else if not (rm.mode == [] || rm.mode == codes "fuse")
    then (some (unknown_mode rm.mode), s)
    else checked_add c s rm runtime
        (check_new_mount s.mounts (mount_path rm) rm.host rm.path runtime)
