-- ===== src/Daemon/Unmount/Defs.antt =====
-- internal/daemon/mount.go: `removeMount`, with the table of routes and the sessions that it moves.
-- A mount is told from another, as a pointer is, by the generation under which it was added.
-- `cwds` are the sessions with the directories in which they began, in the order of the range.
use vibepod.Base.{ℕ, suc, Bool, not, ◌||◌, Option, none, some, List, [], ◌∷◌, map}
use vibepod.Base.{Text, codes, ◌==◌, if◌then◌else◌, text_eq, nat_eq}
use vibepod.Base.Dict.{Dict}
use vibepod.Strings.{has_prefix, trim_prefix}
use vibepod.Filepath.{clean}
use vibepod.Route.{pod, Rule, new, under}
use vibepod.Daemon.Mounts.{MountRec, Live}
use vibepod.Daemon.Backends.{Backends, known_backend, set_backend}

-- A mount is the source of a rule in `rebuildRoutes`.
unfoldable pub rule_of : MountRec → Rule
rule_of m = record {
  prefix = m.at;
  owner = m.owner;
  remote_path = m.remote_path;
  exec_on = m.exec_on;
}

-- `rebuildRoutes`
unfoldable pub rebuild_routes : Live → Backends → Backends
unfolding rule_of
rebuild_routes s b = record b { table = new b.table.default (map rule_of s.mounts) }

unfoldable pub owned_by : Text → List MountRec → List MountRec
owned_by host [] = []
owned_by host (m ∷ ms) = if m.owner == host then m ∷ owned_by host ms else owned_by host ms

unfoldable pub mounted_at : Text → List MountRec → List MountRec
mounted_at at [] = []
mounted_at at (m ∷ ms) = if m.at == at then m ∷ mounted_at at ms else mounted_at at ms

unfoldable pub or_at : Text → List MountRec → List MountRec → List MountRec
or_at what ms [] = mounted_at (clean what) ms
or_at what ms (h ∷ hs) = h ∷ hs

-- The mounts that `what` names: a machine, or else a path in the pod.
unfoldable pub hits : Text → List MountRec → List MountRec
unfolding owned_by mounted_at or_at
hits what ms =
    let host = trim_prefix what (codes "@") in
    or_at what ms
      (if not (host == what) || not (has_prefix what (codes "/")) then owned_by host ms else [])

-- `sessionIn`, over the sessions with the directories where they began.
unfoldable pub session_in : Dict Text Text → Text → Option Text
session_in [] at = none
session_in ((id, cwd) ∷ cwds) at = if under cwd at then some id else session_in cwds at

pub data UnmountError : Type 0 where
  nothing_mounted : Text → UnmountError
  session_works_in : Text → Text → UnmountError
  unbind_failed : Text → UnmountError

unfoldable pub or_rest : Text → Option UnmountError → Option Text → Option UnmountError
or_rest at rest none = rest
or_rest at rest (some id) = some (session_works_in id at)

unfoldable pub busy : Dict Text Text → List MountRec → Option UnmountError
unfolding or_rest
busy cwds [] = none
busy cwds (m ∷ ms) = or_rest m.at (busy cwds ms) (session_in cwds m.at)

-- The mount is taken out of the list, as `dropMount` does it too.
unfoldable pub drop_mount : ℕ → List MountRec → List MountRec
drop_mount gen [] = []
drop_mount gen (m ∷ ms) = if m.gen == gen then ms else m ∷ drop_mount gen ms

-- The loop that unmounts; `unbinds` says for which paths the pod answers without an error.
unfoldable pub unmount_all :
    (Text → Bool) → List MountRec → List MountRec → Option UnmountError × List MountRec
unfolding drop_mount
unmount_all unbinds [] ms = (none, ms)
unmount_all unbinds (h ∷ hs) ms =
    let rest = unmount_all unbinds hs (drop_mount h.gen ms) in
    if unbinds h.at then rest else (some (unbind_failed h.at), ms)

-- The sessions recorded on a machine.
unfoldable pub stranded : Text → Dict Text Text → List Text
stranded host [] = []
stranded host ((id, b) ∷ d) = if b == host then id ∷ stranded host d else stranded host d

-- They go back to the pod; `switched` is how `switchTo` turns out for each, whose error is dropped.
unfoldable pub send_home : (Text → Bool) → List Text → Backends → Backends
send_home switched [] b = b
send_home switched (id ∷ ids) b = send_home switched ids (set_backend (switched id) b id pod).1

-- One mount that has gone.
unfoldable pub settle_one : (Text → Bool) → MountRec → Backends → Backends
unfolding send_home stranded
settle_one switched h b =
    if known_backend b h.owner then b else send_home switched (stranded h.owner b.backends) b

unfoldable pub settle : (Text → Bool) → List MountRec → Backends → Backends
unfolding settle_one
settle switched [] b = b
settle switched (h ∷ hs) b = settle switched hs (settle_one switched h b)

unfoldable pub unmounted :
    (Text → Bool)
    → List MountRec
    → Live
    → Backends
    → Option UnmountError × List MountRec
    → Option UnmountError × Live × Backends
unfolding settle rebuild_routes
unmounted switched hs s b (some e, ms) = (some e, record s { mounts = ms }, b)
unmounted switched hs s b (none, ms) =
    let s' = record s { mounts = ms; gen = suc s.gen } in
    (none, s', settle switched hs (rebuild_routes s' b))

unfoldable pub unless_busy :
    (Text → Bool)
    → (Text → Bool)
    → List MountRec
    → Live
    → Backends
    → Option UnmountError
    → Option UnmountError × Live × Backends
unfolding unmounted unmount_all
unless_busy unbinds switched hs s b (some e) = (some e, s, b)
unless_busy unbinds switched hs s b none =
    unmounted switched hs s b (unmount_all unbinds hs s.mounts)

unfoldable pub remove_found :
    (Text → Bool)
    → (Text → Bool)
    → Dict Text Text
    → Text
    → List MountRec
    → Live
    → Backends
    → Option UnmountError × Live × Backends
unfolding unless_busy busy
remove_found unbinds switched cwds what [] s b = (some (nothing_mounted what), s, b)
remove_found unbinds switched cwds what (h ∷ hs) s b =
    unless_busy unbinds switched (h ∷ hs) s b (busy cwds (h ∷ hs))

-- `removeMount`: the error, the list, and the sessions. The relays and the file systems of the mounts,
-- the event of each, and the reconciliation of the machines that `removeMount` starts are left out.
unfoldable pub remove_mount :
    (Text → Bool)
    → (Text → Bool)
    → Dict Text Text
    → Text
    → Live
    → Backends
    → Option UnmountError × Live × Backends
unfolding remove_found hits
remove_mount unbinds switched cwds what s b =
    remove_found unbinds switched cwds what (hits what s.mounts) s b
