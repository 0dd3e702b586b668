-- ===== src/Daemon/Dispatch/Laws.antt =====
-- internal/daemon/backend.go, `dispatch`: where a command may run.
use vibepod.Base.{true, false, Option, none, some, List, [], ◌≡◌, ◌≢◌, ◌⊎◌}
use vibepod.Base.{text_eq, nat_eq, ltb, length}
use vibepod.Proto.{Held}
use vibepod.Route.{pod, owner_of, private}
use vibepod.Daemon.Backends.{Backends, known_backend}
use vibepod.Daemon.Dispatch.Defs.{
  DispatchReq, Placement, nothing_to_run, needs_files, no_machine, private_dir, in_pod, no_node_pod,
  behind, run_at, holds, asked_backend,
}

-- What a placement says of the request; `now` is what the machine held, `later` what it holds after
-- a reconciliation.
abbrev pub Placed :
    Backends → Option (List Held) → Option (List Held) → DispatchReq → Placement → Type 0
Placed s now later r nothing_to_run = length r.argv ≡ 0
Placed s now later r needs_files = ltb r.files 3 ≡ true
Placed s now later r (no_machine b) =
    (b ≡ asked_backend s r) × (b ≢ pod) × (known_backend s b ≡ false)
Placed s now later r (private_dir cwd b) =
    (cwd ≡ r.cwd) × (b ≡ asked_backend s r) × (b ≢ pod) × (private cwd ≡ true)
Placed s now later r in_pod = asked_backend s r ≡ pod
Placed s now later r (no_node_pod b) = (b ≡ asked_backend s r) × (now ≡ none)
Placed s now later r (behind b cwd) =
    (b ≡ asked_backend s r)
    × (cwd ≡ r.cwd)
    × (owner_of (some s.table) cwd ≢ pod)
    × ((held : List Held) → later ≡ some held → holds held cwd ≡ false)
Placed s now later r (run_at b dir) =
    (b ≡ asked_backend s r)
    × (b ≢ pod)
    × (known_backend s b ≡ true)
    × (private r.cwd ≡ false)
    × (((dir ≡ r.cwd)
          × ((held : List Held) × ((now ≡ some held) ⊎ (later ≡ some held))
              × (holds held dir ≡ true)))
        ⊎ ((dir ≡ []) × (owner_of (some s.table) r.cwd ≡ pod)))

abbrev PlacedIn :
    Backends → Option (List Held) → Option (List Held) → DispatchReq → Placement × Backends → Type 0
PlacedIn s now later r (p, _) = Placed s now later r p
