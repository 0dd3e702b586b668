-- ===== src/Daemon/Dispatch/Defs.antt =====
-- internal/daemon/backend.go, `dispatch`, and internal/daemon/nodepod.go, `holds`.
use vibepod.Base.{ℕ, Bool, true, false, not, ◌&&◌, Option, none, some, List, [], ◌∷◌}
use vibepod.Base.{Text, ◌==◌, if◌then◌else◌, text_eq, nat_eq, ltb, length}
use vibepod.Proto.{Held}
use vibepod.Route.{pod, under, owner_of, private}
use vibepod.Daemon.Backends.{Backends, backend_of, known_backend, note_home_dir}

-- `dispatchReq`, with the number of descriptors that came with it.
pub record DispatchReq : Type 0 where
  pub session : Text
  pub backend : Text
  pub cwd : Text
  pub argv : List Text
  pub files : ℕ

-- Where a command goes: into the pod here, to a directory on a machine (the empty one is that
-- machine's home), or nowhere.
pub data Placement : Type 0 where
  nothing_to_run : Placement
  needs_files : Placement
  no_machine : Text → Placement
  private_dir : Text → Text → Placement
  in_pod : Placement
  no_node_pod : Text → Placement
  behind : Text → Text → Placement
  run_at : Text → Text → Placement

-- `holds`
unfoldable pub holds : List Held → Text → Bool
holds [] dir = false
holds (h ∷ hs) dir = if under dir h.at then true else holds hs dir

-- The last case: a machine that is behind gets one try to catch up. `caught_up` is what it holds
-- after `reconcile`, none for an error.
unfoldable pub after_catch_up : Option (List Held) → Text → Text → Placement
after_catch_up none backend cwd = behind backend cwd
after_catch_up (some held) backend cwd =
    if holds held cwd then run_at backend cwd else behind backend cwd

-- The `switch` over the directory.
unfoldable pub place_dir :
    Backends → List Held → Option (List Held) → DispatchReq → Text → Placement × Backends
place_dir s held caught_up r backend =
    if holds held r.cwd
    then (run_at backend r.cwd, s)
    else if owner_of (some s.table) r.cwd == pod
    then (run_at backend [], (note_home_dir s r.session backend).1)
    else (after_catch_up caught_up backend r.cwd, s)

-- From the node's pod on: `nodePodFor` gives what it holds, none for an error.
unfoldable pub on_node :
    Backends → Option (List Held) → Option (List Held) → DispatchReq → Text → Placement × Backends
on_node s none caught_up r backend = (no_node_pod backend, s)
on_node s (some held) caught_up r backend = place_dir s held caught_up r backend

-- `r.backend`, or where the session is.
unfoldable pub asked_backend : Backends → DispatchReq → Text
asked_backend s r = if r.backend == [] then backend_of s r.session else r.backend

-- `dispatch`
unfoldable pub dispatch :
    Backends → (Text → Option (List Held)) → Option (List Held) → DispatchReq → Placement × Backends
dispatch s node_pods caught_up r =
    let backend = asked_backend s r in
    if length r.argv == 0
    then (nothing_to_run, s)
    else if ltb r.files 3
    then (needs_files, s)
    else if not (backend == pod) && not (known_backend s backend)
    then (no_machine backend, s)
    else if not (backend == pod) && private r.cwd
    then (private_dir r.cwd backend, s)
    else if backend == pod
    then (in_pod, s)
    else on_node s (node_pods backend) caught_up r backend
