-- ===== src/Daemon/Backends/Defs.antt =====
-- internal/daemon/backend.go: `backendOf`, `knownBackend`, `setBackend`, `use`, `resolveTool`,
-- `reachable`, `noteHomeDir`.
use vibepod.Base.{Bool, true, false, not, ◌&&◌, ◌||◌, Option, none, some, List, [], ◌∷◌, ◌++◌}
use vibepod.Base.{Text, codes, ◌==◌, contains, if◌then◌else◌, text_eq, sort_by}
use vibepod.Base.Dict.{Dict, lookup, insert, erase, get_or}
use vibepod.Strings.{text_lt}
use vibepod.Route.{pod, Rule, Table}

-- The part of `podState` that says where sessions are. A session in `sessions` stands with the
-- answer of `interactive`.
pub record Backends : Type 0 where
  pub table : Table
  pub machines : List Text
  pub tool_hosts : Dict Text Text
  pub backends : Dict Text Text
  pub sessions : Dict Text Bool
  pub told_local : Dict Text Bool

unfoldable pub or_default : Option Text → Text → Text
or_default none d = d
or_default (some b) d = if b == [] then d else b

-- `backendOf`
unfoldable pub backend_of : Backends → Text → Text
backend_of s session = or_default (lookup session s.backends) s.table.default

-- The loop over the rules in `knownBackend`.
unfoldable pub in_rules : List Rule → Text → Bool
in_rules [] name = false
in_rules (r ∷ rs) name = if r.owner == name || r.exec_on == name then true else in_rules rs name

-- `knownBackend`
unfoldable pub known_backend : Backends → Text → Bool
known_backend s name =
    if name == pod
    then true
    else if in_rules s.table.rules name
    then true
    else contains s.machines name

-- What `setBackend` and `use` may answer; a nil error is `moved`. An error of `switchTo` comes
-- after the move.
pub data Use : Type 0 where
  no_session : Use
  no_machine : Text → Use
  not_in_session : Use
  not_yours : Text → Text → Use
  switch_failed : Use
  moved : Use

-- The machine that `setBackend` is asked for.
unfoldable pub target_of : Backends → Text → Text
target_of s backend = if backend == [] || backend == codes "auto" then s.table.default else backend

-- Whether a shell was to be swapped, and whether that worked.
unfoldable pub switch_shell : Option Bool → Bool → Use
switch_shell none switched = moved
switch_shell (some false) switched = moved
switch_shell (some true) switched = if switched then moved else switch_failed

-- `setBackend`; `switched` is how `switchTo` turns out.
unfoldable pub set_backend : Bool → Backends → Text → Text → Use × Backends
set_backend switched s session backend =
    if session == []
    then (no_session, s)
    else if not (known_backend s (target_of s backend))
    then (no_machine (target_of s backend), s)
    else (
      switch_shell (lookup session s.sessions) switched,
      record s {
        backends = insert session (target_of s backend) s.backends;
        told_local = erase session s.told_local;
      },
    )

-- A message of `vp use`.
pub record UseMsg : Type 0 where
  pub session : Text
  pub backend : Text
  pub target : Text

-- `Daemon.use`
unfoldable pub host_use : Bool → Backends → UseMsg → Use × Backends
host_use switched s m =
    set_backend switched s m.session (if m.backend == [] then m.target else m.backend)

-- `ctlConn.use`: `caller` is none on the host's socket, and on a pod's socket the session that
-- the kernel says the caller is in.
unfoldable pub use_backend : Bool → Backends → Option Text → UseMsg → Use × Backends
use_backend switched s none m = host_use switched s m
use_backend switched s (some id) m =
    if id == []
    then (not_in_session, s)
    else if not (m.session == []) && not (m.session == id)
    then (not_yours id m.session, s)
    else host_use switched s (record m { session = id })

-- The two loops of `reachable`; `out` holds what `seen` holds.
unfoldable pub add_machines : List Text → List Text → List Text
add_machines out [] = out
add_machines out (m ∷ ms) =
    add_machines (if not (m == pod) && not (contains out m) then out ++ m ∷ [] else out) ms

unfoldable pub add_named : List Text → Text → List Text
add_named out name =
    if name == [] || name == pod || contains out name then out else out ++ name ∷ []

unfoldable pub add_rules : List Text → List Rule → List Text
add_rules out [] = out
add_rules out (r ∷ rs) = add_rules (add_named (add_named out r.owner) r.exec_on) rs

-- `reachable`
unfoldable pub reachable : Backends → List Text
reachable s = sort_by text_lt (add_rules (add_machines [] s.machines) s.table.rules)

pub data Tool : Type 0 where
  runs_on : Text → Tool
  no_other_machine : Tool
  which_of : List Text → Tool

-- The end of `resolveTool`: the only machine, or a refusal.
unfoldable pub only_machine : List Text → Tool
only_machine [] = no_other_machine
only_machine (m ∷ []) = runs_on m
only_machine (m ∷ n ∷ ms) = which_of (m ∷ n ∷ ms)

-- `resolveTool`
unfoldable pub resolve_tool : Backends → Text → Text → Tool
resolve_tool s session tool =
    if not (backend_of s session == pod)
    then runs_on (backend_of s session)
    else if not (get_or tool s.tool_hosts [] == [])
    then runs_on (get_or tool s.tool_hosts [])
    else only_machine (reachable s)

-- `noteHomeDir`: whether the notice is sent.
unfoldable pub note_home_dir : Backends → Text → Text → Bool × Backends
note_home_dir s session backend =
    let key = session ++ 0 ∷ backend in
    (not (get_or key s.told_local false), record s { told_local = insert key true s.told_local })
