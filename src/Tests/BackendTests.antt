-- ===== src/Tests/BackendTests.antt =====
-- internal/daemon/backend.go and internal/daemon/ports.go at concrete inputs.
use vibepod.Base.{List, Option, none, true, false, some, [], ◌∷◌, ◌≡◌, ◌≢◌, refl, ◌↔◌, arith}
use vibepod.Base.{Text, codes, contains, text_eq, nat_eq, In, All, ◌==◌, ◌||◌, sort_by, insert_by}
use vibepod.Base.Dict.{lookup, insert, get_or}
use vibepod.Strings.{text_lt, has_prefix, trim_suffix}
use vibepod.Filepath.{clean}
use vibepod.Proto.{PortSpec, Held}
use vibepod.Daemon.Hosts.{
  pod_named, pod_host_list, host_dirs, host_names, host_infos, host_info, others, unmounted_hosts,
  see_rules, see_rule, declare_all, declare, is_there, identities, names_of, rule_names, owned_dirs,
  names_of-pod_host_list,
}
use vibepod.Daemon.Dispatch.{
  DispatchReq, run_at, holds, place_dir, on_node, asked_backend, dispatch,
}
use vibepod.Route.{private, under, pod, Table}
use vibepod.Daemon.Backends.{
  Backends, backend_of, or_default, in_rules, known_backend, target_of, set_backend, SetResult,
  set_backend_result, UseMsg, use_backend, use_backend_own, note_home_dir,
  set_backend-note_home_dir, add_machines, add_named, add_rules, reachable, reachable_iff, runs_on,
  resolve_tool, forward, ForwardResult, forward_result,
}

abbrev gpu : Text
gpu = codes "gpu03"

abbrev table : Table
table = record {
  rules =
      record { prefix = codes "/data"; owner = gpu; remote_path = codes "/data"; exec_on = [] }
      ∷ [];
  default = pod;
}

abbrev state : Backends
state = record {
  table = table;
  machines = codes "gpu05" ∷ [];
  tool_hosts = [];
  backends = (codes "s1", gpu) ∷ [];
  sessions = (codes "s2", true) ∷ [];
  told_local = [];
}

move_test : backend_of (set_backend true state (codes "s2") gpu).1 (codes "s2") ≡ gpu
unfolding backend_of set_backend or_default known_backend in_rules target_of insert lookup text_eq
    nat_eq
move_test = refl

set_backend_result_example :
    SetResult state (codes "s2") (target_of state gpu) (set_backend true state (codes "s2") gpu)
set_backend_result_example = set_backend_result true state (codes "s2") gpu

abbrev message : UseMsg
message = record { session = []; backend = gpu; target = [] }

other_session : codes "s1" ≢ codes "s2"
other_session = ground arith

use_backend_own_run :
    backend_of (use_backend true state (some (codes "s2")) message).1 (codes "s1")
    ≡ backend_of state (codes "s1")
use_backend_own_run = use_backend_own true state (codes "s2") message (codes "s1") other_session

no_zero : contains (codes "s2") 0 ≡ false
unfolding nat_eq
no_zero = refl

told_again :
    (note_home_dir (set_backend true state (codes "s2") gpu).1 (codes "s2") gpu).0
    ≡ (note_home_dir state (codes "s2") gpu).0
told_again = set_backend-note_home_dir true state (codes "s2") gpu (codes "s2") gpu no_zero

all_named : contains state.machines [] ≡ false
unfolding text_eq
all_named = refl

reachable_test : reachable state ≡ gpu ∷ codes "gpu05" ∷ []
unfolding reachable add_machines add_rules add_named sort_by text_lt text_eq nat_eq
reachable_test = refl

reachable_iff_example :
    In gpu (reachable state) ↔ ((gpu ≢ pod) × (gpu ≢ []) × (known_backend state gpu ≡ true))
reachable_iff_example = reachable_iff state gpu all_named

tool_test : resolve_tool state (codes "s1") (codes "nvcc") ≡ runs_on gpu
unfolding resolve_tool backend_of or_default lookup text_eq nat_eq
tool_test = refl

abbrev port : PortSpec
port = record { host = gpu; remote_port = 8888; local_port = 8888 }

forward_result_example : ForwardResult state [] port (forward true state [] port)
forward_result_example = forward_result true state [] port tt

abbrev request : DispatchReq
request = record {
  session = codes "s1";
  backend = [];
  cwd = codes "/data/run";
  argv = codes "make" ∷ [];
  files = 3;
}

abbrev held_data : Held
held_data = record {
  at = codes "/data";
  host = gpu;
  path = codes "/data";
  native = true;
  read_only = false;
  generation = 1;
  relayed = false;
  hop = false;
}

abbrev node_pods : Text → Option (List Held)
node_pods host = some (held_data ∷ [])

dispatch_test : (dispatch state node_pods none request).0 ≡ run_at gpu (codes "/data/run")
unfolding dispatch on_node place_dir holds asked_backend backend_of or_default known_backend
    in_rules private under clean has_prefix trim_suffix lookup text_eq nat_eq
dispatch_test = refl

-- A machine with a directory, one that is only declared, and one of the ssh config.
abbrev machines_of_ssh : List Text
machines_of_ssh = codes "gpu03" ∷ codes "laptop" ∷ []

pod_host_list_run :
    names_of (pod_host_list (λ _. false) (codes "gpu05" ∷ []) machines_of_ssh [] table)
    ≡ codes "pod" ∷ gpu ∷ codes "gpu05" ∷ codes "laptop" ∷ []
unfolding pod_host_list host_dirs host_names host_infos host_info others unmounted_hosts see_rules
    see_rule declare_all declare is_there identities sort_by insert_by text_lt lookup insert get_or
    text_eq nat_eq
pod_host_list_run = refl

names_of-pod_host_list_example :
    ((n : Text)
      → contains
          (names_of (pod_host_list (λ _. false) (codes "gpu05" ∷ []) machines_of_ssh [] table))
          n
        ≡ (n == pod
            || contains (codes "gpu05" ∷ []) n
            || rule_names (identities []) n table.rules
            || contains machines_of_ssh n))
    × All
        (λ h. h.dirs ≡ sort_by text_lt (owned_dirs (identities []) h.name table.rules))
        (pod_host_list (λ _. false) (codes "gpu05" ∷ []) machines_of_ssh [] table)
names_of-pod_host_list_example =
    names_of-pod_host_list (λ _. false) (codes "gpu05" ∷ []) machines_of_ssh [] table

-- The only pod need not be named.
pod_named_run : pod_named {P = Text} ((codes "p", gpu) ∷ []) [] ≡ some gpu
unfolding pod_named lookup text_eq nat_eq
pod_named_run = refl
