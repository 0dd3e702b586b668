-- ===== src/Tests/ConfigTests.antt =====
-- internal/config/config.go at concrete inputs.
use vibepod.Base.{true, false, none, some, [], ◌∷◌, ◌++◌, ◌≡◌, ◌≢◌, refl, ◌↔◌, ◌⊎◌, map, arith}
use vibepod.Base.{Text, codes, ◌==◌, contains, text_eq, nat_eq, All, if◌then◌else◌, sort_by}
use vibepod.Base.Dict.{keys, lookup, insert}
use vibepod.Strings.{has_prefix, trim_prefix, trim_suffix, cut, split, text_lt}
use vibepod.Filepath.{clean, is_abs, join_path, slash}
use vibepod.Proto.{MountSpec}
use vibepod.Route.{pod, under}
use vibepod.Config.Guard.{system_paths, guard_path, is_under, guard_path_iff}
use vibepod.Config.Remote.{
  parse_rest, parse_remote, last_index, Plain, parse_remote_two, parse_remote_three,
}
use vibepod.Config.Resolve.{
  Mount, Config, Resolved, Result, ok, err, Os, resolve, resolve_known, claim, cut_or_all, overlap,
  expand, local_spec, local_at, exposed, place_local, remote_spec, remote_at, check_options,
  place_parsed, place_remote, place, place_all, place_access, add_host, add_hosts, mount_hosts,
  add_mounts, port_hosts, values, host_list, port_of, parse_port, parse_ports, hosts_with,
  stray_tool, check_known, assemble, finish_resolve,
}

guard_path_iff_example : (guard_path (codes "/usr/lib/x") ≡ none) ↔ (
    (is_abs (clean (codes "/usr/lib/x")) ≡ true)
    × All (λ s. under s (codes "/usr/lib/x") ≡ false) system_paths)
guard_path_iff_example = guard_path_iff (codes "/usr/lib/x")

abbrev gpu : Text
gpu = codes "gpu03"

no_colon : All (λ c. c ≢ b':') gpu
no_colon = ground arith

not_empty : gpu ≢ []
not_empty = ground arith

data-Plain : Plain (codes "/data")
unfolding last_index has_prefix text_eq nat_eq
data-Plain = refl

abs_data : has_prefix (codes "/data") slash ≡ true
unfolding has_prefix nat_eq
abs_data = refl

abs_odd : has_prefix (codes "/a:/b/") slash ≡ true
unfolding has_prefix nat_eq
abs_odd = refl

gpu_data_remote :
    parse_remote (gpu ++ b':' ∷ codes "/data")
    ≡ some (record { host = gpu; path = clean (codes "/data"); at = [] })
gpu_data_remote = parse_remote_two gpu (codes "/data") not_empty no_colon abs_data data-Plain

parse_remote_three_run :
    parse_remote (gpu ++ b':' ∷ (codes "/a:/b/" ++ b':' ∷ codes "/data"))
    ≡ some (record { host = gpu; path = clean (codes "/a:/b/"); at = codes "/data" })
parse_remote_three_run =
    parse_remote_three gpu (codes "/a:/b/") (codes "/data") not_empty no_colon abs_odd abs_data
      data-Plain

abbrev mount : Text → Text → Mount
mount local remote = record {
  local = local;
  remote = remote;
  at = [];
  mode = [];
  read_only = false;
  exec_on = [];
  expose_to = [];
  requires = [];
  cache = [];
  prefetch = false;
  writers = [];
  via = [];
}

abbrev config : Config
config = record {
  pod_name = codes "demo";
  hosts = [];
  mounts = mount (codes "/home/u/p") [] ∷ mount [] (codes "gpu03:/data") ∷ [];
  host_access = [];
  ports = codes "gpu03:80" ∷ [];
  exec_default = gpu;
  forward_env = record { mode = []; names = [] };
  remote_tools = record { names = []; hosts = (codes "nvcc", gpu) ∷ [] };
  can_mount = [];
  lease = [];
}

abbrev os : Os
os = record {
  home = some (codes "/home/u");
  working = some (codes "/home/u/p");
  exists = λ _. true;
  is_duration = λ _. true;
  scan = λ t. if t == codes "80" then some 80 else none;
}

abbrev or_else : Result Resolved → Resolved → Resolved
or_else (ok r) d = r
or_else (err e) d = d

abbrev nothing : Resolved
nothing = record {
  credentials = [];
  toolbin = [];
  name = [];
  lease = [];
  ports = [];
  machines = [];
  tools = [];
  tool_hosts = [];
  can_mount = [];
  forward_env = record { mode = []; names = [] };
  mounts = [];
  default = [];
}

abbrev resolved : Resolved
resolved = or_else (resolve os config) nothing

accepted : resolve os config ≡ ok resolved
unfolding resolve text_eq nat_eq place_all place place_local expand claim guard_path local_at
    trim_suffix lookup exposed place_remote parse_remote place_parsed remote_at insert keys sort_by
    add_host add_hosts add_mounts assemble check_known check_options cut_or_all finish_resolve
    host_list hosts_with is_under last_index parse_rest local_spec mount_hosts overlap parse_port
    parse_ports place_access port_hosts port_of remote_spec stray_tool values clean is_abs join_path
    cut has_prefix split text_lt trim_prefix
accepted = refl

mount_points :
    map (λ (m : MountSpec). m.at) resolved.mounts ≡ codes "/home/u/p" ∷ codes "/data" ∷ []
unfolding resolve text_eq nat_eq place_all place place_local expand claim guard_path local_at
    trim_suffix lookup exposed place_remote parse_remote place_parsed remote_at insert keys sort_by
    add_host add_hosts add_mounts assemble check_known check_options cut_or_all finish_resolve
    host_list hosts_with is_under last_index parse_rest local_spec mount_hosts overlap parse_port
    parse_ports place_access port_hosts port_of remote_spec stray_tool values clean is_abs join_path
    cut has_prefix split text_lt trim_prefix
mount_points = refl

known_hosts :
    ((resolved.default ≡ pod) ⊎ (contains resolved.machines resolved.default ≡ true))
    × All (λ (_, host). contains resolved.machines host ≡ true) resolved.tool_hosts
known_hosts = resolve_known os config resolved accepted
