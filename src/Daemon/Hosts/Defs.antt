-- ===== src/Daemon/Hosts/Defs.antt =====
-- internal/daemon/daemon.go: `hostList`, and the pod that a request means (`lookup`).
use vibepod.Base.{Bool, true, false, not, ◌||◌, Option, none, some, List, [], ◌∷◌, ◌++◌}
use vibepod.Base.{Text, ◌==◌, contains, if◌then◌else◌, text_eq, nat_eq, length, sort_by}
use vibepod.Base.Dict.{Dict, lookup, insert, get_or}
use vibepod.Strings.{text_lt}
use vibepod.Route.{pod, Rule, Table}
use vibepod.Daemon.Mounts.{MountRec}

-- `lookup`
unfoldable pub pod_named : {P : Type 0} → Dict Text P → Text → Option P
pod_named [] name = none
pod_named ((k, p) ∷ []) name = if name == [] || name == k then some p else none
pod_named (x ∷ y ∷ d) name = lookup name (x ∷ y ∷ d)

-- `HostInfo`
pub record HostInfo : Type 0 where
  pub name : Text
  pub local : Bool
  pub connected : Bool
  pub mounted : Bool
  pub dirs : List Text
  pub default : Bool

unfoldable pub is_there : {A : Type 0} → Option A → Bool
is_there none = false
is_there (some a) = true

-- An entry for a machine, with no directory if it has none yet.
unfoldable pub declare : Text → Dict Text (List Text) → Dict Text (List Text)
unfolding is_there
declare name d = if is_there (lookup name d) then d else insert name [] d

unfoldable pub declare_all : List Text → Dict Text (List Text) → Dict Text (List Text)
unfolding declare
declare_all [] d = d
declare_all (n ∷ ns) d = declare_all ns (declare n d)

-- The places of the mounts that are identities.
unfoldable pub identities : List MountRec → List Text
identities [] = []
identities (m ∷ ms) = let rest = identities ms in if m.identity then m.at ∷ rest else rest

unfoldable pub see_rule : List Text → Rule → Dict Text (List Text) → Dict Text (List Text)
unfolding declare
see_rule ids r d =
    let owned = insert r.owner (get_or r.owner d [] ++ r.prefix ∷ []) d in
    if contains ids r.prefix
    then d
    else if not (r.exec_on == [])
    then declare r.exec_on owned
    else owned

unfoldable pub see_rules : List Text → List Rule → Dict Text (List Text) → Dict Text (List Text)
unfolding see_rule
see_rules ids [] d = d
see_rules ids (r ∷ rs) d = see_rules ids rs (see_rule ids r d)

unfoldable pub others : Dict Text (List Text) → List Text
others [] = []
others ((k, v) ∷ d) = let rest = others d in if k == pod then rest else k ∷ rest

unfoldable pub unmounted_hosts : Dict Text (List Text) → List Text → List Text
unfolding is_there
unmounted_hosts d [] = []
unmounted_hosts d (h ∷ hs) =
    let rest = unmounted_hosts d hs in if is_there (lookup h d) then rest else h ∷ rest

unfoldable pub host_names : Dict Text (List Text) → List Text → List Text
unfolding others unmounted_hosts
host_names d ssh_hosts = pod ∷ (sort_by text_lt (others d) ++ unmounted_hosts d ssh_hosts)

unfoldable pub host_info : (Text → Bool) → Text → Dict Text (List Text) → Text → HostInfo
host_info reachable default d name = record {
  name = name;
  local = name == pod;
  connected = name == pod || reachable name;
  mounted = name == pod || not (length (get_or name d []) == 0);
  dirs = sort_by text_lt (get_or name d []);
  default = name == default;
}

unfoldable pub host_infos : (Text → Bool) → Text → Dict Text (List Text) → List Text → List HostInfo
unfolding host_info
host_infos reachable default d [] = []
host_infos reachable default d (n ∷ ns) =
    host_info reachable default d n ∷ host_infos reachable default d ns

-- The map of `hostList` from machines to their directories.
unfoldable pub host_dirs : List Text → List MountRec → Table → Dict Text (List Text)
unfolding declare_all identities see_rules
host_dirs declared mounts table =
    see_rules (identities mounts) table.rules (declare_all declared [])

-- `hostList`, for the machines that the configuration declares, those of the ssh config, and the
-- machines to which there is a connection.
unfoldable pub pod_host_list :
    (Text → Bool) → List Text → List Text → List MountRec → Table → List HostInfo
unfolding host_dirs host_names host_infos
pod_host_list reachable declared ssh_hosts mounts table =
    let d = host_dirs declared mounts table in
    host_infos reachable table.default d (host_names d ssh_hosts)
