-- ===== src/Config/Resolve/Defs/Assembly.antt =====
-- internal/config/config.go, `HostList`, `ParsePort` and the rest of `Resolve`.
use vibepod.Base.{ℕ, ltb, Bool, not, ◌&&◌, ◌||◌, Option, none, some, List, [], ◌∷◌, ◌++◌}
use vibepod.Base.{Text, codes, ◌==◌, contains, if◌then◌else◌, text_eq, nat_eq, sort_by}
use vibepod.Base.Dict.{Dict, keys}
use vibepod.Strings.{cut, split, text_lt}
use vibepod.Proto.{PortSpec}
use vibepod.Route.{pod}
use vibepod.Config.Remote.{parse_remote}
use vibepod.Config.Resolve.Defs.Types.{
  Host, Mount, Config, Resolved, ResolveError, bad_lease, bad_port, tool_on_unknown,
  unknown_default, Result, ok, err, ◌>>=◌, Os,
}
use vibepod.Config.Resolve.Defs.Placed.{Placing, place_all, place_access}

-- The closure `add` of `HostList`, over what it has so far; `seen` holds what `out` holds.
unfoldable pub add_host : List Text → Text → List Text
add_host out h = if h == [] || h == pod || contains out h then out else out ++ h ∷ []

unfoldable pub add_hosts : List Text → List Text → List Text
unfolding add_host
add_hosts out [] = out
add_hosts out (h ∷ hs) = add_hosts (add_host out h) hs

-- The machines that one mount refers to, in the order in which `HostList` adds them.
unfoldable pub mount_hosts : Mount → List Text
mount_hosts m = elim (parse_remote m.remote) [
  | none ↦ m.exec_on ∷ m.expose_to
  | some r ↦ r.host ∷ m.exec_on ∷ m.expose_to
]

unfoldable pub add_mounts : List Text → List Mount → List Text
unfolding mount_hosts add_hosts
add_mounts out [] = out
add_mounts out (m ∷ ms) = add_mounts (add_hosts out (mount_hosts m)) ms

-- The machines that the port forwards name.
unfoldable pub port_hosts : List Text → List Text
port_hosts [] = []
port_hosts (s ∷ ss) = elim (cut s b':') [
  | none ↦ port_hosts ss
  | some (host, _) ↦ host ∷ port_hosts ss
]

unfoldable pub values : Dict Text Text → List Text
values [] = []
values ((_, v) ∷ d) = v ∷ values d

-- `HostList`: every machine that the config refers to.
unfoldable pub host_list : Config → List Text
unfolding add_hosts add_mounts port_hosts values keys
host_list c =
    let named = add_hosts [] (keys c.hosts) in
    let mounted = add_mounts named c.mounts in
    let tooled = add_hosts mounted (values c.remote_tools.hosts) in
    let forwarded = add_hosts tooled (port_hosts c.ports) in
    sort_by text_lt (add_host forwarded c.exec_default)

-- `ParsePort`.
unfoldable pub port_of : Os → Text → Option ℕ
port_of os t = elim (os.scan t) [
  | none ↦ none
  | some n ↦ if ltb 0 n && not (ltb 65535 n) then some n else none
]

unfoldable pub parse_port : Os → Text → Option PortSpec
unfolding port_of split
parse_port os s = parts_of (split s b':')
  where
    finish : Text → ℕ → Option ℕ → Option PortSpec
    finish host remote none = none
    finish host remote (some local) =
        some (record { host = host; remote_port = remote; local_port = local })

    parts_of : List Text → Option PortSpec
    parts_of (host ∷ remote ∷ []) =
        if host == []
        then none
        else elim (port_of os remote) [ none ↦ none | some r ↦ finish host r (some r) ]
    parts_of (host ∷ remote ∷ local ∷ []) =
        if host == []
        then none
        else elim (port_of os remote) [ none ↦ none | some r ↦ finish host r (port_of os local) ]
    parts_of _ = none

unfoldable pub parse_ports : Os → List Text → Result (List PortSpec)
unfolding parse_port
parse_ports os [] = ok []
parse_ports os (s ∷ ss) = elim (parse_port os s) [
  | none ↦ err (bad_port s)
  | some p ↦ parse_ports os ss >>= λ ps. ok (p ∷ ps)
]

-- The names of the hosts for which a switch is on, sorted.
unfoldable pub hosts_with : (Host → Bool) → Dict Text Host → List Text
hosts_with switch [] = []
hosts_with switch ((name, h) ∷ hs) =
    if switch h then name ∷ hosts_with switch hs else hosts_with switch hs

-- The loop over `ToolHosts`: a tool on a machine that the config never mentions.
unfoldable pub stray_tool : List Text → Dict Text Text → Option (Text × Text)
stray_tool known [] = none
stray_tool known ((tool, host) ∷ tools) =
    if contains known host then stray_tool known tools else some (tool, host)

-- The last checks of `Resolve`.
unfoldable pub check_known : List Text → Dict Text Text → Text → Option ResolveError
unfolding stray_tool
check_known known tools default = elim (stray_tool known tools) [
  | some (tool, host) ↦ some (tool_on_unknown tool host)
  | none ↦
      if not (default == pod) && not (contains known default)
      then some (unknown_default default)
      else none
]

abbrev pub or_text : Text → Text → Text
or_text t other = if t == [] then other else t

-- The config, flattened.
unfoldable pub assemble : Config → Placing → List PortSpec → Resolved
assemble c p ports = record {
  credentials = sort_by text_lt (hosts_with (λ h. h.forward_credentials) c.hosts);
  toolbin = sort_by text_lt (hosts_with (λ h. h.toolbin) c.hosts);
  name = or_text c.pod_name (codes "default");
  lease = c.lease;
  ports = ports;
  machines = host_list c;
  tools = c.remote_tools.names;
  tool_hosts = c.remote_tools.hosts;
  can_mount = c.can_mount;
  forward_env = record {
    mode = or_text c.forward_env.mode (codes "delta");
    names = c.forward_env.names;
  };
  mounts = p.mounts;
  default = or_text c.exec_default pod;
}

-- `Resolve`, from the placed mounts on.
unfoldable pub finish_resolve : Os → Config → Placing → Result Resolved
finish_resolve os c p = parse_ports os c.ports >>= λ ports.
    elim (check_known (host_list c) c.remote_tools.hosts (or_text c.exec_default pod)) [
      | some e ↦ err e
      | none ↦ ok (assemble c p ports)
    ]

-- `Resolve`.
unfoldable pub resolve : Os → Config → Result Resolved
resolve os c =
    if not (c.lease == []) && not (os.is_duration c.lease)
    then err (bad_lease c.lease)
    else place_all os (record { claimed = []; origins = []; mounts = [] }) c.mounts >>= λ p.
        place_access os p c.host_access >>= λ q. finish_resolve os c q
