-- ===== src/Config/Save/Defs.antt =====
-- internal/config/save.go: `Render`, up to the text that the yaml package makes of the configuration.
use vibepod.Base.{Bool, false, not, ◌||◌, Option, none, some, List, [], ◌∷◌, ◌++◌}
use vibepod.Base.{Text, ◌==◌, if◌then◌else◌, text_eq, nat_eq}
use vibepod.Base.Dict.{Dict, insert, get_or}
use vibepod.Strings.{has_prefix, trim_prefix}
use vibepod.Config.Resolve.{Mount, Config}

-- `SnapMount`
pub record SnapMount : Type 0 where
  pub local : Bool
  pub host : Text
  pub path : Text
  pub src : Text
  pub at : Text
  pub read_only : Bool
  pub exec_on : Text
  pub identity : Bool

-- `SnapTool`
pub record SnapTool : Type 0 where
  pub name : Text
  pub host : Text

-- `Snapshot`
pub record Snapshot : Type 0 where
  pub pod_name : Text
  pub default : Text
  pub path : Text
  pub mounts : List SnapMount
  pub tools : List SnapTool
  pub can_mount : List Text

-- `shortenHome`; none where there is no home.
unfoldable pub shorten_home : Option Text → Text → Text
unfolding has_prefix trim_prefix
shorten_home none p = p
shorten_home (some home) p =
    if home == [] || not (has_prefix p (home ++ b'/' ∷ [])) then p else b'~' ∷ trim_prefix p home

abbrev pub zero_mount : Mount
zero_mount = record {
  local = [];
  remote = [];
  at = [];
  mode = [];
  read_only = false;
  exec_on = [];
  expose_to = [];
  requires = [];
  cache = [];
  prefetch = false;
  writers = [];
  via = [];
}

unfoldable pub unless_same : Text → Text → Text
unless_same at other = if at == other then [] else at

-- A mount of the file, of one that is no identity.
unfoldable pub saved_mount : Option Text → SnapMount → Mount
unfolding shorten_home unless_same
saved_mount home m =
    let out : Mount = record zero_mount { read_only = m.read_only; exec_on = m.exec_on } in
    if m.local
    then record out {
      local = shorten_home home m.src;
      at = unless_same m.at (shorten_home home m.src);
    }
    else record out { remote = m.host ++ b':' ∷ m.path; at = unless_same m.at m.path }

unfoldable pub save_mount : Option Text → SnapMount → Config → Config
unfolding saved_mount
save_mount home m c =
    if m.identity
    then record c { host_access = c.host_access ++ shorten_home home m.src ∷ [] }
    else record c { mounts = c.mounts ++ saved_mount home m ∷ [] }

unfoldable pub save_mounts : Option Text → List SnapMount → Config → Config
unfolding save_mount
save_mounts home [] c = c
save_mounts home (m ∷ ms) c = save_mounts home ms (save_mount home m c)

-- `byHost`
unfoldable pub by_host : List SnapTool → Dict Text (List Text) → Dict Text (List Text)
by_host [] d = d
by_host (t ∷ ts) d = by_host ts (insert t.host (get_or t.host d [] ++ t.name ∷ []) d)

unfoldable pub with_names : Text → List Text → Dict Text Text → Dict Text Text
with_names host [] d = d
with_names host (n ∷ ns) d = with_names host ns (insert n host d)

unfoldable pub tool_hosts_of : Dict Text (List Text) → Dict Text Text → Dict Text Text
unfolding with_names
tool_hosts_of [] d = d
tool_hosts_of ((host, names) ∷ rest) d = tool_hosts_of rest (with_names host names d)

abbrev pub zero_config : Text → Config
zero_config pod_name = record {
  pod_name = pod_name;
  hosts = [];
  mounts = [];
  host_access = [];
  ports = [];
  exec_default = [];
  forward_env = record { mode = []; names = [] };
  remote_tools = record { names = []; hosts = [] };
  can_mount = [];
  lease = [];
}

-- The configuration that `Render` hands to `renderView`.
unfoldable pub saved_config : Option Text → Snapshot → Config
unfolding save_mounts by_host tool_hosts_of
saved_config home s =
    let c : Config = record (zero_config s.pod_name) { exec_default = s.default } in
    record (save_mounts home s.mounts c) {
      remote_tools = record { names = []; hosts = tool_hosts_of (by_host s.tools []) [] };
      can_mount = s.can_mount;
    }
