-- ===== src/Daemon/Saved/Defs.antt =====
-- internal/daemon/mount.go: `saveState`.
use vibepod.Base.{Bool, false, List, [], ◌∷◌, Text, ◌==◌, text_eq}
use vibepod.Base.Dict.{Dict}
use vibepod.Base.Sort.{sort_by}
use vibepod.Strings.{text_lt}
use vibepod.Route.{pod}
use vibepod.Config.Save.{SnapMount, SnapTool, Snapshot}
use vibepod.Daemon.Mounts.{MountRec, Live}
use vibepod.Daemon.Backends.{Backends}

unfoldable pub snap_mount : MountRec → SnapMount
snap_mount m = record {
  local = m.owner == pod;
  host = m.owner;
  path = m.remote_path;
  src = m.src;
  at = m.at;
  read_only = m.read_only;
  exec_on = m.exec_on;
  identity = false;
}

unfoldable pub snap_mounts : List MountRec → List SnapMount
unfolding snap_mount
snap_mounts [] = []
snap_mounts (m ∷ ms) = snap_mount m ∷ snap_mounts ms

unfoldable pub snap_tools : Dict Text Text → List SnapTool
snap_tools [] = []
snap_tools ((name, host) ∷ d) = record { name = name; host = host } ∷ snap_tools d

unfoldable pub tool_before : SnapTool → SnapTool → Bool
tool_before a b = text_lt a.name b.name

-- `saveState`
unfoldable pub save_state : Text → Text → List Text → Live → Backends → Snapshot
unfolding snap_mounts snap_tools tool_before
save_state name config_path can_mount s b = record {
  pod_name = name;
  default = b.table.default;
  path = config_path;
  mounts = snap_mounts s.mounts;
  tools = sort_by tool_before (snap_tools b.tool_hosts);
  can_mount = can_mount;
}
