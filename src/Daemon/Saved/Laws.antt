-- ===== src/Daemon/Saved/Laws.antt =====
-- internal/daemon/mount.go, internal/config/save.go and `Resolve`: a pod that is saved and brought up.
use vibepod.Base.{Option, List, [], ◌++◌, map}
use vibepod.Base.{◌≡◌}
use vibepod.Base.{Text, text_eq}
use vibepod.Config.Resolve.{Config, Placing}
use vibepod.Daemon.Mounts.{MountRec}
use vibepod.Daemon.Backends.{Backends}
use vibepod.Daemon.Saved.Written.{written}

abbrev Kept : Option Text → List MountRec → Config → Config → Type 0
Kept home ms c c' =
    (c'.mounts ≡ c.mounts ++ map written ms)
    × (c'.host_access ≡ c.host_access)
    × (c'.exec_default ≡ c.exec_default)
    × (c'.pod_name ≡ c.pod_name)

abbrev pub nothing_placed : Placing
nothing_placed = record { claimed = []; origins = []; mounts = [] }
