-- ===== src/Tests/UnmountTests.antt =====
-- internal/daemon/mount.go, `removeMount`, at concrete inputs.
use vibepod.Base.{true, false, [], ◌∷◌, arith}
use vibepod.Base.{Text, codes, text_eq, nat_eq}
use vibepod.Base.Dict.{Dict}
use vibepod.Route.{pod}
use vibepod.Daemon.Mounts.{MountRec, Live}
use vibepod.Daemon.Backends.{Backends}
use vibepod.Daemon.Unmount.{
  rule_of, hits, remove_mount, GenDistinct, UnmountResult, remove_mount_result,
}

abbrev gpu : Text
gpu = codes "gpu03"

abbrev data_mount : MountRec
data_mount = record {
  at = codes "/data";
  src = codes "/run/1";
  owner = gpu;
  remote_path = codes "/srv";
  exec_on = [];
  kind = codes "sshfs";
  read_only = false;
  requires = [];
  cache = [];
  prefetch = false;
  gen = 1;
  many_writers = false;
  via = [];
  expose_to = [];
  runtime = true;
  identity = false;
}

abbrev work_mount : MountRec
work_mount = record data_mount { at = codes "/work"; owner = codes "gpu05"; gen = 2 }

abbrev live : Live
live = record { mounts = data_mount ∷ work_mount ∷ []; gen = 2; mount_count = 2; many_writers = [] }

abbrev state : Backends
state = record {
  table = record { rules = rule_of data_mount ∷ rule_of work_mount ∷ []; default = pod };
  machines = [];
  tool_hosts = [];
  backends = (codes "1", gpu) ∷ (codes "2", codes "gpu05") ∷ [];
  sessions = [];
  told_local = [];
}

abbrev home : Dict Text Text
home = (codes "1", codes "/home/u") ∷ []

distinct : GenDistinct live.mounts
distinct = omega arith

remove_mount_result_example :
    UnmountResult
      (λ at. true)
      home
      (hits (codes "@gpu03") live.mounts)
      live
      state
      (remove_mount (λ at. true) (λ id. true) home (codes "@gpu03") live state)
remove_mount_result_example =
    remove_mount_result (λ at. true) (λ id. true) home (codes "@gpu03") live state distinct
