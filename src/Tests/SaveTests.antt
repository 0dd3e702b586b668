-- ===== src/Tests/SaveTests.antt =====
-- The saving of a pod of internal/config/save.go and internal/daemon/mount.go at concrete inputs.
use vibepod.Base.{true, false, none, some, [], ◌∷◌, ◌≡◌, refl}
use vibepod.Base.{Text, codes, text_eq, nat_eq}
use vibepod.Base.Dict.{lookup, insert, get_or}
use vibepod.Base.Sort.{sort_by, insert_by}
use vibepod.Strings.{text_lt}
use vibepod.Route.{pod}
use vibepod.Config.Resolve.{Os, Config, place}
use vibepod.Config.Save.{
  zero_mount, saved_config, saved_mount, save_mounts, save_mount, unless_same, by_host,
  tool_hosts_of, with_names,
}
use vibepod.Daemon.Mounts.{MountRec, Live}
use vibepod.Daemon.Backends.{Backends}
use vibepod.Daemon.Saved.{
  IsErr, nothing_placed, snap_mount, snap_mounts, snap_tools, tool_before, save_state,
  place-saved_local,
}

abbrev gpu : Text
gpu = codes "gpu"

abbrev shared_data : MountRec
shared_data = record {
  at = codes "/data";
  src = codes "/run/1";
  owner = gpu;
  remote_path = codes "/srv";
  exec_on = [];
  kind = codes "sshfs";
  read_only = true;
  requires = [];
  cache = [];
  prefetch = false;
  gen = 1;
  many_writers = false;
  via = [];
  expose_to = [];
  runtime = true;
  identity = false;
}

abbrev state : Live
state = record { mounts = shared_data ∷ []; gen = 1; mount_count = 1; many_writers = [] }

abbrev backends : Backends
backends = record {
  table = record { rules = []; default = gpu };
  machines = gpu ∷ [];
  tool_hosts = (codes "nvcc", gpu) ∷ (codes "make", gpu) ∷ [];
  backends = [];
  sessions = [];
  told_local = [];
}

abbrev here : Os
here = record {
  home = some (codes "/home/u");
  working = some (codes "/home/u/p");
  exists = λ _. true;
  is_duration = λ _. true;
  scan = λ _. none;
}

-- The configuration that is saved.
saved_run :
    (saved_config here.home (save_state (codes "p") (codes "/c.yaml") [] state backends)).mounts
    ≡ record zero_mount { remote = codes "gpu:/srv"; at = codes "/data"; read_only = true } ∷ []
unfolding saved_config save_state snap_mounts snap_mount save_mounts save_mount saved_mount
    unless_same text_eq nat_eq
saved_run = refl

tools_run :
    (saved_config here.home
      (save_state (codes "p") (codes "/c.yaml") [] state backends)).remote_tools.hosts
    ≡ (codes "make", gpu) ∷ (codes "nvcc", gpu) ∷ []
unfolding saved_config save_state snap_tools tool_before sort_by insert_by text_lt by_host get_or
    lookup insert tool_hosts_of with_names text_eq nat_eq
tools_run = refl

-- A directory of this machine whose commands run on gpu.
abbrev exposed_data : MountRec
exposed_data = record shared_data {
  owner = pod;
  src = codes "/home/u/p";
  exec_on = gpu;
  expose_to = gpu ∷ [];
}

place-saved_local_example :
    IsErr (place here nothing_placed (saved_mount here.home (snap_mount exposed_data)))
place-saved_local_example =
    place-saved_local here here.home nothing_placed exposed_data refl (λ e. absurd (cc))
