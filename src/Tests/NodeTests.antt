-- ===== src/Tests/NodeTests.antt =====
-- internal/daemon/reconcile.go and internal/daemon/mount.go at concrete inputs.
use vibepod.Base.{Bool, true, false, none, some, List, [], ◌∷◌, ◌≡◌, refl, ◌⊎◌, inl, map}
use vibepod.Base.{Text, codes, text_eq, nat_eq, In}
use vibepod.Base.Dict.{lookup, insert, get_or}
use vibepod.Strings.{has_prefix, trim_suffix}
use vibepod.Filepath.{clean, is_abs}
use vibepod.Route.{pod}
use vibepod.Config.Guard.{guard_path}
use vibepod.Proto.{MountSpec, RelaySpec, Held}
use vibepod.Node.{
  Node, OnePerPath, find_at, handle, add_mount, remove_mount, remembered, holds_at, remove_first,
}
use vibepod.Daemon.Mounts.{
  MountRec, mount_at, AtDistinct, AddResult, Live, Calls, mount_path, check_new_mount, check_loop,
  check_against, nested, checked_add, bring_up, added_rec, add_mount_result, add_mount-AtDistinct,
}
use vibepod.Daemon.Mounts
use vibepod.Daemon.Writers.{
  Access, desired, spec_for, withheld, via, decided, is_writer, claimed, read_only_for, Steps, done,
  reconciled, SentOf, desired_sent, desired-single_writer,
}
use vibepod.Daemon.Reconcile.{
  Net, ok, World, Works, Converged, node_held, lost, node_request, converge, take_all, take_one,
  by_path, bring, answer, bring_relayed, node_call, relay_then_mount, release, report, same_bool,
  same_mount, set_held, want_path, reconcile, reconcile-desired, reconcile-desired-Works,
}

abbrev gpu : Text
gpu = codes "gpu03"

abbrev spec : MountSpec
spec = record {
  at = codes "/work";
  src = [];
  host = gpu;
  path = codes "/data";
  read_only = false;
  mode = [];
  exec_on = [];
  identity = false;
  requires = [];
  cache = [];
  prefetch = false;
  generation = 0;
  many_writers = false;
  via = [];
  expose_to = [];
  relay = none;
}

abbrev live : Live
live = record { mounts = []; gen = 4; mount_count = 1; many_writers = [] }

abbrev calls : Calls
calls = record {
  picked = true;
  backend = codes "fuse";
  warm = true;
  mounted = true;
  point = λ n. n ∷ [];
}

abbrev work : MountRec
work = added_rec calls live spec (codes "/work") true

abbrev after : Live
after = record { mounts = work ∷ []; gen = 5; mount_count = 2; many_writers = [] }

added : Mounts.add_mount calls live spec true ≡ (none, after)
unfolding Mounts.add_mount mount_path check_new_mount check_loop checked_add bring_up guard_path
    clean is_abs has_prefix trim_suffix text_eq nat_eq
added = refl

add_mount_result_example : AddResult calls live spec true (Mounts.add_mount calls live spec true)
add_mount_result_example = add_mount_result calls live spec true

written : clean (mount_path spec) ≡ mount_path spec
unfolding clean mount_path text_eq nat_eq
written = refl

after_distinct : AtDistinct after.mounts
after_distinct = add_mount-AtDistinct calls live after spec true written tt added

abbrev own : MountRec
own = record {
  at = codes "/home/u/p";
  src = codes "/home/u/p";
  owner = pod;
  remote_path = [];
  exec_on = [];
  kind = codes "bind";
  read_only = false;
  requires = [];
  cache = [];
  prefetch = false;
  gen = 1;
  many_writers = false;
  via = [];
  expose_to = gpu ∷ [];
  runtime = false;
  identity = false;
}

abbrev unclaimed : Access
unclaimed = record { writers = []; many_writers = []; reach = [] }

abbrev reaches : Text → Text → Bool
reaches host owner = true

abbrev mounts : List MountRec
mounts = own ∷ work ∷ []

distinct : AtDistinct mounts
unfolding mount_at text_eq nat_eq added_rec
distinct = (refl, (refl, tt))

abbrev five : Text
five = codes "gpu05"

abbrev wanted : List MountSpec
wanted = (desired reaches mounts five unclaimed).0

abbrev stale : Held
stale = record {
  at = codes "/old";
  host = gpu;
  path = codes "/old";
  native = false;
  read_only = false;
  generation = 2;
  relayed = false;
  hop = false;
}

abbrev node : Node
node = record { name = five; held = stale ∷ [] }

abbrev net : Net
net = record {
  daemon = record { host = five; held = []; gen = 0; reachable = false };
  node = node;
  sent = 0;
}

abbrev tunnel : RelaySpec
tunnel = record { port = 4000; key_file = codes "relay.key"; user = codes "vp" }

abbrev world : World
world = record {
  delivered = λ _. true;
  outcomes = λ _. record { mounted = true; flushed = true; bound = true };
  replied = λ _. true;
  relays = λ _ _. some tunnel;
}

works : Works world
works n = (refl, refl, refl, refl, refl, λ r. (tunnel, refl))

one_mount : OnePerPath node.held
one_mount = (unfold find_at in refl, tt)

reconcile-desired-Works_example :
    (s' : Net) × (reconcile world mounts wanted 5 net ≡ (ok tt, s')) × Converged wanted 5 s'
reconcile-desired-Works_example =
    reconcile-desired-Works world reaches mounts five unclaimed 5 net distinct one_mount works

reconcile-desired_example : Converged wanted 5 reconcile-desired-Works_example.0
reconcile-desired_example =
    reconcile-desired world reaches mounts five unclaimed 5 net reconcile-desired-Works_example.0
      distinct one_mount reconcile-desired-Works_example.1

-- The node's list after that run.
abbrev held_after : List Text
held_after = map (λ (h : Held). h.at) (reconcile world mounts wanted 5 net).1.node.held

converged_test : held_after ≡ codes "/work" ∷ []
unfolding reconcile desired withheld text_eq nat_eq added_rec spec_for via read_only_for is_writer
    get_or claimed insert decided lookup node_held lost node_request handle converge take_all
    take_one by_path bring mount_at answer bring_relayed node_call relay_then_mount release report
    same_bool same_mount set_held want_path add_mount holds_at remembered remove_first remove_mount
converged_test = refl

abbrev sent : MountSpec
sent = (spec_for reaches unclaimed five work).0

sent-In : In sent wanted
unfolding desired withheld text_eq nat_eq added_rec spec_for via read_only_for is_writer get_or
    claimed insert decided lookup
sent-In = inl refl

desired_sent_example : (r : MountRec) × In r mounts × SentOf five sent r
desired_sent_example = desired_sent reaches mounts five unclaimed sent sent-In

-- Another machine is reconciled between two reconciliations of the first.
abbrev first : Access
first = (desired reaches mounts five unclaimed).1

abbrev second : Access
second = (desired reaches mounts gpu first).1

abbrev again : MountSpec
again = (spec_for reaches second five work).0

again-In : In again (desired reaches mounts five second).0
unfolding desired withheld text_eq nat_eq added_rec spec_for via read_only_for is_writer get_or
    claimed insert decided lookup
again-In = inl refl

between : Steps reaches five first second
between = reconciled mounts gpu done

sent_writable : sent.read_only ≡ false
unfolding desired withheld text_eq nat_eq added_rec spec_for via read_only_for is_writer get_or
    claimed insert decided lookup
sent_writable = refl

again_writable : again.read_only ≡ false
unfolding desired withheld text_eq nat_eq added_rec spec_for via read_only_for is_writer get_or
    claimed insert decided lookup
again_writable = refl

same_path : again.at ≡ sent.at
unfolding spec_for
same_path = refl

desired-single_writer_example : (five ≡ five) ⊎ (get_or sent.at unclaimed.many_writers false ≡ true)
desired-single_writer_example =
    desired-single_writer reaches five five mounts mounts unclaimed second sent again sent-In
      between again-In same_path sent_writable again_writable

-- The other machine gets it read-only.
other_read_only : (spec_for reaches first gpu work).0.read_only ≡ true
unfolding desired withheld text_eq nat_eq added_rec spec_for via read_only_for is_writer get_or
    claimed insert decided lookup
other_read_only = refl
