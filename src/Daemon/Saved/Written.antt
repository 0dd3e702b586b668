-- ===== src/Daemon/Saved/Written.antt =====
-- internal/config/save.go and `Resolve`: how one mount is written, and what is read of it.
use vibepod.Base.{Bool, true, false, ◌&&◌, ◌||◌, Option, none, some, [], ◌∷◌, ◌++◌}
use vibepod.Base.{◌≡◌, ◌≢◌, refl, sym, ap, ◌∙◌, arith, inl, inr, Bool-cases, All, if_cases}
use vibepod.Base.{Text, codes, ◌==◌, ==_iff, if◌then◌else◌, text_eq, nat_eq}
use vibepod.Base.Dict.{Dict, lookup, insert}
use vibepod.Strings.{has_prefix, cut-append}
use vibepod.Filepath.{clean, slash}
use vibepod.Proto.{MountSpec}
use vibepod.Route.{pod}
use vibepod.Config.Guard.{guard_path, is_under}
use vibepod.Config.Remote.{Remote, Plain, parse_remote, parse_remote_two}
use vibepod.Config.Resolve.{
  Mount, Os, Placing, ok, claim, cut_or_all, overlap, bare_spec, remote_spec, remote_at,
  check_options, place_parsed, place_remote, place,
}
use vibepod.Config.Save.{zero_mount, unless_same, saved_mount}
use vibepod.Daemon.Mounts.{MountRec}
use vibepod.Daemon.Saved.Defs.{snap_mount}

-- The text `host:path` of a mount.
abbrev pub remote_text : MountRec → Text
remote_text m = m.owner ++ b':' ∷ m.remote_path

-- A mount of another machine whose names stand in a file as they are.
abbrev pub IsPlain : MountRec → Type 0
IsPlain m =
    (m.owner ≢ [])
    × (m.owner ≢ pod)
    × All (λ c. c ≢ b':') m.owner
    × (has_prefix m.remote_path slash ≡ true)
    × Plain m.remote_path
    × (clean m.remote_path ≡ m.remote_path)
    × (clean m.at ≡ m.at)
    × (m.at ≢ [])
    × (guard_path m.at ≡ none)

-- Two mounts that stand at two places, and do not show one another's files.
abbrev pub IsApart : MountRec → MountRec → Type 0
IsApart a b =
    (a.at ≢ b.at)
    × ((a.owner == b.owner
          && (is_under b.remote_path a.remote_path || is_under a.remote_path b.remote_path))
        ≡ false)

-- What comes of it: the mount, with the rest of its settings as if they had not been given.
abbrev pub saved_spec : MountRec → MountSpec
saved_spec m = record (bare_spec m.at) {
  host = m.owner;
  path = m.remote_path;
  read_only = m.read_only;
  mode = codes "fuse";
  exec_on = m.exec_on;
}

-- A place for a mount among those placed.
abbrev pub Free : Placing → MountRec → Type 0
Free p m = (lookup m.at p.claimed ≡ none) × (overlap p.origins m.owner m.remote_path ≡ none)

abbrev pub placed : Placing → MountRec → Placing
placed p m = record {
  claimed = insert m.at (remote_text m) p.claimed;
  origins = insert (remote_text m) (remote_text m) p.origins;
  mounts = p.mounts ++ saved_spec m ∷ [];
}

-- Does a directory of a machine contain one of the other, or lie in it?
abbrev is_shown_by : Text × Text → Text → Text → Bool
is_shown_by c host path = c.0 == host && (is_under path c.1 || is_under c.1 path)

overlap_step :
    (k x : Text) (d : Dict Text Text) (host path : Text)
    → overlap ((k, x) ∷ d) host path
      ≡ (if is_shown_by (cut_or_all k) host path then some (k, x) else overlap d host path)
unfolding overlap
overlap_step k x d host path = refl

cut_or_all-remote : (h pa : Text) → All (λ c. c ≢ b':') h → cut_or_all (h ++ b':' ∷ pa) ≡ (h, pa)
unfolding cut_or_all
cut_or_all-remote h pa pl = rw (cut-append h pa b':' pl, cut_or_all) refl

overlap_other :
    (k x : Text) (d : Dict Text Text) (host path : Text)
    → overlap ((k, x) ∷ d) host path ≡ none
    → (is_shown_by (cut_or_all k) host path ≡ false) × (overlap d host path ≡ none)
overlap_other k x d host path e =
    let step = overlap_step k x d host path in
    elim (Bool-cases (is_shown_by (cut_or_all k) host path)) [
      | inl y ↦
          absurd (
            some_none (sym (step ∙ ap (λ b. if b then some (k, x) else overlap d host path) y) ∙ e))
      | inr n ↦ (n, sym (step ∙ ap (λ b. if b then some (k, x) else overlap d host path) n) ∙ e)
    ]
  where
    some_none : {c : Text × Text} → some c ≡ none → ⊥
    some_none q = absurd (cc)

overlap_more :
    (k x : Text) (d : Dict Text Text) (host path : Text)
    → is_shown_by (cut_or_all k) host path ≡ false
    → overlap d host path ≡ none
    → overlap ((k, x) ∷ d) host path ≡ none
overlap_more k x d host path n e =
    overlap_step k x d host path ∙ ap (λ b. if b then some (k, x) else overlap d host path) n ∙ e

pub overlap-insert :
    (d : Dict Text Text) (h pa by host path : Text)
    → All (λ c. c ≢ b':') h
    → is_shown_by (h, pa) host path ≡ false
    → overlap d host path ≡ none
    → overlap (insert (h ++ b':' ∷ pa) by d) host path ≡ none
unfolding insert
overlap-insert [] h pa by host path pl far e =
    overlap_more (h ++ b':' ∷ pa) by [] host path
      (ap (λ c. is_shown_by c host path) (cut_or_all-remote h pa pl) ∙ far) e
overlap-insert ((k, x) ∷ d) h pa by host path pl far e =
    let key = h ++ b':' ∷ pa in
    let (n, rest) = overlap_other k x d host path e in
    let here = ap (λ c. is_shown_by c host path) (cut_or_all-remote h pa pl) ∙ far in
    if_cases (λ q. overlap q host path ≡ none) (k == key) _ _
      (λ _. overlap_more key by d host path here rest)
      (λ _.
        overlap_more k x (insert key by d) host path n
          (overlap-insert d h pa by host path pl far rest))

remote_text-ne : (m : MountRec) → remote_text m ≢ []
remote_text-ne m = nonempty m.owner m.remote_path
  where
    nonempty : (a b : Text) → (a ++ b':' ∷ b) ≢ []
    nonempty [] b e = absurd (cc)
    nonempty (x ∷ a) b e = absurd (cc)

-- What is written of a mount of another machine.
pub saved_mount-remote :
    (home : Option Text) (m : MountRec)
    → m.owner ≢ pod
    → saved_mount home (snap_mount m) ≡ record zero_mount {
      read_only = m.read_only;
      exec_on = m.exec_on;
      remote = remote_text m;
      at = unless_same m.at m.remote_path;
    }
unfolding saved_mount snap_mount
saved_mount-remote home m np = elim (Bool-cases (m.owner == pod)) [
  | inl y ↦ absurd (np ((==_iff m.owner pod).0 y))
  | inr n ↦ rw n refl
]

claim-free :
    (p : Placing) (at by : Text)
    → clean at ≡ at
    → guard_path at ≡ none
    → lookup at p.claimed ≡ none
    → claim p at by ≡ ok (record p { claimed = insert at by p.claimed })
unfolding claim
claim-free p at by ca gd fc =
    rw (ap guard_path ca ∙ gd, ap (λ a. lookup a p.claimed) ca ∙ fc, claim)
      (ap (λ a. ok (record p { claimed = insert a by p.claimed })) ca)

-- A mount as it is written, and the remote that is read in it.
abbrev pub written : MountRec → Mount
written m = record zero_mount {
  read_only = m.read_only;
  exec_on = m.exec_on;
  remote = remote_text m;
  at = unless_same m.at m.remote_path;
}

abbrev read_back : MountRec → Remote
read_back m = record { host = m.owner; path = m.remote_path; at = [] }

remote_at-written : (m : MountRec) → m.at ≢ [] → remote_at (written m) (read_back m) ≡ m.at
unfolding remote_at unless_same
remote_at-written m ne = ground arith

check_options-written : (m : MountRec) → check_options (written m) ≡ none
unfolding check_options text_eq nat_eq
check_options-written m = refl

remote_spec-written : (m : MountRec) → remote_spec (written m) (read_back m) m.at ≡ saved_spec m
unfolding remote_spec text_eq
remote_spec-written m = refl

place_parsed-written :
    (p : Placing) (m : MountRec)
    → IsPlain m
    → Free p m
    → place_parsed p (written m) (read_back m) ≡ ok (placed p m)
unfolding place_parsed
place_parsed-written p m (ho, np, col, abs, pl, cp, ca, at, gd) (fc, fo) =
    let a = remote_at-written m at in
    let c = claim-free p m.at (remote_text m) ca gd fc in
    let o = check_options-written m in let sp = remote_spec-written m in ground arith

pub place-written :
    (os : Os) (p : Placing) (m : MountRec)
    → IsPlain m
    → Free p m
    → place os p (written m) ≡ ok (placed p m)
unfolding place place_remote
place-written os p m (ho, np, col, abs, pl, cp, ca, at, gd) free =
    let r : parse_remote (remote_text m) ≡ some (read_back m) =
      parse_remote_two m.owner m.remote_path ho col abs pl
      ∙ ap (λ q. some (record { host = m.owner; path = q; at = [] })) cp in
    let parsed = place_parsed-written p m (ho, np, col, abs, pl, cp, ca, at, gd) free in
    let ne = remote_text-ne m in ground arith
