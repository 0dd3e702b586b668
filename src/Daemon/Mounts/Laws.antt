-- ===== src/Daemon/Mounts/Laws.antt =====
-- What `addMount` lets into the live mount list.
use mathlib.Core.Path.{subst}
use vibepod.Base.{
  suc, Bool, true, false, not, ◌&&◌, ◌||◌, Option, none, some, List, [], ◌∷◌, ◌++◌, ◌≡◌, refl, sym,
  ◌∙◌, ◌≢◌, inl, inr,
}
use vibepod.Base.{Text, codes, ◌==◌, text_eq, arith, if_cases, Option-cases, All, All-map}
use vibepod.Filepath.{clean}
use vibepod.Proto.{MountSpec}
use vibepod.Config.Guard.{guard_path}
use vibepod.Daemon.Mounts.Defs.{
  MountRec, mount_at, MountError, nested, check_against, check_loop, check_new_mount, Live, Calls,
  added_rec, bring_up, mount_path, checked_add, add_mount,
}

-- No two mounts of the list are at one path.
abbrev pub AtDistinct : List MountRec → Type 0
AtDistinct [] = Unit
AtDistinct (m ∷ ms) = (mount_at ms m.at ≡ none) × AtDistinct ms

-- A new mount at this path, of this machine and directory, is clear of an old one: it is not at
-- the same path; at runtime neither path contains the other; and of one machine's directories
-- neither contains the other.
abbrev pub Clear : Text → Text → Text → Bool → MountRec → Type 0
Clear at host path runtime m =
    (m.at ≢ at)
    × (runtime ≡ true → nested at m.at ≡ false)
    × (m.owner ≡ host → path ≢ [] → m.remote_path ≢ [] → nested path m.remote_path ≡ false)

check_against-Clear :
    (at host path : Text) (runtime : Bool) (m : MountRec)
    → check_against at host path runtime m ≡ none
    → Clear at host path runtime m
unfolding check_against
check_against-Clear at host path runtime m h =
    ((λ e. ground arith), (λ r. ground arith), (λ o p q. ground arith))

check_loop-Clear :
    (at host path : Text) (runtime : Bool) (ms : List MountRec)
    → check_loop at host path runtime ms ≡ none
    → All (Clear at host path runtime) ms
unfolding check_loop
check_loop-Clear at host path runtime [] h = tt
check_loop-Clear at host path runtime (m ∷ ms) h =
    elim (Option-cases (check_against at host path runtime m)) [
      | inl e ↦ (
        check_against-Clear at host path runtime m e,
        check_loop-Clear at host path runtime ms (ground arith),
      )
      | inr (v, e) ↦ absurd (ground arith)
    ]

-- What a call of `addMount` leaves, by its result.
abbrev pub AddResult : Calls → Live → MountSpec → Bool → Option MountError × Live → Type 0
AddResult c s rm runtime (some e, s') =
    (s'.mounts ≡ s.mounts) × (s'.gen ≡ s.gen) × (s'.many_writers ≡ s.many_writers)
AddResult c s rm runtime (none, s') =
    (guard_path (clean (mount_path rm)) ≡ none)
    × All (Clear (clean (mount_path rm)) rm.host rm.path runtime) s.mounts
    × (s'.mounts ≡ s.mounts ++ added_rec c s rm (mount_path rm) runtime ∷ [])
    × (s'.gen ≡ suc s.gen)

checked_add-AddResult :
    (c : Calls) (s : Live) (rm : MountSpec) (runtime : Bool) (e : Option MountError)
    → check_new_mount s.mounts (mount_path rm) rm.host rm.path runtime ≡ e
    → AddResult c s rm runtime (checked_add c s rm runtime e)
unfolding checked_add bring_up
checked_add-AddResult c s rm runtime (some e) h = (refl, refl, refl)
checked_add-AddResult c s rm runtime none h =
    let at = mount_path rm in
    if_cases (AddResult c s rm runtime) (not (c.picked && c.warm)) _ _ (λ _. (refl, refl, refl))
      (λ _.
        if_cases (AddResult c s rm runtime) (not c.mounted) _ _ (λ _. (refl, refl, refl))
          (λ _. elim (Option-cases (guard_path (clean at))) [
            | inl g ↦ (
              g,
              check_loop-Clear (clean at) rm.host rm.path runtime s.mounts
                  (unfold check_new_mount in ground arith),
              refl,
              refl,
            )
            | inr (v, g) ↦ absurd (unfold check_new_mount in ground arith)
          ]))

-- A call of `addMount` that fails leaves the list, the generation and the mounts with many writers
-- as they were. One that succeeds adds the mount at the end of the list, under the next generation;
-- its path is not one that is guarded, and it is clear of every mount that was there.
pub add_mount_result :
    (c : Calls) (s : Live) (rm : MountSpec) (runtime : Bool)
    → AddResult c s rm runtime (add_mount c s rm runtime)
unfolding add_mount
add_mount_result c s rm runtime =
    if_cases (AddResult c s rm runtime) (rm.mode == codes "sync") _ _ (λ _. (refl, refl, refl))
      (λ _.
        if_cases (AddResult c s rm runtime) (not (rm.mode == [] || rm.mode == codes "fuse")) _ _
          (λ _. (refl, refl, refl))
          (λ _.
            checked_add-AddResult c s rm runtime
              (check_new_mount s.mounts (mount_path rm) rm.host rm.path runtime) refl))

mount_at-snoc :
    (ms : List MountRec) (m : MountRec) (at : Text)
    → mount_at ms at ≡ none
    → at ≢ m.at
    → mount_at (ms ++ m ∷ []) at ≡ none
unfolding mount_at
mount_at-snoc [] m at h ne = ground arith
mount_at-snoc (y ∷ ms) m at h ne = ground (arith, mount_at-snoc ms m at)

AtDistinct-snoc :
    (ms : List MountRec) (m : MountRec)
    → All (λ x. x.at ≢ m.at) ms
    → AtDistinct ms
    → AtDistinct (ms ++ m ∷ [])
AtDistinct-snoc [] m h u = (unfold mount_at in refl, tt)
AtDistinct-snoc (x ∷ ms) m (ne, h) (fresh, u) =
    (mount_at-snoc ms m x.at fresh ne, AtDistinct-snoc ms m h u)

added_rec-at :
    (c : Calls) (s : Live) (rm : MountSpec) (at : Text) (runtime : Bool)
    → (added_rec c s rm at runtime).at ≡ at
unfolding added_rec
added_rec-at c s rm at runtime = refl

-- The mounts of the list stay at different paths when `addMount` adds one whose path is written
-- cleanly.
pub add_mount-AtDistinct :
    (c : Calls) (s s' : Live) (rm : MountSpec) (runtime : Bool)
    → clean (mount_path rm) ≡ mount_path rm
    → AtDistinct s.mounts
    → add_mount c s rm runtime ≡ (none, s')
    → AtDistinct s'.mounts
add_mount-AtDistinct c s s' rm runtime written u h =
    let (_, clear, mounts, _) =
      subst (AddResult c s rm runtime) h (add_mount_result c s rm runtime) in
    subst AtDistinct (sym mounts) (
      AtDistinct-snoc s.mounts (added_rec c s rm (mount_path rm) runtime)
        (All-map
          (λ m clr.
            let (ne, _, _) = clr in
            λ e. ne (e ∙ added_rec-at c s rm (mount_path rm) runtime ∙ sym written))
          s.mounts clear)
        u)
