-- ===== src/Config/Guard.antt =====
-- internal/config/config.go: the paths that a mount may not cover.
use vibepod.Base.{
  Bool, true, false, not, ◌&&◌, ◌||◌, Option, none, some, List, [], ◌∷◌, ◌++◌, ◌≡◌, refl,
}
use vibepod.Base.{Text, codes, ◌==◌, if◌then◌else◌, text_eq, nat_eq, All, arith, ◌↔◌, ◌≢◌}
use vibepod.Strings.{has_prefix, trim_suffix}
use vibepod.Filepath.{clean, is_abs, slash}
use vibepod.Route.{under}

abbrev pub system_paths : List Text
system_paths =
    codes "/"
    ∷ codes "/usr"
    ∷ codes "/bin"
    ∷ codes "/lib"
    ∷ codes "/lib64"
    ∷ codes "/sbin"
    ∷ codes "/etc"
    ∷ codes "/proc"
    ∷ codes "/sys"
    ∷ codes "/dev"
    ∷ codes "/vp"
    ∷ codes "/var"
    ∷ codes "/run"
    ∷ []

-- What `GuardPath` says: a nil error is `none` of this.
pub data GuardError : Type 0 where
  not_absolute : Text → GuardError
  over_system : Text → Text → GuardError

-- `isAncestor`: `at` sits above `sys`.
unfoldable pub is_ancestor : Text → Text → Bool
is_ancestor at sys = not (at == codes "/") && has_prefix sys (trim_suffix at b'/' ++ slash)

-- `isUnder`, which cleans neither path.
unfoldable pub is_under : Text → Text → Bool
is_under path prefix =
    if path == prefix then true else has_prefix path (trim_suffix prefix b'/' ++ slash)

-- The loop of `GuardPath`.
unfoldable pub guard_loop : Text → List Text → Option GuardError
unfolding is_ancestor
guard_loop at [] = none
guard_loop at (s ∷ ss) =
    if at == s || is_ancestor at s then some (over_system at s) else guard_loop at ss

-- `GuardPath`.
unfoldable pub guard_path : Text → Option GuardError
unfolding guard_loop
guard_path at =
    if is_abs (clean at) then guard_loop (clean at) system_paths else some (not_absolute (clean at))

-- Away from the root, the test of `GuardPath` is whether the mountpoint covers the system path.
covers-under :
    (at s : Text)
    → clean s ≡ s
    → clean at ≢ codes "/"
    → (clean at == s || is_ancestor (clean at) s) ≡ under s at
unfolding under is_ancestor
covers-under at s c ne = rw c (ground arith)

guard_loop_iff :
    (at : Text) (ss : List Text)
    → clean at ≢ codes "/"
    → All (λ s. clean s ≡ s) ss
    → (guard_loop (clean at) ss ≡ none) ↔ All (λ s. under s at ≡ false) ss
unfolding guard_loop
guard_loop_iff at [] ne h = (λ e. tt, λ a. refl)
guard_loop_iff at (s ∷ ss) ne (c, h) =
    ground (arith, covers-under at s c ne, guard_loop_iff at ss ne h)

guard_loop_root :
    (at : Text) (ss : List Text) → at ≡ codes "/" → guard_loop at (codes "/" ∷ ss) ≢ none
unfolding guard_loop
guard_loop_root at ss e = ground arith

under_root : (at s : Text) → clean s ≡ s → clean at ≡ s → under s at ≡ true
unfolding under
under_root at s c e = ground arith

clean-system_paths : All (λ s. clean s ≡ s) system_paths
unfolding clean text_eq nat_eq
clean-system_paths = (
  refl,
  (
    refl,
    (refl, (refl, (refl, (refl, (refl, (refl, (refl, (refl, (refl, (refl, (refl, tt))))))))))),
  ),
)

-- `GuardPath` accepts a mountpoint exactly when it is absolute and no system path is it or lies
-- below it, so that nothing mounted there hides one.
pub guard_path_iff :
    (at : Text)
    → (guard_path at ≡ none)
      ↔ ((is_abs (clean at) ≡ true) × All (λ s. under s at ≡ false) system_paths)
unfolding guard_path
guard_path_iff at = elim (text_eq.dec (clean at) (codes "/")) [
  | yes e ↦ (
    λ h. absurd (guard_loop_root (clean at) (tail_of system_paths) e (ground arith)),
    λ (a, all). absurd (cc (all.0, under_root at (codes "/") clean-system_paths.0 e)),
  )
  | no ne ↦ ground (arith, guard_loop_iff at system_paths ne clean-system_paths)
]
  where
    tail_of : List Text → List Text
    tail_of [] = []
    tail_of (x ∷ xs) = xs
