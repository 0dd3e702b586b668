-- ===== src/Sys/Defs.antt =====
-- internal/sys/mountflags.go: `currentFlags` and the flags of `RemountReadOnly`.
use vibepod.Base.{ℕ, Bool, ◌||◌, not, Option, none, some, List, [], ◌∷◌, ◌++◌, ◌+◌, ◌/◌, ◌%◌}
use vibepod.Base.{Text, codes, ◌==◌, if◌then◌else◌, nat_eq, text_eq, length, ltb}
use vibepod.Base.Dict.{Dict, lookup}
use vibepod.Strings.{has_prefix, trim_suffix, split}
use vibepod.Strings.Space.{fields}

-- `flags | bit`, for a power of two.
unfoldable pub or_bit : ℕ → ℕ → ℕ
or_bit flags bit = if (flags / bit) % 2 == 1 then flags else flags + bit

-- `lockedFlags`, with the numbers that the kernel gives them.
abbrev pub locked_flags : Dict Text ℕ
locked_flags =
    (codes "nosuid", 2)
    ∷ (codes "nodev", 4)
    ∷ (codes "noexec", 8)
    ∷ (codes "noatime", 1024)
    ∷ (codes "nodiratime", 2048)
    ∷ (codes "relatime", 2097152)
    ∷ []

unfoldable pub or_option : ℕ → Option ℕ → ℕ
or_option flags none = flags
or_option flags (some bit) = or_bit flags bit

unfoldable pub add_options : ℕ → List Text → ℕ
add_options flags [] = flags
add_options flags (o ∷ os) = add_options (or_option flags (lookup o locked_flags)) os

unfoldable pub options_flags : Text → ℕ
options_flags opts = add_options 0 (split opts 0x2c)

-- The mount point and the options of a line; none where there are too few fields.
unfoldable pub point_opts : List Text → Option (Text × Text)
point_opts (a ∷ b ∷ c ∷ d ∷ point ∷ opts ∷ rest) = some (point, opts)
point_opts fs = none

unfoldable pub covers : Text → Text → Bool
covers abs point = point == abs || has_prefix abs (trim_suffix point 0x2f ++ 0x2f ∷ [])

pub record Found : Type 0 where
  pub best : Text
  pub flags : ℕ

unfoldable pub see_mount : Text → Option (Text × Text) → Found → Found
see_mount abs none f = f
see_mount abs (some (point, opts)) f =
    if not (covers abs point)
    then f
    else if ltb (length point) (length f.best)
    then f
    else record { best = point; flags = options_flags opts }

-- The lines are those that the scanner returns.
unfoldable pub scan_mounts : Text → List Text → Found → Found
scan_mounts abs [] f = f
scan_mounts abs (l ∷ ls) f = scan_mounts abs ls (see_mount abs (point_opts (fields l)) f)

-- `currentFlags`, of what `filepath.Abs` returns for the path and of the lines of mountinfo; none
-- where one of them fails.
unfoldable pub current_flags : Option Text → Option (List Text) → ℕ
current_flags none lines = 0
current_flags (some abs) none = 0
current_flags (some abs) (some lines) =
    (scan_mounts abs lines (record { best = []; flags = 0 })).flags

-- What `RemountReadOnly` asks for: MS_BIND, MS_REMOUNT and MS_RDONLY with the flags in force.
unfoldable pub remount_flags : Option Text → Option (List Text) → ℕ
remount_flags abs lines = or_bit (or_bit (or_bit (current_flags abs lines) 4096) 32) 1
