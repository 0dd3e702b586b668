-- ===== src/Tests/SysTests.antt =====
-- internal/sys/mountflags.go at a concrete list of mounts.
use vibepod.Base.{List, [], ◌∷◌, ◌≡◌, refl, some, Text, codes, text_eq, nat_eq}
use vibepod.Base.Dict.{lookup}
use vibepod.Strings.{split, has_prefix, trim_suffix}
use vibepod.Strings.Space.{fields}
use vibepod.Sys.{
  or_bit, or_option, add_options, options_flags, point_opts, covers, see_mount, scan_mounts,
  current_flags, remount_flags,
}

abbrev mountinfo : List Text
mountinfo =
    codes "22 1 8:1 / / rw,relatime shared:1 - ext4 /dev/sda1 rw"
    ∷ codes "40 22 0:35 / /home rw,nosuid,nodev shared:9 - tmpfs t rw"
    ∷ codes "short line"
    ∷ codes "41 22 0:36 / /home2 rw,noexec - tmpfs t rw"
    ∷ []

flags_example : current_flags (some (codes "/home/u")) (some mountinfo) ≡ 6
unfolding current_flags scan_mounts see_mount covers point_opts options_flags add_options or_option
    or_bit lookup split has_prefix trim_suffix fields text_eq nat_eq
flags_example = refl

remount_example : remount_flags (some (codes "/usr")) (some mountinfo) ≡ 2101281
unfolding remount_flags current_flags scan_mounts see_mount covers point_opts options_flags
    add_options or_option or_bit lookup split has_prefix trim_suffix fields text_eq nat_eq
remount_example = refl
