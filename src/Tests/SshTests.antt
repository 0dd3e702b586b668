-- ===== src/Tests/SshTests.antt =====
-- internal/config/sshconfig.go and `mountAllowed` at concrete files.
use vibepod.Base.{true, none, some, [], ◌∷◌, ◌≡◌, ◌≢◌, ◌↔◌, refl, In, Pairwise}
use vibepod.Base.{Text, codes, text_eq, nat_eq, ◌==◌, if◌then◌else◌}
use vibepod.Base.Sort.{sort_by, IsSorted}
use vibepod.Strings.{has_prefix, trim_prefix, split, join, text_lt}
use vibepod.Strings.Space.{trim_space, fields}
use vibepod.Filepath.{join_path, clean}
use vibepod.Config.SshHosts.{
  Files, Declared, Some, low, lower_is, is_blank_or_eq, cut_field, directive_of, directive,
  is_pattern, add_name, add_names, dir_of, expand_include, included, visit_all, obey, read_lines,
  read_file, visit, read_ssh_hosts, read_ssh_hosts-Declared,
}
use vibepod.Daemon.Mounts.{mount_allowed, read_at, MayMount, mount_allowed_iff}

abbrev config : Text
config = codes "/u/.ssh/config"

abbrev more : Text
more = codes "/u/.ssh/more"

abbrev files : Files
files = record {
  lines_of = λ p.
      if p == config
      then some (codes "# mine" ∷ codes "Host gpu03 *.lab gpu03" ∷ codes "include=~/.ssh/more" ∷ [])
      else if p == more
      then some (codes "  HOST aiot" ∷ codes "Include more" ∷ [])
      else none;
  glob = λ p. p ∷ [];
  home = some (codes "/u");
}

hosts_run : read_ssh_hosts files (config ∷ []) ≡ codes "aiot" ∷ codes "gpu03" ∷ []
unfolding read_ssh_hosts visit read_file read_lines obey directive directive_of cut_field
    is_blank_or_eq lower_is low is_pattern add_names add_name visit_all included expand_include
    dir_of join_path clean trim_space fields has_prefix trim_prefix split join sort_by text_lt
    text_eq nat_eq
hosts_run = refl

read_ssh_hosts-Declared_example :
    IsSorted text_lt (read_ssh_hosts files (config ∷ []))
    × Pairwise (λ x y. x ≢ y) (read_ssh_hosts files (config ∷ []))
    × ((x : Text)
        → In x (read_ssh_hosts files (config ∷ []))
          ↔ Some (λ p. Declared files 9 p x) (config ∷ []))
read_ssh_hosts-Declared_example = read_ssh_hosts-Declared files (config ∷ [])

-- A file that is written after the first time is not seen.
abbrev later : Files
later = record files { lines_of = λ p. some (codes "Host laptop" ∷ []) }

mount_allowed_iff_example :
    ((mount_allowed (λ p h. p == h) [] later [] (codes "gpu03") (read_at ((files, []) ∷ []))).0
      ≡ true)
    ↔ MayMount (λ p h. p == h) [] files [] (codes "gpu03")
mount_allowed_iff_example =
    mount_allowed_iff (λ p h. p == h) [] ((files, []) ∷ []) later [] (codes "gpu03")
