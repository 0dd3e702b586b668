-- ===== src/Config/SshHosts/Defs.antt =====
-- internal/config/sshconfig.go: `readSSHHosts`, `expandInclude`, `cutField` and `InSSHConfig`.
use vibepod.Base.{
  ℕ, zero, suc, Bool, true, false, not, ◌||◌, Option, none, some, List, [], ◌∷◌, ◌++◌,
}
use vibepod.Base.{◌+◌, ◌&&◌, Text, codes, ◌==◌, if◌then◌else◌, nat_eq, text_eq, leb, contains}
use vibepod.Base.Sort.{sort_by}
use vibepod.Strings.{has_prefix, trim_prefix, text_lt}
use vibepod.Strings.Space.{trim_space, fields}
use vibepod.Filepath.{clean, join_path, is_abs}

-- The file system: the lines that a scanner reads of a file that can be opened, the matches of a pattern (none of them for
-- a bad one), and the user's home, if there is one.
pub record Files : Type 0 where
  pub lines_of : Text → Option (List Text)
  pub glob : Text → List Text
  pub home : Option Text

-- The byte under which `strings.ToLower` knows a byte of an ASCII letter.
unfoldable pub low : ℕ → ℕ
low c = if leb b'A' c && leb c b'Z' then c + 32 else c

-- `strings.ToLower(s) == t` for a `t` of ASCII letters without `k`: of the other letters only U+0130
-- becomes an ASCII letter then, the letter `i`.
unfoldable pub lower_is : Text → Text → Bool
lower_is [] [] = true
lower_is [] (y ∷ t) = false
lower_is (x ∷ s) [] = false
lower_is (x ∷ []) (y ∷ t) = low x == y && lower_is [] t
lower_is (x ∷ z ∷ s) (y ∷ t) =
    if x == 0xc4 && z == 0xb0 then y == b'i' && lower_is s t else low x == y && lower_is (z ∷ s) t

unfoldable pub is_blank_or_eq : ℕ → Bool
is_blank_or_eq c = c == 0x20 || c == 0x09 || c == b'='

-- `strings.TrimLeft(s, " \t=")`
unfoldable pub trim_left : Text → Text
trim_left [] = []
trim_left (c ∷ s) = if is_blank_or_eq c then trim_left s else c ∷ s

unfoldable pub cut_rest : Text → Option (Text × Text)
unfolding is_blank_or_eq trim_left
cut_rest [] = none
cut_rest (c ∷ s) =
    if is_blank_or_eq c
    then some ([], trim_left s)
    else elim (cut_rest s) [ none ↦ none | some (k, r) ↦ some (c ∷ k, r) ]

-- `cutField`: none where the key is empty or nothing separates it.
unfoldable pub cut_field : Text → Option (Text × Text)
unfolding cut_rest
cut_field line = elim (cut_rest line) [
  | none ↦ none
  | some ([], r) ↦ none
  | some (c ∷ k, r) ↦ some (c ∷ k, r)
]

-- What a line of the file says.
pub data Directive : Type 0 where
  hosts : List Text → Directive
  includes : List Text → Directive
  other : Directive

unfoldable pub directive_of : Option (Text × Text) → Directive
unfolding lower_is fields
directive_of none = other
directive_of (some (key, rest)) =
    if lower_is key (codes "host")
    then hosts (fields rest)
    else if lower_is key (codes "include")
    then includes (fields rest)
    else other

unfoldable pub directive : Text → Directive
unfolding directive_of cut_field trim_space has_prefix
directive text =
    let line = trim_space text in
    if line == [] || has_prefix line (codes "#") then other else directive_of (cut_field line)

-- `strings.ContainsAny(name, "*?!")`
unfoldable pub is_pattern : Text → Bool
is_pattern [] = false
is_pattern (c ∷ s) = (c == b'*' || c == b'?' || c == b'!') || is_pattern s

-- The state of `readSSHHosts`.
pub record Hosts : Type 0 where
  pub seen : List Text
  pub out : List Text

unfoldable pub add_name : Text → Hosts → Hosts
unfolding is_pattern
add_name name st =
    if is_pattern name || contains st.seen name
    then st
    else record { seen = name ∷ st.seen; out = st.out ++ name ∷ [] }

unfoldable pub add_names : List Text → Hosts → Hosts
unfolding add_name
add_names [] st = st
add_names (n ∷ ns) st = add_names ns (add_name n st)

-- `filepath.Dir`: what stands before the last slash and with it, cleaned.
unfoldable pub up_to_slash : Text → Text
up_to_slash [] = []
up_to_slash (c ∷ s) =
    let rest = up_to_slash s in if c == b'/' || not (rest == []) then c ∷ rest else []

unfoldable pub dir_of : Text → Text
unfolding up_to_slash clean
dir_of path = clean (up_to_slash path)

unfoldable pub at_home : Text → Option Text → Text
at_home pat none = pat
at_home pat (some home) = join_path home (trim_prefix pat (codes "~/"))

unfoldable pub anchored : Text → Text → Text
unfolding join_path is_abs
anchored dir pat = if not (is_abs pat) then join_path dir pat else pat

-- `expandInclude`
unfoldable pub expand_include : Files → Text → Text → List Text
unfolding at_home anchored
expand_include fs dir pat =
    fs.glob (anchored dir (if has_prefix pat (codes "~/") then at_home pat fs.home else pat))

-- The two loops over the patterns of an Include and the matches of each.
unfoldable pub included : Files → Text → List Text → List Text
unfolding expand_include
included fs dir [] = []
included fs dir (p ∷ ps) = expand_include fs dir p ++ included fs dir ps

module _ (visit : Text → Hosts → Hosts) where
  unfoldable pub visit_all : List Text → Hosts → Hosts
  visit_all [] st = st
  visit_all (p ∷ ps) st = visit_all ps (visit p st)

module _ (fs : Files) (visit : Text → Hosts → Hosts) where
  unfoldable pub obey : Text → Directive → Hosts → Hosts
  unfolding add_names visit_all included
  obey dir (hosts ns) st = add_names ns st
  obey dir (includes ps) st = visit_all visit (included fs dir ps) st
  obey dir other st = st

  unfoldable pub read_lines : Text → List Text → Hosts → Hosts
  unfolding obey directive
  read_lines dir [] st = st
  read_lines dir (l ∷ ls) st = read_lines dir ls (obey dir (directive l) st)

  unfoldable pub read_file : Text → Option (List Text) → Hosts → Hosts
  unfolding read_lines
  read_file dir none st = st
  read_file dir (some ls) st = read_lines dir ls st

-- `visit`; `left` is 9 less `depth`, which is let through up to 8.
unfoldable pub visit : Files → ℕ → Text → Hosts → Hosts
unfolding read_file dir_of
visit fs zero path st = st
visit fs (suc left) path st = read_file fs (visit fs left) (dir_of path) (fs.lines_of path) st

-- `readSSHHosts`
unfoldable pub read_ssh_hosts : Files → List Text → List Text
unfolding visit
read_ssh_hosts fs paths =
    sort_by text_lt (visit_all (visit fs 9) paths (record { seen = []; out = [] })).out

-- `sshConfigPaths`, of what VIBEPOD_SSH_CONFIG holds.
unfoldable pub ssh_config_paths : Text → Option Text → List Text
ssh_config_paths [] none = []
ssh_config_paths [] (some home) = join_path (join_path home (codes ".ssh")) (codes "config") ∷ []
ssh_config_paths (c ∷ f) home = (c ∷ f) ∷ []

-- `sshOnce` and `sshNames`: the names, once they have been read.
abbrev pub SshNames : Type 0
SshNames = Option (List Text)

-- `SSHHosts`, of files as they are now; `variable` is VIBEPOD_SSH_CONFIG.
unfoldable pub ssh_hosts : Files → Text → SshNames → List Text × SshNames
ssh_hosts fs variable (some names) = (names, some names)
ssh_hosts fs variable none =
    let names = read_ssh_hosts fs (ssh_config_paths variable fs.home) in (names, some names)

-- `InSSHConfig`
unfoldable pub in_ssh_config : Files → Text → Text → SshNames → Bool × SshNames
unfolding ssh_hosts
in_ssh_config fs variable name read =
    (contains (ssh_hosts fs variable read).0 name, (ssh_hosts fs variable read).1)
