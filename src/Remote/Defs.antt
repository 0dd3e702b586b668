-- ===== src/Remote/Defs.antt =====
-- internal/remote/exec.go and shell.go. What ssh itself does with a command line is a parameter.
use vibepod.Base.{
  ℕ, ◌+◌, Bool, true, false, not, ◌&&◌, ◌||◌, Option, none, some, List, [], ◌∷◌, ◌++◌, map,
}
use vibepod.Base.{Text, codes, ◌==◌, if◌then◌else◌, text_eq, nat_eq, leb}
use vibepod.Strings.{cut, join, replace_all}

-- `Host`, as far as a command line needs it: an empty `enter` is the machine itself, another is
-- the prefix that enters its pod. `opts` is what `Opts` returns.
pub record Host : Type 0 where
  pub alias : Text
  pub enter : Text
  pub opts : List Text

-- `InPod`
unfoldable pub in_pod : Host → Text → Text → Host
in_pod h home pod = record h { enter = home ++ (codes "/.vp/bin/vibepod nodeexec --pod " ++ pod) }

-- `IsInPod`
unfoldable pub is_in_pod : Host → Bool
is_in_pod h = not (h.enter == [])

-- The text that stands for a quote inside quotes.
abbrev pub quoted_quote : Text
quoted_quote = b'\'' ∷ b'\\' ∷ b'\'' ∷ b'\'' ∷ []

-- `quote`
unfoldable pub quote : Text → Text
quote s = b'\'' ∷ (replace_all s b'\'' quoted_quote ++ b'\'' ∷ [])

abbrev pub in_range : ℕ → ℕ → ℕ → Bool
in_range lo hi c = leb lo c && leb c hi

unfoldable pub is_letter : ℕ → Bool
is_letter c = in_range b'a' b'z' c || in_range b'A' b'Z' c || c == b'_'

unfoldable pub is_digit : ℕ → Bool
is_digit c = in_range b'0' b'9' c

-- The loop of `validName`; `first` is `i == 0`. A character beyond ASCII is refused, and so is
-- each of its bytes.
unfoldable pub valid_from : Bool → Text → Bool
valid_from first [] = true
valid_from first (c ∷ name) =
    if is_letter c || is_digit c && not first then valid_from false name else false

-- `validName`
unfoldable pub valid_name : Text → Bool
valid_name name = valid_from true name

-- One round of the loop of `assignments`.
unfoldable pub one_assignment : Option (Text × Text) → List Text
one_assignment none = []
one_assignment (some (name, value)) =
    if name == [] || not (valid_name name) then [] else (name ++ b'=' ∷ quote value) ∷ []

unfoldable pub assignment_list : List Text → List Text
assignment_list [] = []
assignment_list (kv ∷ env) = one_assignment (cut kv b'=') ++ assignment_list env

unfoldable pub with_space : List Text → Text
with_space [] = []
with_space (p ∷ ps) = join (p ∷ ps) (codes " ") ++ codes " "

-- `assignments`
unfoldable pub assignments : List Text → Text
assignments env = with_space (assignment_list env)

-- `joinArgs`
unfoldable pub join_args : List Text → Text
join_args argv = join (map quote argv) (codes " ")

-- `enterAt`
unfoldable pub enter_at : Host → Text → Bool → Text → Text
enter_at h dir tty extra =
    h.enter
    ++ (extra
        ++ ((if tty then codes " --tty" else [])
            ++ ((if dir == [] then [] else codes " --cwd " ++ quote dir) ++ codes " --")))

-- `runDirExpr`
abbrev pub run_dir_expr : Text
run_dir_expr = codes "\"${TMPDIR:-/tmp}/vibepod-$(id -u)\""

pub record Req : Type 0 where
  pub dir : Text
  pub argv : List Text
  pub env : List Text
  pub tty : Bool
  pub id : Text

-- The directory part of the script of `Run`.
unfoldable pub cd_part : Host → Text → Text
cd_part h dir =
    if not (h.enter == [])
    then codes "cd"
    else if dir == []
    then codes "cd || exit 1"
    else codes "cd " ++ (quote dir ++ codes " || exit 1")

-- The command part of the script of `Run`.
unfoldable pub command_part : Host → Req → Text
command_part h r =
    if h.enter == []
    then join_args r.argv
    else enter_at h r.dir false (codes " --pidfile \"$d/" ++ (r.id ++ codes ".pod\""))
      ++ (codes " " ++ join_args r.argv)

-- The script of `Run`.
unfoldable pub run_script : Host → Req → Text
run_script h r =
    codes "d="
    ++ (run_dir_expr
        ++ (codes "; mkdir -p \"$d\"; echo $$ > \"$d/"
            ++ (r.id
                ++ (codes "\"; "
                    ++ (cd_part h r.dir
                        ++ (codes "; PATH=\"$PATH:$HOME/.vp/bin\"; export PATH; "
                            ++ (assignments r.env ++ (codes "exec " ++ command_part h r))))))))

-- What a machine is asked to run: one argument to ssh, which its shell reads.
unfoldable pub remote_command : Text → Text
remote_command script = codes "sh -c " ++ quote script

-- The arguments of ssh in `Run`.
unfoldable pub run_args : Host → Req → List Text
run_args h r =
    h.opts
    ++ ((if r.tty then codes "-tt" else codes "-T")
        ∷ h.alias
        ∷ remote_command (run_script h r)
        ∷ [])

-- How ssh may end: it could not be run, it exited, or a signal ended it. (`ExitCode` of the last
-- is -1, never 255.)
pub data Ended : Type 0 where
  not_run : Ended
  exited : ℕ → Ended
  signalled : ℕ → Ended

-- What `Run` returns: a status, or the broken link.
pub data RunResult : Type 0 where
  status : ℕ → RunResult
  link_down : RunResult

unfoldable pub run_result : Ended → RunResult
run_result not_run = link_down
run_result (exited code) = if code == 255 then link_down else status code
run_result (signalled n) = status (128 + n)

-- `shellEscape`
unfoldable pub shell_escape : Text → Text
shell_escape [] = []
shell_escape (c ∷ s) =
    if c == b'"' || c == b'\\' || c == b'$' || c == b'`'
    then b'\\' ∷ c ∷ shell_escape s
    else c ∷ shell_escape s

-- The script of `Shell`.
unfoldable pub shell_script : Host → Text → Text
shell_script h dir =
    if h.enter == []
    then codes "cd "
      ++ (quote dir
          ++ (codes " 2>/dev/null || { echo \"vibepod: "
              ++ (shell_escape dir
                  ++ codes
                      " does not exist here; starting in $HOME\" >&2; cd; }; exec \"${SHELL:-/bin/sh}\" -l")))
    else codes "cd; exec " ++ (enter_at h dir true [] ++ codes " \"${SHELL:-/bin/sh}\" -l")

-- The arguments of ssh in `Shell`.
unfoldable pub shell_args : Host → Text → List Text
shell_args h dir = h.opts ++ (codes "-tt" ∷ h.alias ∷ remote_command (shell_script h dir) ∷ [])
