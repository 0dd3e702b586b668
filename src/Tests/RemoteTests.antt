-- ===== src/Tests/RemoteTests.antt =====
-- internal/remote at concrete inputs.
use vibepod.Base.{false, some, List, [], ◌∷◌, ◌≡◌, refl}
use vibepod.Base.{Text, codes, text_eq, nat_eq}
use vibepod.Strings.{cut, join, replace_all}
use vibepod.Remote.{
  Host, in_pod, quote, valid_name, valid_from, is_letter, is_digit, one_assignment, assignment_list,
  with_space, assignments, join_args, remote_command, run_script, cd_part, command_part, enter_at,
  words, Req, words-remote_command,
}

abbrev script : Text
script = codes "echo 'it works'; exit 3"

abbrev argv : List Text
argv = codes "grep" ∷ codes "it's" ∷ [] ∷ codes "$HOME" ∷ []

abbrev env : List Text
env = codes "LANG=C UTF" ∷ codes "2X=1" ∷ codes "BAD" ∷ codes "A_1=" ∷ []

quote_example : quote (codes "it's") ≡ codes "'it'\\''s'"
unfolding quote replace_all nat_eq
quote_example = refl

assignments_example : assignments env ≡ codes "LANG='C UTF' A_1='' "
unfolding assignments assignment_list one_assignment with_space join cut quote replace_all
    valid_name valid_from is_letter is_digit nat_eq text_eq
assignments_example = refl

abbrev gpu : Host
gpu = record { alias = codes "gpu"; enter = []; opts = codes "-oX" ∷ [] }

run_script_example :
    run_script gpu
      (record { dir = codes "/w"; argv = codes "ls" ∷ []; env = []; tty = false; id = codes "7" })
    ≡ codes
        "d=\"${TMPDIR:-/tmp}/vibepod-$(id -u)\"; mkdir -p \"$d\"; echo $$ > \"$d/7\"; cd '/w' || exit 1; PATH=\"$PATH:$HOME/.vp/bin\"; export PATH; exec 'ls'"
unfolding run_script cd_part command_part assignments assignment_list with_space join_args join
    quote replace_all text_eq nat_eq
run_script_example = refl

command_part_example :
    command_part
      (in_pod gpu (codes "/h") (codes "p"))
      (record { dir = codes "/w"; argv = codes "ls" ∷ []; env = []; tty = false; id = codes "7" })
    ≡ codes "/h/.vp/bin/vibepod nodeexec --pod p --pidfile \"$d/7.pod\" --cwd '/w' -- 'ls'"
unfolding in_pod command_part enter_at join_args join quote replace_all text_eq nat_eq
command_part_example = refl

script_cut : words (remote_command script) ≡ some (codes "sh" ∷ codes "-c" ∷ script ∷ [])
script_cut = words-remote_command script

-- A command for a node's pod.
abbrev node : Host
node = in_pod (record { alias = codes "gpu"; enter = []; opts = [] }) (codes "/home/u") (codes "p")

abbrev request : Req
request = record { dir = codes "/it's"; argv = argv; env = env; tty = false; id = codes "7" }

abbrev entered : List Text
entered = codes "/home/u/.vp/bin/vibepod" ∷ codes "nodeexec" ∷ codes "--pod" ∷ codes "p" ∷ []
