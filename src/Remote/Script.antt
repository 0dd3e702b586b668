-- ===== src/Remote/Script.antt =====
-- internal/remote/exec.go: what a shell reads at the end of the script of `Run`.
use vibepod.Base.{◌≢◌, ◌≡◌, some, List, [], ◌∷◌, ◌++◌}
use vibepod.Base.{Text, codes, ◌==◌, if◌then◌else◌, text_eq}
use vibepod.Remote.Defs.{Host, Req, quote, run_dir_expr, join_args, cd_part, run_script}
use vibepod.Remote.Words.{words}
use vibepod.Remote.Laws.{passed_on}

-- The script up to the assignments: it does not depend on them, nor on the command.
abbrev pub script_front : Host → Req → Text
script_front h r =
    codes "d="
    ++ (run_dir_expr
        ++ (codes "; mkdir -p \"$d\"; echo $$ > \"$d/"
            ++ (r.id
                ++ (codes "\"; "
                    ++ (cd_part h r.dir
                        ++ codes "; PATH=\"$PATH:$HOME/.vp/bin\"; export PATH; ")))))

-- The file for the pid inside the pod; the shell puts the directory in.
abbrev pub pid_file : Req → Text
pid_file r = codes "\"$d/" ++ (r.id ++ codes ".pod\"")

abbrev pub cwd_words : Text → List Text
cwd_words dir = if dir == [] then [] else codes "--cwd" ∷ dir ∷ []

-- What a shell reads behind the front of the script, on a machine and in a node's pod, which is entered
-- by the words `entered`. In the pod's case one word, the pid file, is left to the shell.
pub data ScriptReads (h : Host) (r : Req) (entered : List Text) : Type 0 where
  on_machine :
      (last : Text)
      → h.enter ≡ []
      → run_script h r ≡ script_front h r ++ last
      → words last ≡ some (passed_on r.env ++ codes "exec" ∷ r.argv)
      → ScriptReads h r entered
  in_node :
      (first last : Text)
      → h.enter ≢ []
      → run_script h r ≡ script_front h r ++ (first ++ b' ' ∷ (pid_file r ++ b' ' ∷ last))
      → words first ≡ some (passed_on r.env ++ codes "exec" ∷ (entered ++ codes "--pidfile" ∷ []))
      → words last ≡ some (cwd_words r.dir ++ codes "--" ∷ r.argv)
      → ScriptReads h r entered

-- The rest of the command behind the pid file.
abbrev pod_args : Text → List Text → Text
pod_args dir argv =
    (if dir == [] then [] else codes "--cwd " ++ (quote dir ++ codes " "))
    ++ (codes "-- " ++ join_args argv)
