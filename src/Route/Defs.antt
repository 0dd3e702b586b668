-- ===== src/Route/Defs.antt =====
-- internal/route/route.go: the path map, and the questions put to it.
use vibepod.Base.{Bool, true, not, ◌&&◌, ◌||◌, Option, none, some, List, [], ◌∷◌, ◌++◌}
use vibepod.Base.{Text, codes, ◌==◌, if◌then◌else◌, text_eq, length, ltb, sort_by}
use vibepod.Strings.{has_prefix, trim_prefix, trim_suffix}
use vibepod.Filepath.{clean, join_path, slash}

-- `Pod`, the backend that means "run here".
abbrev pub pod : Text
pod = codes "pod"

pub record Rule : Type 0 where
  pub prefix : Text
  pub owner : Text
  pub remote_path : Text
  pub exec_on : Text

-- The rules stand longest prefix first.
pub record Table : Type 0 where
  pub rules : List Rule
  pub default : Text

-- The order of `sort.SliceStable` in `New`: `len(sorted[i].Prefix) > len(sorted[j].Prefix)`.
unfoldable pub longer : Rule → Rule → Bool
longer q r = ltb (length r.prefix) (length q.prefix)

unfoldable pub sort_rules : List Rule → List Rule
unfolding longer
sort_rules = sort_by longer

-- `New`.
unfoldable pub new : Text → List Rule → Table
unfolding sort_rules
new def rules = record { rules = sort_rules rules; default = if def == [] then pod else def }

unfoldable pub under : Text → Text → Bool
unfolding has_prefix trim_suffix
under path prefix =
    let p = clean path in
    let q = clean prefix in if p == q then true else has_prefix p (trim_suffix q b'/' ++ slash)

unfoldable pub rebase : Text → Text → Text → Text
unfolding trim_prefix
rebase cwd prefix remote_path =
    if remote_path == [] || remote_path == prefix
    then cwd
    else join_path remote_path (trim_prefix (clean cwd) (clean prefix))

-- The loop of `Dir`. A nil table is `none` below.
unfoldable pub dir_in : List Rule → Text → Text → Text
dir_in [] cwd backend = cwd
dir_in (r ∷ rs) cwd backend =
    if r.owner == backend && under cwd r.prefix
    then rebase cwd r.prefix r.remote_path
    else dir_in rs cwd backend

-- `Dir`.
unfoldable pub dir : Option Table → Text → Text → Text
unfolding dir_in
dir none cwd backend = cwd
dir (some t) cwd backend = if backend == pod then cwd else dir_in t.rules cwd backend

-- The first rule whose subtree holds the directory: the `for` loop of `Owner` and `Suggest`.
unfoldable pub first_under : List Rule → Text → Option Rule
first_under [] cwd = none
first_under (r ∷ rs) cwd = if under cwd r.prefix then some r else first_under rs cwd

-- `Owner`.
unfoldable pub owner_of : Option Table → Text → Text
unfolding first_under
owner_of none cwd = pod
owner_of (some t) cwd = elim (first_under t.rules cwd) [ none ↦ pod | some r ↦ r.owner ]

-- What `Suggest` returns for the rule that it finds.
unfoldable pub suggestion : Rule → Text
suggestion r =
    if not (r.exec_on == []) then r.exec_on else if not (r.owner == pod) then r.owner else []

-- `Suggest`.
unfoldable pub suggest : Option Table → Text → Text
unfolding first_under suggestion
suggest none cwd = []
suggest (some t) cwd = elim (first_under t.rules cwd) [ none ↦ [] | some r ↦ suggestion r ]

-- `Private`: the pod's own machinery.
unfoldable pub private : Text → Bool
private path = under path (codes "/vp")
