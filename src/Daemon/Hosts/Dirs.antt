-- ===== src/Daemon/Hosts/Dirs.antt =====
-- internal/daemon/daemon.go: the directories in the list of `hostList`, one loop at a time.
use vibepod.Base.{Bool, false, not, ◌&&◌, Option, none, some, List, [], ◌∷◌, ◌++◌}
use vibepod.Base.{◌≡◌, refl, sym, ap, ◌∙◌, arith, All, append_assoc, append-nil}
use vibepod.Base.{Text, ◌==◌, contains, if◌then◌else◌, text_eq, nat_eq}
use vibepod.Base.Sort.{sort_by}
use vibepod.Base.Dict.{Dict, lookup, insert, get_or, get_or-insert}
use vibepod.Strings.{text_lt}
use vibepod.Route.{Rule}
use vibepod.Daemon.Hosts.Defs.{
  is_there, declare, declare_all, see_rule, see_rules, host_info, host_infos,
}
use vibepod.Daemon.Hosts.Names.{empty}

-- The directories that the rules give to a machine, in their order.
unfoldable pub owned_dirs : List Text → Text → List Rule → List Text
owned_dirs ids n [] = []
owned_dirs ids n (r ∷ rs) =
    let rest = owned_dirs ids n rs in
    if not (contains ids r.prefix) && r.owner == n then r.prefix ∷ rest else rest

missing : (o : Option (List Text)) → is_there o ≡ false → (elim o [ none ↦ [] | some v ↦ v ]) ≡ []
unfolding is_there
missing none h = refl
missing (some v) h = absurd (cc)

get_or-missing :
    (k : Text) (d : Dict Text (List Text)) → is_there (lookup k d) ≡ false → get_or k d [] ≡ []
unfolding get_or
get_or-missing k d h = missing (lookup k d) h

get_or-declare :
    (n k : Text) (d : Dict Text (List Text)) → get_or n (declare k d) [] ≡ get_or n d []
unfolding declare
get_or-declare n k d = ground (arith, get_or-missing k d, get_or-insert n k [] [] d)

get_or-declare_all :
    (n : Text) (ns : List Text) (d : Dict Text (List Text))
    → get_or n (declare_all ns d) [] ≡ get_or n d []
unfolding declare_all
get_or-declare_all n [] d = refl
get_or-declare_all n (k ∷ ns) d = get_or-declare_all n ns (declare k d) ∙ get_or-declare n k d

unfoldable own_dir : List Text → Text → Rule → List Text
own_dir ids n r = if not (contains ids r.prefix) && r.owner == n then r.prefix ∷ [] else []

get_or-owned :
    (n k p : Text) (d : Dict Text (List Text))
    → get_or n (insert k (get_or k d [] ++ p ∷ []) d) []
      ≡ get_or n d [] ++ (if k == n then p ∷ [] else [])
get_or-owned n k p d =
    ground (arith, get_or-insert n k (get_or k d [] ++ p ∷ []) [] d, append-nil (get_or n d []))

get_or-see_rule :
    (n : Text) (ids : List Text) (r : Rule) (d : Dict Text (List Text))
    → get_or n (see_rule ids r d) [] ≡ get_or n d [] ++ own_dir ids n r
unfolding see_rule own_dir
get_or-see_rule n ids r d =
    let owned = insert r.owner (get_or r.owner d [] ++ r.prefix ∷ []) d in
    let b = get_or-declare n r.exec_on owned in
    let c = get_or-owned n r.owner r.prefix d in ground (arith, append-nil (get_or n d []))

own_dir-cons :
    (n : Text) (ids : List Text) (r : Rule) (rs : List Rule)
    → own_dir ids n r ++ owned_dirs ids n rs ≡ owned_dirs ids n (r ∷ rs)
unfolding own_dir owned_dirs
own_dir-cons n ids r rs = ground arith

get_or-see_rules :
    (n : Text) (ids : List Text) (rs : List Rule) (d : Dict Text (List Text))
    → get_or n (see_rules ids rs d) [] ≡ get_or n d [] ++ owned_dirs ids n rs
unfolding see_rules
get_or-see_rules n ids [] d = unfold owned_dirs in sym (append-nil (get_or n d []))
get_or-see_rules n ids (r ∷ rs) d =
    get_or-see_rules n ids rs (see_rule ids r d)
    ∙ ap (λ l. l ++ owned_dirs ids n rs) (get_or-see_rule n ids r d)
    ∙ append_assoc (get_or n d []) (own_dir ids n r) (owned_dirs ids n rs)
    ∙ ap (λ l. get_or n d [] ++ l) (own_dir-cons n ids r rs)

pub All-host_infos :
    (reachable : Text → Bool) (default : Text) (declared ids : List Text) (rs : List Rule)
    (ns : List Text)
    → All
        (λ h. h.dirs ≡ sort_by text_lt (owned_dirs ids h.name rs))
        (host_infos reachable default (see_rules ids rs (declare_all declared [])) ns)
unfolding host_infos host_info
All-host_infos reachable default declared ids rs [] = tt
All-host_infos reachable default declared ids rs (n ∷ ns) = (
  ap (sort_by text_lt) (
      get_or-see_rules n ids rs (declare_all declared [])
      ∙ ap (λ l. l ++ owned_dirs ids n rs) (get_or-declare_all n declared [] ∙ nothing n)),
  All-host_infos reachable default declared ids rs ns,
)
  where
    nothing : (k : Text) → get_or k empty [] ≡ []
    nothing k = get_or-missing k empty (unfold is_there lookup in refl)
