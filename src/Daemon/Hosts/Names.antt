-- ===== src/Daemon/Hosts/Names.antt =====
-- internal/daemon/daemon.go: the names in the list of `hostList`, one loop at a time.
use vibepod.Base.{Bool, true, false, not, ◌&&◌, ◌||◌, List, [], ◌∷◌, ◌++◌}
use vibepod.Base.{◌≡◌, refl, sym, ap, arith, contains-In}
use vibepod.Base.{Text, ◌==◌, contains, text_eq, nat_eq}
use vibepod.Base.Sort.{sort_by, In-sort_by}
use vibepod.Base.Dict.{Dict, lookup, insert, get_or, lookup-insert}
use vibepod.Strings.{text_lt}
use vibepod.Route.{pod, Rule}
use vibepod.Daemon.Hosts.Defs.{
  HostInfo, is_there, declare, declare_all, see_rule, see_rules, others, unmounted_hosts, host_info,
  host_infos,
}

abbrev pub empty : Dict Text (List Text)
empty = []

-- A rule names a machine: it owns the directory, or its commands run there.
unfoldable pub rule_names : List Text → Text → List Rule → Bool
rule_names ids n [] = false
rule_names ids n (r ∷ rs) =
    not (contains ids r.prefix) && (r.owner == n || not (r.exec_on == []) && r.exec_on == n)
    || rule_names ids n rs

is_there-insert :
    (n k : Text) (v : List Text) (d : Dict Text (List Text))
    → is_there (lookup n (insert k v d)) ≡ (k == n || is_there (lookup n d))
unfolding is_there
is_there-insert n k v d = ground (arith, lookup-insert n k v d)

is_there-declare :
    (n k : Text) (d : Dict Text (List Text))
    → is_there (lookup n (declare k d)) ≡ (k == n || is_there (lookup n d))
unfolding declare
is_there-declare n k d = ground (arith, is_there-insert n k [] d)

pub is_there-declare_all :
    (n : Text) (ns : List Text) (d : Dict Text (List Text))
    → is_there (lookup n (declare_all ns d)) ≡ (contains ns n || is_there (lookup n d))
unfolding declare_all
is_there-declare_all n [] d = refl
is_there-declare_all n (k ∷ ns) d =
    ground (arith, is_there-declare_all n ns (declare k d), is_there-declare n k d)

is_there-see_rule :
    (n : Text) (ids : List Text) (r : Rule) (d : Dict Text (List Text))
    → is_there (lookup n (see_rule ids r d)) ≡ (
        not (contains ids r.prefix) && (r.owner == n || not (r.exec_on == []) && r.exec_on == n)
        || is_there (lookup n d))
unfolding see_rule
is_there-see_rule n ids r d =
    let owned = insert r.owner (get_or r.owner d [] ++ r.prefix ∷ []) d in
    let a = is_there-insert n r.owner (get_or r.owner d [] ++ r.prefix ∷ []) d in
    let b = is_there-declare n r.exec_on owned in ground arith

pub is_there-see_rules :
    (n : Text) (ids : List Text) (rs : List Rule) (d : Dict Text (List Text))
    → is_there (lookup n (see_rules ids rs d)) ≡ (rule_names ids n rs || is_there (lookup n d))
unfolding see_rules rule_names
is_there-see_rules n ids [] d = refl
is_there-see_rules n ids (r ∷ rs) d =
    let a = is_there-see_rules n ids rs (see_rule ids r d) in
    let b = is_there-see_rule n ids r d in ground arith

pub contains-append :
    (a b : List Text) (n : Text) → contains (a ++ b) n ≡ (contains a n || contains b n)
contains-append [] b n = refl
contains-append (x ∷ a) b n = ground (arith, contains-append a b n)

pub bool_eq : (a b : Bool) → (a ≡ true → b ≡ true) → (b ≡ true → a ≡ true) → a ≡ b
bool_eq true b f g = sym (f refl)
bool_eq false true f g = g refl
bool_eq false false f g = refl

pub contains-sort_by : (xs : List Text) (n : Text) → contains (sort_by text_lt xs) n ≡ contains xs n
contains-sort_by xs n =
    let to = contains-In (sort_by text_lt xs) n in
    let from = contains-In xs n in
    let same = In-sort_by text_lt n xs in
    bool_eq (contains (sort_by text_lt xs) n) (contains xs n) (λ y. from.1 (same.0 (to.0 y)))
      (λ y. to.1 (same.1 (from.0 y)))

pub contains-others :
    (d : Dict Text (List Text)) (n : Text)
    → contains (others d) n ≡ (not (n == pod) && is_there (lookup n d))
unfolding others is_there lookup
contains-others [] n = ground arith
contains-others ((k, v) ∷ d) n = ground (arith, contains-others d n)

pub contains-unmounted_hosts :
    (d : Dict Text (List Text)) (hs : List Text) (n : Text)
    → contains (unmounted_hosts d hs) n ≡ (contains hs n && not (is_there (lookup n d)))
unfolding unmounted_hosts
contains-unmounted_hosts d [] n = refl
contains-unmounted_hosts d (h ∷ hs) n = ground (arith, contains-unmounted_hosts d hs n)

abbrev pub names_of : List HostInfo → List Text
names_of [] = []
names_of (h ∷ hs) = h.name ∷ names_of hs

pub names_of-host_infos :
    (reachable : Text → Bool) (default : Text) (d : Dict Text (List Text)) (ns : List Text)
    → names_of (host_infos reachable default d ns) ≡ ns
unfolding host_infos host_info
names_of-host_infos reachable default d [] = refl
names_of-host_infos reachable default d (n ∷ ns) =
    ap (λ l. n ∷ l) (names_of-host_infos reachable default d ns)
