-- ===== src/Daemon/Hosts/Laws.antt =====
-- internal/daemon/daemon.go: which machines `hostList` names.
use vibepod.Base.{Bool, false, not, ◌&&◌, ◌||◌, List, [], ◌∷◌, ◌++◌}
use vibepod.Base.{◌≡◌, refl, sym, ap, ◌∙◌, arith, All}
use vibepod.Base.{Text, ◌==◌, ==_iff, contains, text_eq, nat_eq}
use vibepod.Base.Sort.{sort_by}
use vibepod.Base.Dict.{lookup}
use vibepod.Strings.{text_lt}
use vibepod.Route.{pod, Table}
use vibepod.Daemon.Mounts.{MountRec}
use vibepod.Daemon.Hosts.Defs.{
  is_there, declare_all, identities, see_rules, others, unmounted_hosts, host_names, host_dirs,
  pod_host_list,
}
use vibepod.Daemon.Hosts.Names.{
  rule_names, names_of, is_there-see_rules, is_there-declare_all, contains-append, contains-sort_by,
  contains-others, contains-unmounted_hosts, names_of-host_infos, bool_eq,
}
use vibepod.Daemon.Hosts.Dirs.{owned_dirs, All-host_infos}

==_comm : (a b : Text) → (a == b) ≡ (b == a)
==_comm a b =
    bool_eq (a == b) (b == a) (λ y. (==_iff b a).1 (sym ((==_iff a b).0 y)))
      (λ y. (==_iff a b).1 (sym ((==_iff b a).0 y)))

together :
    (p d r c k : Bool)
    → k ≡ (r || (d || false))
    → (p || ((not p && k) || (c && not k))) ≡ (p || d || r || c)
together p d r c k e = ground arith

-- hostList names the pod, the machines that the configuration declares or a rule names that is not
-- of an identity, and those of the ssh config, and no other; and of each machine it
-- lists, sorted, just the directories that such rules give it.
pub names_of-pod_host_list :
    (reachable : Text → Bool) (declared ssh_hosts : List Text) (mounts : List MountRec)
    (table : Table)
    → ((n : Text)
        → contains (names_of (pod_host_list reachable declared ssh_hosts mounts table)) n ≡ (
            n == pod
            || contains declared n
            || rule_names (identities mounts) n table.rules
            || contains ssh_hosts n))
      × All
          (λ h. h.dirs ≡ sort_by text_lt (owned_dirs (identities mounts) h.name table.rules))
          (pod_host_list reachable declared ssh_hosts mounts table)
unfolding pod_host_list host_dirs host_names
names_of-pod_host_list reachable declared ssh_hosts mounts table =
    let ids = identities mounts in
    let d = see_rules ids table.rules (declare_all declared []) in
    (
      λ n.
          ap (λ l. contains l n)
            (names_of-host_infos reachable table.default d
              (pod ∷ (sort_by text_lt (others d) ++ unmounted_hosts d ssh_hosts)))
          ∙ listed n,
      All-host_infos reachable table.default declared ids table.rules (host_names d ssh_hosts),
    )
  where
    listed :
        (n : Text)
        → contains
            (pod
              ∷ (sort_by text_lt
                    (others (see_rules (identities mounts) table.rules (declare_all declared [])))
                  ++ unmounted_hosts
                      (see_rules (identities mounts) table.rules (declare_all declared []))
                      ssh_hosts))
            n
          ≡ (n == pod
              || contains declared n
              || rule_names (identities mounts) n table.rules
              || contains ssh_hosts n)
    listed n =
        let ids = identities mounts in
        let d = see_rules ids table.rules (declare_all declared []) in
        ap (λ b. b || contains (sort_by text_lt (others d) ++ unmounted_hosts d ssh_hosts) n)
          (==_comm pod n)
        ∙ ap (λ b. n == pod || b)
            (contains-append (sort_by text_lt (others d)) (unmounted_hosts d ssh_hosts) n
              ∙ ap (λ b. b || contains (unmounted_hosts d ssh_hosts) n)
                  (contains-sort_by (others d) n ∙ contains-others d n)
              ∙ ap (λ b. (not (n == pod) && is_there (lookup n d)) || b)
                  (contains-unmounted_hosts d ssh_hosts n))
        ∙ together (n == pod) (contains declared n) (rule_names ids n table.rules)
            (contains ssh_hosts n) (is_there (lookup n d))
            (is_there-see_rules n ids table.rules (declare_all declared [])
              ∙ ap (λ b. rule_names ids n table.rules || b)
                  (is_there-declare_all n declared []
                    ∙ ap (λ b. contains declared n || b) (unfold is_there lookup in refl)))
