-- ===== src/Daemon/Mounts/Allowed.antt =====
-- internal/daemon/mount.go, `mountAllowed`: which machines a pod may ask to have mounted.
use vibepod.Base.{Bool, true, false, none, some, List, [], ◌∷◌}
use vibepod.Base.{
  ◌≡◌, refl, sym, ap, ◌∙◌, ◌↔◌, ◌⊎◌, arith, Text, text_eq, contains, contains-In, if◌then◌else◌,
}
use vibepod.Config.SshHosts.{
  Files, Declared, Some, Some-cons, ssh_config_paths, read_ssh_hosts, SshNames, ssh_hosts,
  in_ssh_config, read_ssh_hosts-Declared,
}

-- What a process has read, after it has asked for the machines at these times.
unfoldable read_from : SshNames → List (Files × Text) → SshNames
unfolding ssh_hosts
read_from read [] = read
read_from read ((fs, variable) ∷ times) = read_from (ssh_hosts fs variable read).1 times

unfoldable pub read_at : List (Files × Text) → SshNames
unfolding read_from
read_at times = read_from none times

abbrev pub first_read : List (Files × Text) → Files × Text → Files × Text
first_read [] now = now
first_read (t ∷ times) now = t

read_from-some :
    (names : List Text) (times : List (Files × Text)) → read_from (some names) times ≡ some names
unfolding read_from ssh_hosts
read_from-some names [] = refl
read_from-some names (t ∷ times) = read_from-some names times

-- The names that are looked through are those of the first time.
read_at-first :
    (earlier : List (Files × Text)) (fs : Files) (variable : Text)
    → (ssh_hosts fs variable (read_at earlier)).0
      ≡ read_ssh_hosts (first_read earlier (fs, variable)).0 (
          ssh_config_paths
            (first_read earlier (fs, variable)).1
            (first_read earlier (fs, variable)).0.home)
unfolding read_at read_from ssh_hosts
read_at-first [] fs variable = refl
read_at-first ((fs0, variable0) ∷ times) fs variable =
    rw (read_from-some (read_ssh_hosts fs0 (ssh_config_paths variable0 fs0.home)) times) refl

-- `matches` is `filepath.Match` without its error, whose answer is false.
module _ (matches : Text → Text → Bool) where
  unfoldable pub match_any : List Text → Text → Bool
  match_any [] host = false
  match_any (p ∷ ps) host = if matches p host then true else match_any ps host

  -- `mountAllowed`; `variable` is VIBEPOD_SSH_CONFIG, `read` what the process has read of the ssh config.
  unfoldable pub mount_allowed : List Text → Files → Text → Text → SshNames → Bool × SshNames
  unfolding match_any
  mount_allowed [] fs variable host read = in_ssh_config fs variable host read
  mount_allowed (p ∷ ps) fs variable host read = (match_any (p ∷ ps) host, read)

  match_any_iff :
      (ps : List Text) (host : Text)
      → (match_any ps host ≡ true) ↔ Some (λ p. matches p host ≡ true) ps
  unfolding match_any
  match_any_iff [] host = ((λ e. absurd (ground arith)), (λ h. absurd h.1))
  match_any_iff (p ∷ ps) host =
      both (match_any_iff ps host) (Some-cons (λ q. matches q host ≡ true) p ps)
    where
      both :
          (match_any ps host ≡ true) ↔ Some (λ q. matches q host ≡ true) ps
          → ((matches p host ≡ true) ⊎ Some (λ q. matches q host ≡ true) ps)
            ↔ Some (λ q. matches q host ≡ true) (p ∷ ps)
          → ((if matches p host then true else match_any ps host) ≡ true)
            ↔ Some (λ q. matches q host ≡ true) (p ∷ ps)
      both a b = ground arith

  -- Who may be mounted from inside a pod, by the ssh config `fs` and `variable`.
  abbrev pub MayMount : List Text → Files → Text → Text → Type 0
  MayMount [] fs variable host =
      Some (λ path. Declared fs 9 path host) (ssh_config_paths variable fs.home)
  MayMount (p ∷ ps) fs variable host = Some (λ q. matches q host ≡ true) (p ∷ ps)

  -- mountAllowed, in a process that has asked for the machines of the ssh config at `earlier` times, each
  -- with the files and the variable as they were then: it lets a machine through just if a pattern of
  -- can_mount matches it, or, where can_mount is empty, if the ssh config as it was at the first of
  -- these times (as it is now, if there is none), with what it includes over eight files one in
  -- another, has it in a Host line and it is no pattern.
  pub mount_allowed_iff :
      (can_mount : List Text) (earlier : List (Files × Text)) (fs : Files) (variable host : Text)
      → ((mount_allowed can_mount fs variable host (read_at earlier)).0 ≡ true)
        ↔ MayMount can_mount
            (first_read earlier (fs, variable)).0
            (first_read earlier (fs, variable)).1
            host
  unfolding mount_allowed in_ssh_config
  mount_allowed_iff [] earlier fs variable host =
      let (fs0, variable0) = first_read earlier (fs, variable) in
      let paths = ssh_config_paths variable0 fs0.home in
      chain (names_known host (read_at-first earlier fs variable))
        (contains-In (read_ssh_hosts fs0 paths) host) ((read_ssh_hosts-Declared fs0 paths).2 host)
    where
      chain : {A B C D : Type 0} → A ↔ B → B ↔ C → C ↔ D → A ↔ D
      chain a b c = ground arith

      names_known :
          {a b : List Text} (name : Text)
          → a ≡ b
          → (contains a name ≡ true) ↔ (contains b name ≡ true)
      names_known name e =
          (λ y. ap (λ l. contains l name) (sym e) ∙ y, λ y. ap (λ l. contains l name) e ∙ y)
  mount_allowed_iff (p ∷ ps) earlier fs variable host = match_any_iff (p ∷ ps) host
