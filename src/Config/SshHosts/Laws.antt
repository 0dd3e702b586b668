-- ===== src/Config/SshHosts/Laws.antt =====
-- internal/config/sshconfig.go: which names `readSSHHosts` finds.
use vibepod.Base.{ℕ, zero, suc, Bool, true, false, Option, none, some, List, []}
use vibepod.Base.{◌≡◌, ◌≢◌, ◌↔◌, ◌⊎◌, refl, sym, ◌∙◌, arith}
use mathlib.Core.Path.{subst}
use vibepod.Base.{In, Pairwise, Text, text_eq}
use vibepod.Base.Sort.{In-sort_by, sort_by-IsSorted, IsSorted, sort_by-Pairwise}
use vibepod.Strings.{text_lt, text_lt_asym, text_lt_cotrans}
use vibepod.Config.SshHosts.Defs.{
  Files, Directive, hosts, includes, other, directive, Hosts, dir_of, visit_all, read_file, visit,
  read_ssh_hosts,
}
use vibepod.Config.SshHosts.Visit.{
  Declared, here, there, Adds, Adds-none, Adds-iff, Some, Says, visit_all-Adds, read_lines-Adds,
}

-- What a file says, where the files that it includes say `D`.
abbrev FileSays : Files → (Text → Text → Type 0) → Text → Text → Type 0
FileSays fs D path x =
    (ls : List Text) × (fs.lines_of path ≡ some ls)
    × Some (λ l. Says fs D (dir_of path) (directive l) x) ls

read_file-Adds :
    (fs : Files) (go : Text → Hosts → Hosts) (D : Text → Text → Type 0)
    → ((p : Text) (st : Hosts) → Adds (D p) st (go p st))
    → (path : Text) (found : Option (List Text)) (st : Hosts) → fs.lines_of path ≡ found
    → Adds (FileSays fs D path) st (read_file fs go (dir_of path) found st)
unfolding read_file
read_file-Adds fs go D adds path none st e =
    Adds-iff (λ x. ⊥) _ st st (λ x. ((λ n. absurd n), (λ h. absurd (none_some (sym e ∙ h.1)))))
      (Adds-none st)
  where
    none_some : {ls : List Text} → ◌≡◌ {A = Option (List Text)} none (some ls) → ⊥
    none_some p = absurd (cc)
read_file-Adds fs go D adds path (some ls) st e =
    Adds-iff _ (FileSays fs D path) st _ (λ x. ((λ h. (ls, e, h)), (λ h. same x h)))
      (read_lines-Adds fs go D adds (dir_of path) ls st)
  where
    same :
        (x : Text) → FileSays fs D path x → Some (λ l. Says fs D (dir_of path) (directive l) x) ls
    same x (ls', e', h) =
        let eq : ls' ≡ ls = ground arith in
        subst (λ q. Some (λ l. Says fs D (dir_of path) (directive l) x) q) eq h

Declared-zero : (fs : Files) (path x : Text) → Declared fs zero path x → ⊥
Declared-zero fs path x d = elim d [ ]

Says-Declared :
    (fs : Files) (left : ℕ) (path x : Text) (ls : List Text) (l : Text) (d : Directive)
    → fs.lines_of path ≡ some ls
    → In l ls
    → directive l ≡ d
    → Says fs (Declared fs left) (dir_of path) d x
    → Declared fs (suc left) path x
Says-Declared fs left path x ls l (hosts ns) e i ed (m, np) = here ls l ns e i ed m np
Says-Declared fs left path x ls l (includes ps) e i ed (q, m, k) = there ls l ps q e i ed m k
Says-Declared fs left path x ls l other e i ed n = absurd n

Says-FileSays :
    (fs : Files) (left : ℕ) (path x : Text) (ls : List Text) (l : Text) (d : Directive)
    → fs.lines_of path ≡ some ls
    → In l ls
    → directive l ≡ d
    → Says fs (Declared fs left) (dir_of path) d x
    → FileSays fs (Declared fs left) path x
Says-FileSays fs left path x ls l d e i ed h =
    (ls, e, (l, i, subst (λ k. Says fs (Declared fs left) (dir_of path) k x) (sym ed) h))

Declared-FileSays :
    (fs : Files) {left : ℕ} {path x : Text}
    → Declared fs (suc left) path x
    → FileSays fs (Declared fs left) path x
Declared-FileSays fs (here {left} {path} {name} ls l ns e i ed m np) =
    Says-FileSays fs left path name ls l (hosts ns) e i ed (m, np)
Declared-FileSays fs (there {left} {path} {name} ls l ps q e i ed m k) =
    Says-FileSays fs left path name ls l (includes ps) e i ed (q, m, k)

visit-Adds :
    (fs : Files) (left : ℕ) (path : Text) (st : Hosts)
    → Adds (Declared fs left path) st (visit fs left path st)
unfolding visit
visit-Adds fs zero path st =
    Adds-iff (λ x. ⊥) _ st st (λ x. ((λ n. absurd n), (λ d. absurd (Declared-zero fs path x d))))
      (Adds-none st)
visit-Adds fs (suc left) path st =
    Adds-iff _ (Declared fs (suc left) path) st _
      (λ x. (
        (λ h. Says-Declared fs left path x h.0 h.2.0 (directive h.2.0) h.1 h.2.1 refl h.2.2),
        (λ d. Declared-FileSays fs d),
      ))
      (read_file-Adds fs (visit fs left) (Declared fs left) (visit-Adds fs left) path
        (fs.lines_of path) st refl)

-- readSSHHosts finds just the names that are no patterns and stand in a Host line of one of the files,
-- or of a file that these include, over at most eight includes one in another; each once, and in
-- order.
pub read_ssh_hosts-Declared :
    (fs : Files) (paths : List Text)
    → IsSorted text_lt (read_ssh_hosts fs paths)
      × Pairwise (λ x y. x ≢ y) (read_ssh_hosts fs paths)
      × ((x : Text) → In x (read_ssh_hosts fs paths) ↔ Some (λ p. Declared fs 9 p x) paths)
unfolding read_ssh_hosts
read_ssh_hosts-Declared fs paths =
    let start : Hosts = record { seen = []; out = [] } in
    let (sound, adds) =
      visit_all-Adds fs (visit fs 9) (Declared fs 9) (visit-Adds fs 9) paths start
        ((λ x. ((λ e. absurd (false_true e)), (λ n. absurd n))), tt) in
    let out = (visit_all (visit fs 9) paths start).out in
    (
      sort_by-IsSorted text_lt text_lt_asym (λ a b c. text_lt_cotrans a b c) out,
      sort_by-Pairwise text_lt (λ x y. x ≢ y) (λ a b ne e. ne (sym e)) out sound.1,
      (λ x. sorted x (In-sort_by text_lt x out) (adds x)),
    )
  where
    false_true : ◌≡◌ {A = Bool} false true → ⊥
    false_true e = absurd (cc)

    sorted : (x : Text) {A B C : Type 0} → A ↔ B → B ↔ (⊥ ⊎ C) → A ↔ C
    sorted x a b = ground arith
