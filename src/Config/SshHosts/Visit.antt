-- ===== src/Config/SshHosts/Visit.antt =====
-- internal/config/sshconfig.go, `visit`: which names a file adds.
use vibepod.Base.{ℕ, suc, true, false, some, List, [], ◌∷◌, ◌++◌, ◌||◌}
use vibepod.Base.{◌≡◌, ◌≢◌, ◌↔◌, ◌⊎◌, refl, sym, arith, inl, inr}
use vibepod.Base.{All, In, Pairwise, Pairwise-snoc, if_cases}
use vibepod.Base.{Text, text_eq, contains}
use mathlib.Core.Path.{subst}
use vibepod.Config.SshHosts.Defs.{
  Files, Directive, hosts, includes, other, directive, is_pattern, Hosts, add_name, add_names,
  dir_of, included, visit_all, obey, read_lines,
}

-- A name that the file `path` gives, with `left` files below one another still let through.
pub data Declared (fs : Files) : ℕ → Text → Text → Type 0 where
  here :
      {left : ℕ} {path name : Text} (lines : List Text) (line : Text) (names : List Text)
      → fs.lines_of path ≡ some lines
      → In line lines
      → directive line ≡ hosts names
      → In name names
      → is_pattern name ≡ false
      → Declared fs (suc left) path name
  there :
      {left : ℕ} {path name : Text} (lines : List Text) (line : Text) (patterns : List Text)
      (file : Text)
      → fs.lines_of path ≡ some lines
      → In line lines
      → directive line ≡ includes patterns
      → In file (included fs (dir_of path) patterns)
      → Declared fs left file name
      → Declared fs (suc left) path name

In-snoc : (x y : Text) (xs : List Text) → In x (xs ++ y ∷ []) ↔ (In x xs ⊎ (x ≡ y))
In-snoc x y [] = (
  (λ m. elim m [ inl e ↦ inr e | inr n ↦ absurd n ]),
  (λ m. elim m [ inl n ↦ absurd n | inr e ↦ inl e ]),
)
In-snoc x y (z ∷ xs) = ground (arith, In-snoc x y xs)

-- The names seen are those found, each once.
abbrev pub IsSound : Hosts → Type 0
IsSound st =
    ((x : Text) → (contains st.seen x ≡ true) ↔ In x st.out) × Pairwise (λ x y. x ≢ y) st.out

-- From one state to another, just the names of a kind are added.
abbrev pub Adds : (Text → Type 0) → Hosts → Hosts → Type 0
Adds E st st' = IsSound st → IsSound st' × ((x : Text) → In x st'.out ↔ (In x st.out ⊎ E x))

pub Adds-none : (st : Hosts) → Adds (λ x. ⊥) st st
Adds-none st s = (s, (λ x. ((λ m. inl m), (λ m. elim m [ inl i ↦ i | inr n ↦ absurd n ]))))

pub Adds-then :
    (E F : Text → Type 0) (st st' st'' : Hosts)
    → Adds E st st'
    → Adds F st' st''
    → Adds (λ x. E x ⊎ F x) st st''
Adds-then E F st st' st'' h k s =
    let (s', i) = h s in let (s'', j) = k s' in (s'', (λ x. join x (i x) (j x)))
  where
    join :
        (x : Text)
        → In x st'.out ↔ (In x st.out ⊎ E x)
        → In x st''.out ↔ (In x st'.out ⊎ F x)
        → In x st''.out ↔ (In x st.out ⊎ (E x ⊎ F x))
    join x a b = ground arith

pub Adds-iff :
    (E F : Text → Type 0) (st st' : Hosts)
    → ((x : Text) → E x ↔ F x)
    → Adds E st st'
    → Adds F st st'
Adds-iff E F st st' e h s = let (s', i) = h s in (s', (λ x. over x (e x) (i x)))
  where
    over :
        (x : Text)
        → E x ↔ F x
        → In x st'.out ↔ (In x st.out ⊎ E x)
        → In x st'.out ↔ (In x st.out ⊎ F x)
    over x a b = ground arith

-- What one of a list does.
abbrev pub Some : {A : Type 0} → (A → Type 0) → List A → Type 0
Some {A} P xs = (a : A) × In a xs × P a

pub Some-cons :
    {A : Type 0} (P : A → Type 0) (a : A) (xs : List A) → (P a ⊎ Some P xs) ↔ Some P (a ∷ xs)
Some-cons P a xs = (
  (λ h. elim h [ inl p ↦ (a, inl refl, p) | inr (b, i, p) ↦ (b, inr i, p) ]),
  (λ h. elim h.1 [ inl e ↦ inl (subst P e h.2) | inr i ↦ inr (h.0, i, h.2) ]),
)

All-absent : (y : Text) (xs : List Text) → ¬ In y xs → All (λ x. x ≢ y) xs
All-absent y [] h = tt
All-absent y (x ∷ xs) h = ((λ e. h (inl (sym e))), All-absent y xs (λ i. h (inr i)))

new-IsSound :
    (name : Text) (st : Hosts)
    → contains st.seen name ≡ false
    → IsSound st
    → IsSound (record { seen = name ∷ st.seen; out = st.out ++ name ∷ [] })
new-IsSound name st n (seen, far) = (
  (λ x. more x (seen x) (In-snoc x name st.out)),
  Pairwise-snoc (λ x y. x ≢ y) st.out name far
      (All-absent name st.out (λ i. absent ((seen name).1 i))),
)
  where
    absent : contains st.seen name ≡ true → ⊥
    absent y = absurd (ground arith)

    more :
        (x : Text)
        → (contains st.seen x ≡ true) ↔ In x st.out
        → In x (st.out ++ name ∷ []) ↔ (In x st.out ⊎ (x ≡ name))
        → (contains (name ∷ st.seen) x ≡ true) ↔ In x (st.out ++ name ∷ [])
    more x a b = ground arith

abbrev pub IsNew : Text → Text → Type 0
IsNew name x = (x ≡ name) × (is_pattern x ≡ false)

add_name-Adds : (name : Text) (st : Hosts) → Adds (IsNew name) st (add_name name st)
unfolding add_name
add_name-Adds name st =
    if_cases (Adds (IsNew name) st) (is_pattern name || contains st.seen name) _ _
      (λ old s. (s, (λ x. known x old ((s.0 name).0))))
      (λ new s. (new-IsSound name st (unseen new) s, (λ x. added x new (In-snoc x name st.out))))
  where
    known :
        (x : Text)
        → (is_pattern name || contains st.seen name) ≡ true
        → (contains st.seen name ≡ true → In name st.out)
        → In x st.out ↔ (In x st.out ⊎ IsNew name x)
    known x old i = (
      (λ m. inl m),
      (λ m. elim m [
        | inl k ↦ k
        | inr (e, np) ↦ subst (λ y. In y st.out) (sym e) (i (again e np old))
      ]),
    )
      where
        again :
            x ≡ name
            → is_pattern x ≡ false
            → (is_pattern name || contains st.seen name) ≡ true
            → contains st.seen name ≡ true
        again e np o = ground arith

    unseen : (is_pattern name || contains st.seen name) ≡ false → contains st.seen name ≡ false
    unseen new = ground arith

    added :
        (x : Text)
        → (is_pattern name || contains st.seen name) ≡ false
        → In x (st.out ++ name ∷ []) ↔ (In x st.out ⊎ (x ≡ name))
        → In x (st.out ++ name ∷ []) ↔ (In x st.out ⊎ IsNew name x)
    added x new i = ground arith

-- A name of a Host line, other than a pattern.
abbrev pub IsListed : List Text → Text → Type 0
IsListed ns x = In x ns × (is_pattern x ≡ false)

add_names-Adds : (ns : List Text) (st : Hosts) → Adds (IsListed ns) st (add_names ns st)
unfolding add_names
add_names-Adds [] st =
    Adds-iff (λ x. ⊥) (IsListed []) st st (λ x. ((λ n. absurd n), (λ h. absurd h.0))) (Adds-none st)
add_names-Adds (n ∷ ns) st =
    Adds-iff _ (IsListed (n ∷ ns)) st (add_names ns (add_name n st)) (λ x. either x)
      (Adds-then (IsNew n) (IsListed ns) st (add_name n st) (add_names ns (add_name n st))
        (add_name-Adds n st) (add_names-Adds ns (add_name n st)))
  where
    either : (x : Text) → (IsNew n x ⊎ IsListed ns x) ↔ IsListed (n ∷ ns) x
    either x = ground arith

-- What a line says, where the files that it includes say `D`.
abbrev pub Says : Files → (Text → Text → Type 0) → Text → Directive → Text → Type 0
Says fs D dir (hosts ns) x = IsListed ns x
Says fs D dir (includes ps) x = Some (λ q. D q x) (included fs dir ps)
Says fs D dir other x = ⊥

-- A visit that adds, of each file, the names of a kind.
module _ (fs : Files) (visit : Text → Hosts → Hosts) (D : Text → Text → Type 0)
    (adds : (p : Text) (st : Hosts) → Adds (D p) st (visit p st)) where
  pub visit_all-Adds :
      (ps : List Text) (st : Hosts) → Adds (λ x. Some (λ p. D p x) ps) st (visit_all visit ps st)
  unfolding visit_all
  visit_all-Adds [] st =
      Adds-iff (λ x. ⊥) (λ x. Some (λ p. D p x) []) st st
        (λ x. ((λ n. absurd n), (λ h. absurd h.1))) (Adds-none st)
  visit_all-Adds (p ∷ ps) st =
      Adds-iff _ (λ x. Some (λ q. D q x) (p ∷ ps)) st (visit_all visit ps (visit p st))
        (λ x. Some-cons (λ q. D q x) p ps)
        (Adds-then (D p) (λ x. Some (λ q. D q x) ps) st (visit p st)
          (visit_all visit ps (visit p st)) (adds p st) (visit_all-Adds ps (visit p st)))

  obey-Adds :
      (dir : Text) (d : Directive) (st : Hosts) → Adds (Says fs D dir d) st (obey fs visit dir d st)
  unfolding obey
  obey-Adds dir (hosts ns) st = add_names-Adds ns st
  obey-Adds dir (includes ps) st = visit_all-Adds (included fs dir ps) st
  obey-Adds dir other st = Adds-none st

  pub read_lines-Adds :
      (dir : Text) (ls : List Text) (st : Hosts)
      → Adds (λ x. Some (λ l. Says fs D dir (directive l) x) ls) st (read_lines fs visit dir ls st)
  unfolding read_lines
  read_lines-Adds dir [] st =
      Adds-iff (λ x. ⊥) _ st st (λ x. ((λ n. absurd n), (λ h. absurd h.1))) (Adds-none st)
  read_lines-Adds dir (l ∷ ls) st =
      let st' = obey fs visit dir (directive l) st in
      Adds-iff _ (λ x. Some (λ l. Says fs D dir (directive l) x) (l ∷ ls)) st
        (read_lines fs visit dir ls st') (λ x. Some-cons (λ l. Says fs D dir (directive l) x) l ls)
        (Adds-then (Says fs D dir (directive l)) (λ x. Some (λ l. Says fs D dir (directive l) x) ls)
          st st' (read_lines fs visit dir ls st') (obey-Adds dir (directive l) st)
          (read_lines-Adds dir ls st'))
