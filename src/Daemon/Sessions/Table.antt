-- ===== src/Daemon/Sessions/Table.antt =====
-- internal/daemon/session.go: the table of a session's shells, and what its goroutines hold of it.
use vibepod.Base.{ℕ, suc, ◌<◌, true, Option, some}
use vibepod.Base.{◌≡◌, ◌≢◌, ◌⊎◌, refl, sym, ap, ◌∙◌, arith, inl, inr, Bool-cases}
use vibepod.Base.{Text, ◌==◌, ==_iff, nat_eq, text_eq}
use mathlib.Core.Path.{subst}
use vibepod.Base.Dict.{Dict, lookup, insert, erase, lookup-insert, lookup-insert_self, lookup-erase}
use vibepod.Daemon.Sessions.Defs.{
  Shell, LiveSession, Task, opening, starting, turning, writing, noting, closing, stopping,
}

abbrev pub IsOpened : Dict ℕ Shell → ℕ → Type 0
IsOpened handles i = (sh : Shell) × (lookup i handles ≡ some sh)

-- The shell `i` is on the machine `b`, and runs or is the first.
abbrev pub IsOf : Dict ℕ Shell → Text → ℕ → Type 0
IsOf handles b i =
    (sh : Shell) × (lookup i handles ≡ some sh) × (sh.backend ≡ b) × ((sh.running ≡ true) ⊎ (i ≡ 0))

-- A switch shows a shell that was opened; none opens a shell on the machine `first`.
abbrev pub IsTask : Text → Dict ℕ Shell → Task → Type 0
IsTask first handles (opening b) = b ≢ first
IsTask first handles (starting b rows cols) = b ≢ first
IsTask first handles (turning i) = IsOpened handles i
IsTask first handles (writing ks text stops) = Unit
IsTask first handles (noting fallback ks text) = Unit
IsTask first handles (closing code ks) = Unit
IsTask first handles (stopping ks) = Unit

-- The table leads from a machine to a shell on it, that runs or is the first one; the first shell is on
-- the machine `first`, stands in the table, and is the only one that was ever opened there; and the
-- shell shown, and one that a switch is about to show, was opened for the session.
pub record IsSteady (first : Text) (next : ℕ) (handles : Dict ℕ Shell) (shells : Dict Text ℕ)
    (primary cur : Option ℕ) (tasks : Dict ℕ Task) : Type 0 where
  pub fresh : (i : ℕ) (sh : Shell) → lookup i handles ≡ some sh → i < next
  pub tabled : (b : Text) (i : ℕ) → lookup b shells ≡ some i → IsOf handles b i
  pub primary_is : primary ≡ some 0
  pub first_there : IsOf handles first 0
  pub first_tabled : lookup first shells ≡ some 0
  pub first_only : (i : ℕ) (sh : Shell) → lookup i handles ≡ some sh → sh.backend ≡ first → i ≡ 0
  pub shown : (i : ℕ) → cur ≡ some i → IsOpened handles i
  pub held : (t : ℕ) (task : Task) → lookup t tasks ≡ some task → IsTask first handles task

abbrev pub IsSound : Text → LiveSession → Type 0
IsSound first w =
    IsSteady first w.sess.next w.sess.handles w.sess.shells w.sess.primary w.sess.cur w.tasks

task_entry :
    (t u : ℕ) (new task : Task) (d : Dict ℕ Task)
    → lookup t (insert u new d) ≡ some task
    → (new ≡ task) ⊎ (lookup t d ≡ some task)
task_entry t u new task d e = ground (arith, lookup-insert t u new d)

task_left :
    (t u : ℕ) (task : Task) (d : Dict ℕ Task)
    → lookup t (erase u d) ≡ some task
    → lookup t d ≡ some task
task_left t u task d e = ground (arith, lookup-erase t u d)

handle_entry :
    (i j : ℕ) (new sh : Shell) (d : Dict ℕ Shell)
    → lookup i (insert j new d) ≡ some sh
    → ((i ≡ j) × (new ≡ sh)) ⊎ ((i ≢ j) × (lookup i d ≡ some sh))
handle_entry i j new sh d e = ground (arith, lookup-insert i j new d)

backend_entry :
    (b a : Text) (j i : ℕ) (d : Dict Text ℕ)
    → lookup b (insert a j d) ≡ some i
    → ((b ≡ a) × (j ≡ i)) ⊎ ((b ≢ a) × (lookup b d ≡ some i))
backend_entry b a j i d e = ground (arith, lookup-insert b a j d)

pub erase_entry :
    (a b : Text) (i : ℕ) (d : Dict Text ℕ)
    → lookup b (erase a d) ≡ some i
    → (b ≢ a) × (lookup b d ≡ some i)
erase_entry a b i d e = ground (arith, lookup-erase b a d)

-- A task is looked at again when the shells are more, or other than they were.
IsTask-mono :
    (first : Text) (old new : Dict ℕ Shell) (task : Task)
    → ((i : ℕ) → IsOpened old i → IsOpened new i)
    → IsTask first old task
    → IsTask first new task
IsTask-mono first old new (opening b) f h = h
IsTask-mono first old new (starting b rows cols) f h = h
IsTask-mono first old new (turning i) f h = f i h
IsTask-mono first old new (writing ks text stops) f h = h
IsTask-mono first old new (noting fallback ks text) f h = h
IsTask-mono first old new (closing code ks) f h = h
IsTask-mono first old new (stopping ks) f h = h

module _ (first : Text) (next : ℕ) (handles : Dict ℕ Shell) (shells : Dict Text ℕ)
    (primary cur : Option ℕ) (tasks : Dict ℕ Task)
    (h : IsSteady first next handles shells primary cur tasks) where
  -- Another shell is shown, or the goroutines hold something else.
  moved :
      (cur' : Option ℕ) (tasks' : Dict ℕ Task)
      → ((i : ℕ) → cur' ≡ some i → IsOpened handles i)
      → ((t : ℕ) (task : Task) → lookup t tasks' ≡ some task → IsTask first handles task)
      → IsSteady first next handles shells primary cur' tasks'
  moved cur' tasks' shown held = record {
    fresh = h.fresh;
    tabled = h.tabled;
    primary_is = h.primary_is;
    first_there = h.first_there;
    first_tabled = h.first_tabled;
    first_only = h.first_only;
    shown = shown;
    held = held;
  }

  pub task-IsSteady :
      (t : ℕ) (task : Task)
      → IsTask first handles task
      → IsSteady first next handles shells primary cur (insert t task tasks)
  task-IsSteady t task ok = moved cur _ h.shown (λ u other e.
      elim (task_entry u t task other tasks e) [
        | inl new ↦ subst (IsTask first handles) new ok
        | inr old ↦ h.held u other old
      ])

  pub done-IsSteady : (t : ℕ) → IsSteady first next handles shells primary cur (erase t tasks)
  done-IsSteady t = moved cur _ h.shown (λ u other e. h.held u other (task_left u t other tasks e))

  pub show-IsSteady :
      (i : ℕ) → IsOpened handles i → IsSteady first next handles shells primary (some i) tasks
  show-IsSteady i ok =
      moved (some i) tasks (λ j e. subst (IsOpened handles) (ground arith) ok) h.held

  module _ (new : Shell) (other : new.backend ≢ first) (runs : new.running ≡ true) where
    IsOf-new : (b : Text) (i : ℕ) → IsOf handles b i → IsOf (insert next new handles) b i
    IsOf-new b i (sh, e, eb, r) = (sh, rw lookup-insert (ground (arith, h.fresh i sh e)), eb, r)

    IsOpened-new : (i : ℕ) → IsOpened handles i → IsOpened (insert next new handles) i
    IsOpened-new i (sh, e) = (sh, rw lookup-insert (ground (arith, h.fresh i sh e)))

    new_entry : (b : Text) (i : ℕ) → b ≡ new.backend → next ≡ i → IsOf (insert next new handles) b i
    new_entry b i eb ei = rw (← ei) (new, lookup-insert_self next new handles, sym eb, inl runs)

    -- A shell is opened on another machine than the first.
    pub open-IsSteady :
        IsSteady first
          (suc next)
          (insert next new handles)
          (insert new.backend next shells)
          primary
          cur
          tasks
    open-IsSteady = record {
      fresh = λ i sh e. elim (handle_entry i next new sh handles e) [
        | inl (ei, _) ↦ omega arith
        | inr (_, old) ↦ omega (arith, h.fresh i sh old)
      ];
      tabled = λ b i e. elim (backend_entry b new.backend next i shells e) [
        | inl (eb, ei) ↦ new_entry b i eb ei
        | inr (_, old) ↦ IsOf-new b i (h.tabled b i old)
      ];
      primary_is = h.primary_is;
      first_there = IsOf-new first 0 h.first_there;
      first_tabled = rw lookup-insert (elim (Bool-cases (first == new.backend)) [
        | inl y ↦ absurd (other (sym ((==_iff first new.backend).0 y)))
        | inr n ↦ rw n h.first_tabled
      ]);
      first_only = λ i sh e eb. elim (handle_entry i next new sh handles e) [
        | inl (_, es) ↦ absurd (other (ap (λ (s : Shell). s.backend) es ∙ eb))
        | inr (_, old) ↦ h.first_only i sh old eb
      ];
      shown = λ i e. IsOpened-new i (h.shown i e);
      held = λ t task e. IsTask-mono first _ _ task IsOpened-new (h.held t task e);
    }

  -- A shell changes and stays on its machine; it goes on running if it did, or is the first.
  module _ (i : ℕ) (sh new : Shell) (e : lookup i handles ≡ some sh)
      (eb : new.backend ≡ sh.backend) where
    IsOpened-update : (j : ℕ) → IsOpened handles j → IsOpened (insert i new handles) j
    IsOpened-update j (s, es) = elim (Bool-cases (j == i)) [
      | inl y ↦ (new, rw lookup-insert (rw y refl))
      | inr n ↦ (s, rw lookup-insert (rw n es))
    ]

    same_shell : (j : ℕ) (s : Shell) → j ≡ i → lookup j handles ≡ some s → s ≡ sh
    same_shell j s ej es = ground arith

    IsOf-update :
        (b : Text) (j : ℕ)
        → ((new.running ≡ sh.running) ⊎ (j ≡ 0) ⊎ (j ≢ i))
        → IsOf handles b j
        → IsOf (insert i new handles) b j
    IsOf-update b j er (s, es, sb, r) = elim (Bool-cases (j == i)) [
      | inl y ↦ (
        new,
        rw lookup-insert (rw y refl),
        eb ∙ sym (ap (λ (q : Shell). q.backend) (same_shell j s ((==_iff j i).0 y) es)) ∙ sb,
        goes_on ((==_iff j i).0 y) (same_shell j s ((==_iff j i).0 y) es) er r,
      )
      | inr n ↦ (s, rw lookup-insert (rw n es), sb, r)
    ]
      where
        goes_on :
            {j : ℕ} {s : Shell}
            → j ≡ i
            → s ≡ sh
            → ((new.running ≡ sh.running) ⊎ (j ≡ 0) ⊎ (j ≢ i))
            → ((s.running ≡ true) ⊎ (j ≡ 0))
            → (new.running ≡ true) ⊎ (j ≡ 0)
        goes_on ej es er r = ground arith

    -- The table may lose the shell.
    pub left-IsSteady :
        (shells' : Dict Text ℕ) (cur' : Option ℕ)
        → ((b : Text) (j : ℕ)
            → lookup b shells' ≡ some j
            → (lookup b shells ≡ some j) × ((new.running ≡ sh.running) ⊎ (j ≡ 0) ⊎ (j ≢ i)))
        → lookup first shells' ≡ some 0
        → ((j : ℕ) → cur' ≡ some j → IsOpened handles j)
        → IsSteady first next (insert i new handles) shells' primary cur' tasks
    left-IsSteady shells' cur' kept there ok = record {
      fresh = λ j s es. elim (handle_entry j i new s handles es) [
        | inl (ej, _) ↦ omega (arith, h.fresh i sh e)
        | inr (_, old) ↦ h.fresh j s old
      ];
      tabled = λ b j et. let (old, er) = kept b j et in IsOf-update b j er (h.tabled b j old);
      primary_is = h.primary_is;
      first_there = IsOf-update first 0 (inr (inl refl)) h.first_there;
      first_tabled = there;
      first_only = λ j s es sb. elim (handle_entry j i new s handles es) [
        | inl (ej, en) ↦ ej ∙ h.first_only i sh e (sym eb ∙ ap (λ (q : Shell). q.backend) en ∙ sb)
        | inr (_, old) ↦ h.first_only j s old sb
      ];
      shown = λ j ec. IsOpened-update j (ok j ec);
      held = λ t task et. IsTask-mono first _ _ task IsOpened-update (h.held t task et);
    }
