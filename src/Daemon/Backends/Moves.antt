-- ===== src/Daemon/Backends/Moves.antt =====
-- internal/daemon/backend.go, `setBackend` and `use`: which session moves, and what it is told.
use vibepod.Base.{
  ℕ, Bool, true, false, not, ◌&&◌, Option, none, some, List, [], ◌∷◌, ◌++◌, ◌≡◌, refl, ap, ◌≢◌,
}
use vibepod.Base.{Text, ◌==◌, contains, if◌then◌else◌, text_eq, nat_eq, arith, if_cases}
use vibepod.Base.Dict.{Dict, lookup, erase, get_or, lookup-insert, lookup-erase}
use vibepod.Daemon.Backends.Defs.{
  Backends, or_default, backend_of, known_backend, Use, no_session, no_machine, not_in_session,
  not_yours, switch_failed, moved, target_of, switch_shell, set_backend, UseMsg, host_use,
  use_backend, note_home_dir,
}

-- can be reached, and the forwards.

-- A session was moved to a machine that is known, and no other session was moved.
abbrev pub MovedTo : Backends → Text → Text → Backends → Type 0
MovedTo s session target s' =
    (known_backend s target ≡ true)
    × (lookup session s'.backends ≡ some target)
    × ((other : Text) → other ≢ session → backend_of s' other ≡ backend_of s other)

-- What a call of `setBackend` leaves, by its answer.
abbrev pub SetResult : Backends → Text → Text → Use × Backends → Type 0
SetResult s session target (no_session, s') = (session ≡ []) × (s' ≡ s)
SetResult s session target (no_machine name, s') =
    (name ≡ target) × (known_backend s target ≡ false) × (s' ≡ s)
SetResult s session target (not_in_session, s') = ⊥
SetResult s session target (not_yours own named, s') = ⊥
SetResult s session target (switch_failed, s') = MovedTo s session target s'
SetResult s session target (moved, s') = MovedTo s session target s'

switch_shell-SetResult :
    (s s' : Backends) (session target : Text) (shell : Option Bool) (switched : Bool)
    → MovedTo s session target s'
    → SetResult s session target (switch_shell shell switched, s')
unfolding switch_shell
switch_shell-SetResult s s' session target none switched h = h
switch_shell-SetResult s s' session target (some false) switched h = h
switch_shell-SetResult s s' session target (some true) true h = h
switch_shell-SetResult s s' session target (some true) false h = h

-- `setBackend` moves the session that it names to the machine that it names, or to the default, if
-- that machine is known, and moves no other session; without a session or with a machine that is
-- not known it changes nothing. When the shell cannot be swapped, the session has moved all the
-- same.
pub set_backend_result :
    (switched : Bool) (s : Backends) (session backend : Text)
    → SetResult s session (target_of s backend) (set_backend switched s session backend)
unfolding set_backend
set_backend_result switched s session backend =
    let target = target_of s backend in
    if_cases (SetResult s session target) (session == []) _ _ (λ e. (ground arith, refl))
      (λ _.
        if_cases (SetResult s session target) (not (known_backend s target)) _ _
          (λ u. (refl, ground arith, refl))
          (λ k. switch_shell-SetResult s _ session target (lookup session s.sessions) switched (
            ground arith,
            ground (arith, lookup-insert session session target s.backends),
            λ other ne.
                unfold backend_of in
                ap (λ o. or_default o s.table.default)
                  (ground (arith, lookup-insert other session target s.backends)),
          )))

SetResult-others :
    (s s' : Backends) (session target other : Text) (u : Use)
    → SetResult s session target (u, s')
    → other ≢ session
    → backend_of s' other ≡ backend_of s other
SetResult-others s s' session target other no_session (_, e) ne = ap (λ x. backend_of x other) e
SetResult-others s s' session target other (no_machine n) (_, _, e) ne =
    ap (λ x. backend_of x other) e
SetResult-others s s' session target other not_in_session h ne = absurd h
SetResult-others s s' session target other (not_yours a b) h ne = absurd h
SetResult-others s s' session target other switch_failed (_, _, f) ne = f other ne
SetResult-others s s' session target other moved (_, _, f) ne = f other ne

abbrev Stays : Backends → Text → Use × Backends → Type 0
Stays s other (_, s') = backend_of s' other ≡ backend_of s other

host_use-Stays :
    (switched : Bool) (s : Backends) (m : UseMsg) (other : Text)
    → other ≢ m.session
    → Stays s other (host_use switched s m)
unfolding host_use
host_use-Stays switched s m other ne =
    let backend = if m.backend == [] then m.target else m.backend in
    SetResult-others s (set_backend switched s m.session backend).1 m.session (target_of s backend)
      other (set_backend switched s m.session backend).0
      (set_backend_result switched s m.session backend) ne

-- A `vp use` from inside the pod, whatever session its message names and however it is answered,
-- leaves every session but the caller's own on the machine where it was.
pub use_backend_own :
    (switched : Bool) (s : Backends) (id : Text) (m : UseMsg) (other : Text)
    → other ≢ id
    → backend_of (use_backend switched s (some id) m).1 other ≡ backend_of s other
unfolding use_backend
use_backend_own switched s id m other ne =
    if_cases (Stays s other) (id == []) _ _ (λ _. refl)
      (λ _.
        if_cases (Stays s other) (not (m.session == []) && not (m.session == id)) _ _ (λ _. refl)
          (λ _. host_use-Stays switched s (record m { session = id }) other ne))

erase_other :
    (key : List ℕ) (k : Text) (d : Dict Text Bool) → key ≢ k → lookup key (erase k d) ≡ lookup key d
erase_other key k d ne = ground (arith, lookup-erase key k d)

zero_in : (a b : Text) → contains (a ++ 0 ∷ b) 0 ≡ true
unfolding nat_eq
zero_in [] b = refl
zero_in (x ∷ a) b = ground (arith, zero_in a b)

-- Moving a session makes no notice of `noteHomeDir` due again: whichever session moves, if its
-- name holds no zero byte, the next notice for a session and a machine is sent exactly if it would
-- have been sent without the move.
pub set_backend-note_home_dir :
    (switched : Bool) (s : Backends) (mover backend session machine : Text)
    → contains mover 0 ≡ false
    → (note_home_dir (set_backend switched s mover backend).1 session machine).0
      ≡ (note_home_dir s session machine).0
unfolding note_home_dir set_backend get_or
set_backend-note_home_dir switched s mover backend session machine h =
    let key = session ++ 0 ∷ machine in
    let apart : key ≢ mover =
      λ e. absurd (ground (arith, zero_in session machine, ap (λ k. contains k 0) e)) in
    if_cases
      (λ (r : Use × Backends).
        not (elim (lookup key r.1.told_local) [ none ↦ false | some v ↦ v ])
        ≡ not (elim (lookup key s.told_local) [ none ↦ false | some v ↦ v ]))
      (mover == []) _ _ (λ _. refl)
      (λ _.
        if_cases
          (λ (r : Use × Backends).
            not (elim (lookup key r.1.told_local) [ none ↦ false | some v ↦ v ])
            ≡ not (elim (lookup key s.told_local) [ none ↦ false | some v ↦ v ]))
          (not (known_backend s (target_of s backend))) _ _ (λ _. refl)
          (λ _.
            ap (λ o. not (elim o [ none ↦ false | some v ↦ v ]))
              (erase_other key mover s.told_local apart)))
