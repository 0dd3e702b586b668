-- ===== src/Daemon/Sessions/Ending.antt =====
-- internal/daemon/session.go: the end of `pump` keeps the table of shells in order.
use vibepod.Base.{ℕ, true, false, ◌&&◌, Option, none, some}
use vibepod.Base.{◌≡◌, ◌≢◌, ◌⊎◌, refl, sym, ap, ◌∙◌, arith, inl, inr, Bool-cases}
use vibepod.Base.{Text, ◌==◌, ==_iff, if◌then◌else◌, nat_eq, text_eq, if_cases}
use mathlib.Core.Path.{subst}
use vibepod.Base.Dict.{lookup, erase, lookup-erase}
use vibepod.Daemon.Sessions.Defs.{
  Shell, LiveSession, with_task, same_id, end_first, end_other, end_shell, stopped_shell, pump_end,
  is_none,
}
use vibepod.Daemon.Sessions.Steps.{}
use vibepod.Daemon.Sessions.Table.{IsOpened, erase_entry, IsSound, task-IsSteady, left-IsSteady}

module _ (first : Text) where
  -- The pump of the first shell ends.
  end_first-IsSound :
      (t code i : ℕ) (sh : Shell) (w : LiveSession)
      → lookup i w.sess.handles ≡ some sh
      → i ≡ 0
      → IsSound first w
      → IsSound first (end_first t code (stopped_shell i sh w))
  unfolding end_first with_task stopped_shell
  end_first-IsSound t code i sh w e ei h =
      task-IsSteady first _ _ _ _ _ _
        (left-IsSteady first _ _ _ _ _ _ h i sh _ e refl w.sess.shells w.sess.cur
          (λ b j et. (et, inr (apart j))) h.first_tabled h.shown)
        t _ tt
    where
      apart : (j : ℕ) → (j ≡ 0) ⊎ (j ≢ i)
      apart j = ground arith

  same_id-true :
      (i : ℕ) (w : LiveSession) → same_id w.sess.primary i ≡ true → IsSound first w → i ≡ 0
  unfolding same_id
  same_id-true i w y h =
      let y' : same_id (some 0) i ≡ true = ap (λ o. same_id o i) (sym h.primary_is) ∙ y in
      ground arith

  same_id-false :
      (i : ℕ) (w : LiveSession) → same_id w.sess.primary i ≡ false → IsSound first w → i ≢ 0
  unfolding same_id
  same_id-false i w n h =
      let n' : same_id (some 0) i ≡ false = ap (λ o. same_id o i) (sym h.primary_is) ∙ n in
      ground arith

  -- The shell `i` on the machine `b` leaves the table.
  left_table :
      (i : ℕ) (sh : Shell) (w : LiveSession)
      → lookup i w.sess.handles ≡ some sh
      → IsSound first w
      → (b : Text) (j : ℕ) → lookup b (erase sh.backend w.sess.shells) ≡ some j
      → (lookup b w.sess.shells ≡ some j) × (j ≢ i)
  left_table i sh w e h b j et =
      let (ne, old) = erase_entry sh.backend b j w.sess.shells et in
      let (s, es, eb, _) = h.tabled b j old in
      (old, λ ej. ne (sym eb ∙ sym (ap (λ (q : Shell). q.backend) (same ej s es))))
    where
      same : {j : ℕ} → j ≡ i → (s : Shell) → lookup j w.sess.handles ≡ some s → sh ≡ s
      same ej s es = ground arith

  first_left :
      (i : ℕ) (sh : Shell) (w : LiveSession)
      → lookup i w.sess.handles ≡ some sh
      → i ≢ 0
      → IsSound first w
      → lookup first (erase sh.backend w.sess.shells) ≡ some 0
  first_left i sh w e ne h = rw lookup-erase (elim (Bool-cases (first == sh.backend)) [
    | inl y ↦ absurd (ne (h.first_only i sh e (sym ((==_iff first sh.backend).0 y))))
    | inr n ↦ rw n h.first_tabled
  ])

  fallen_back :
      (i : ℕ) (w : LiveSession)
      → IsSound first w
      → (j : ℕ) → (if same_id w.sess.cur i then w.sess.primary else w.sess.cur) ≡ some j
      → IsOpened w.sess.handles j
  fallen_back i w h j e =
      if_cases (λ (o : Option ℕ). o ≡ some j → IsOpened w.sess.handles j) (same_id w.sess.cur i) _ _
        (λ _ ep. the_first ep) (λ _ ec. h.shown j ec) e
    where
      the_first : {j : ℕ} → w.sess.primary ≡ some j → IsOpened w.sess.handles j
      the_first {j} ep =
          let (sh, e0, _, _) = h.first_there in
          let p = h.primary_is in
          let ej : 0 ≡ j = ground arith in subst (IsOpened w.sess.handles) ej (sh, e0)

  -- The pump of another shell ends.
  end_other-IsSound :
      (t i : ℕ) (sh : Shell) (w : LiveSession)
      → lookup i w.sess.handles ≡ some sh
      → i ≢ 0
      → IsSound first w
      → IsSound first (end_other t i sh (stopped_shell i sh w))
  unfolding end_other with_task stopped_shell
  end_other-IsSound t i sh w e ne h =
      task-IsSteady first _ _ _ _ _ _
        (left-IsSteady first _ _ _ _ _ _ h i sh _ e refl (erase sh.backend w.sess.shells) _
          (λ b j et. let (old, apart) = left_table i sh w e h b j et in (old, inr (inr apart)))
          (first_left i sh w e ne h) (fallen_back i w h))
        t _ tt

  pub pump_end-IsSound :
      (t i code : ℕ) (o : Option Shell) (w : LiveSession)
      → lookup i w.sess.handles ≡ o
      → IsSound first w
      → IsSound first (pump_end t i code o w)
  unfolding pump_end end_shell
  pump_end-IsSound t i code none w e h = h
  pump_end-IsSound t i code (some sh) w e h =
      if_cases (IsSound first) (sh.running && is_none (lookup i w.chunks)) (end_shell t i code sh w)
        w
        (λ _.
          if_cases (IsSound first) (same_id w.sess.primary i)
            (end_first t code (stopped_shell i sh w)) (end_other t i sh (stopped_shell i sh w))
            (λ y. end_first-IsSound t code i sh w e (same_id-true i w y h) h)
            (λ n. end_other-IsSound t i sh w e (same_id-false i w n h) h))
        (λ _. h)
