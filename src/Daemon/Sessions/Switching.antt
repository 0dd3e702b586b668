-- ===== src/Daemon/Sessions/Switching.antt =====
-- internal/daemon/session.go: `switchTo` keeps the table of shells in order.
use vibepod.Base.{ℕ, Bool, false, Option, none, some, [], ◌∷◌}
use vibepod.Base.{◌≡◌, ◌≢◌, refl, ap}
use vibepod.Base.{Text, nat_eq, text_eq, if_cases}
use vibepod.Base.Dict.{lookup, lookup-insert_self}
use vibepod.Daemon.Sessions.Defs.{
  Shell, LiveSession, Task, opening, starting, turning, writing, noting, closing, stopping, opened,
  with_task, without_task, found, switch_to, open_shell, turn_to, with_client, go_on,
}
use vibepod.Daemon.Sessions.Steps.{}
use vibepod.Daemon.Sessions.Table.{
  IsTask, IsSound, task-IsSteady, done-IsSteady, show-IsSteady, open-IsSteady,
}

module _ (first : Text) where
  with_task-IsSound :
      (t : ℕ) (task : Task) (w : LiveSession)
      → IsTask first w.sess.handles task
      → IsSound first w
      → IsSound first (with_task t task w)
  unfolding with_task
  with_task-IsSound t task w ok h = task-IsSteady first _ _ _ _ _ _ h t task ok

  without_task-IsSound :
      (t : ℕ) (w : LiveSession) → IsSound first w → IsSound first (without_task t w)
  unfolding without_task
  without_task-IsSound t w h = done-IsSteady first _ _ _ _ _ _ h t

  -- What is not in the table is not the first shell's machine.
  found-IsTask :
      (b : Text) (o : Option ℕ) (w : LiveSession)
      → lookup b w.sess.shells ≡ o
      → IsSound first w
      → IsTask first w.sess.handles (found b o)
  unfolding found
  found-IsTask b none w e h =
      λ eb. absurd (cc (e, h.first_tabled, ap (λ x. lookup x w.sess.shells) eb))
  found-IsTask b (some i) w e h = let (sh, es, _, _) = h.tabled b i e in (sh, es)

  pub switch_to-IsSound :
      (t : ℕ) (backend : Text) (w : LiveSession)
      → IsSound first w
      → IsSound first (switch_to t backend w)
  unfolding switch_to
  switch_to-IsSound t backend w h =
      if_cases (IsSound first) _ _ _ (λ _. h)
        (λ _. with_task-IsSound t _ w (found-IsTask backend _ w refl h) h)

  open_shell-IsSound :
      (works : Bool) (t : ℕ) (backend : Text) (rows cols : ℕ) (w : LiveSession)
      → backend ≢ first
      → IsSound first w
      → IsSound first (open_shell works t backend rows cols w)
  unfolding open_shell opened
  open_shell-IsSound works t backend rows cols w ne h =
      if_cases (IsSound first) works _ _
        (λ _.
          with_task-IsSound t (turning w.sess.next)
            (record w { sess = opened backend false rows cols w.sess })
            (_, lookup-insert_self w.sess.next _ w.sess.handles)
            (open-IsSteady first _ _ _ _ _ _ h _ ne refl))
        (λ _. without_task-IsSound t w h)

  turn_to-IsSound :
      (t i : ℕ) (o : Option Shell) (w : LiveSession)
      → lookup i w.sess.handles ≡ o
      → IsSound first w
      → IsSound first (turn_to t i o w)
  unfolding turn_to
  turn_to-IsSound t i none w e h = without_task-IsSound t w h
  turn_to-IsSound t i (some sh) w e h =
      with_task-IsSound t _ (record w { sess = record w.sess { cur = some i } }) tt
        (show-IsSteady first _ _ _ _ _ _ h i (sh, e))

  pub go_on-IsSound :
      (works : Bool) (t : ℕ) (o : Option Task) (w : LiveSession)
      → lookup t w.tasks ≡ o
      → IsSound first w
      → IsSound first (go_on works t o w)
  unfolding go_on with_client
  go_on-IsSound works t none w e h = h
  go_on-IsSound works t (some (opening b)) w e h = with_task-IsSound t _ w (h.held t _ e) h
  go_on-IsSound works t (some (starting b rows cols)) w e h =
      open_shell-IsSound works t b rows cols w (h.held t _ e) h
  go_on-IsSound works t (some (turning i)) w e h = turn_to-IsSound t i _ w refl h
  go_on-IsSound works t (some (writing [] text stops)) w e h = without_task-IsSound t w h
  go_on-IsSound works t (some (writing (k ∷ ks) text stops)) w e h =
      with_task-IsSound t (writing ks text stops) w tt h
  go_on-IsSound works t (some (noting fallback ks text)) w e h =
      with_task-IsSound t (writing ks text false) w tt h
  go_on-IsSound works t (some (closing code ks)) w e h = with_task-IsSound t (stopping ks) w tt h
  go_on-IsSound works t (some (stopping [])) w e h = without_task-IsSound t w h
  go_on-IsSound works t (some (stopping (k ∷ ks))) w e h = with_task-IsSound t (stopping ks) w tt h
