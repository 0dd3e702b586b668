-- ===== src/Daemon/Tracker/Watch.antt =====
-- internal/daemon/tracker.go: a round of `watchExits`.
use vibepod.Base.{ℕ, Bool, true, not, ◌&&◌, Option, none, some, List, [], ◌∷◌}
use vibepod.Base.{◌≡◌, ◌≢◌, refl, ◌∙◌, arith, inl, inr, Option-cases, Bool-cases}
use vibepod.Base.{◌==◌, if◌then◌else◌, nat_eq, contains}
use vibepod.Base.Dict.{Dict, lookup, insert, lookup-insert, lookup-erase}
use vibepod.Base.Sort.{sort_by}
use vibepod.Daemon.Tracker.Defs.{
  ExecRec, is_done, is_some, Tracker, retire, publish_exit, with_rec, tracked, set_rec, drop_rec,
  see, watch_loop, publish_exits, earlier, watch_round,
}
use vibepod.Daemon.Tracker.Kept.{IsTracked, IsLive, tracked-live}
use vibepod.Daemon.Tracker.Laws.{see-IsTracked}

-- The other pids are tracked as before.
with_rec-insert :
    (store : Dict ℕ ExecRec) (id : ℕ) (r r' : ExecRec) (k : ℕ) (o : Option ℕ)
    → lookup id store ≡ some r
    → k ≢ r.pid
    → ((j : ℕ) → o ≡ some j → IsLive store k j)
    → with_rec (insert id r' store) o ≡ with_rec store o
unfolding with_rec
with_rec-insert store id r r' k none e ne h = refl
with_rec-insert store id r r' k (some j) e ne h =
    let (s, es, sp, sn) = h j refl in ground (arith, lookup-insert j id r' store)

tracked-drop_rec :
    (now p id k : ℕ) (r : ExecRec) (t : Tracker)
    → IsTracked 0 t
    → tracked t p ≡ some (id, r)
    → tracked (drop_rec now p id r t) k ≡ (if k == p then none else tracked t k)
unfolding drop_rec retire set_rec tracked
tracked-drop_rec now p id k r t h e =
    let (er, eo, ep, en) = tracked-live t p id r h e in
    elim (Bool-cases (k == p)) [
      | inl b ↦ rw lookup-erase (rw b (unfold with_rec in refl))
      | inr b ↦ rw lookup-erase (
          rw b (
            with_rec-insert t.store id r _ k (lookup k t.execs) er (ground arith)
              (λ j ek. h.live k j ek (h.keyed k j ek))))
    ]

-- A pid that is looked at is tracked no more if its process is gone.
tracked-see :
    (alive : ℕ → Bool) (now p k : ℕ) (o : Option (ℕ × ExecRec)) (t : Tracker) (gone : List ExecRec)
    → IsTracked 0 t
    → tracked t p ≡ o
    → tracked (see alive now p o (t, gone)).0 k
      ≡ (if p == k && not (alive k) then none else tracked t k)
unfolding see
tracked-see alive now p k none t gone h e = ground arith
tracked-see alive now p k (some (id, r)) t gone h e =
    let (er, eo, ep, en) = tracked-live t p id r h e in
    let dropped = tracked-drop_rec now p id k r t h e in unfold is_done is_some in ground arith

tracked-watch_loop :
    (alive : ℕ → Bool) (now : ℕ) (pids : List ℕ) (k : ℕ) (x : Tracker × List ExecRec)
    → IsTracked 0 x.0
    → tracked (watch_loop alive now pids x).0 k
      ≡ (if contains pids k && not (alive k) then none else tracked x.0 k)
unfolding watch_loop
tracked-watch_loop alive now [] k x h = refl
tracked-watch_loop alive now (p ∷ pids) k x h =
    let seen = see alive now p (tracked x.0 p) x in
    let one = tracked-see alive now p k (tracked x.0 p) x.0 x.1 h refl in
    let rest =
      tracked-watch_loop alive now pids k seen
        (see-IsTracked alive now p (tracked x.0 p) x.0 x.1 refl h) in
    ground arith

tracked-publish_exits :
    (now : ℕ) (rs : List ExecRec) (t : Tracker) (k : ℕ)
    → tracked (publish_exits now rs t) k ≡ tracked t k
unfolding publish_exits
tracked-publish_exits now [] t k = refl
tracked-publish_exits now (r ∷ rs) t k =
    tracked-publish_exits now rs _ k ∙ unfold publish_exit tracked in refl

-- A round of watchExits that looks at every tracked pid, in whatever order: afterwards the pids
-- tracked are those tracked before whose process is alive, each by the record that it had.
pub tracked-watch_round :
    (alive : ℕ → Bool) (now : ℕ) (pids : List ℕ) (t : Tracker)
    → IsTracked 0 t
    → ((k : ℕ) (x : ℕ × ExecRec) → tracked t k ≡ some x → contains pids k ≡ true)
    → (k : ℕ) → tracked (watch_round alive now pids t) k ≡ (if alive k then tracked t k else none)
unfolding watch_round
tracked-watch_round alive now pids t h all k =
    tracked-publish_exits now (sort_by earlier (watch_loop alive now pids (t, [])).1) _ k
    ∙ tracked-watch_loop alive now pids k (t, []) h
    ∙ elim (Option-cases (tracked t k)) [
      | inl e ↦ ground arith
      | inr (x, e) ↦ ground (arith, all k x e)
    ]
