-- ===== src/Daemon/Tracker/Laws.antt =====
-- internal/daemon/tracker.go: what holds of the record of commands at any time.
use vibepod.Base.{ℕ, Bool, not, ◌&&◌, Option, none, some, List, [], ◌∷◌}
use vibepod.Base.{◌≡◌, ◌≢◌, ◌⊎◌, refl, sym, arith, inl, inr, Bool-cases, All-map}
use vibepod.Base.{Text, ◌==◌, ==_iff, if◌then◌else◌, if_cases, nat_eq}
use vibepod.Base.Dict.{Dict, lookup, insert, lookup-insert, lookup-insert_self}
use vibepod.Base.Sort.{sort_by}
use mathlib.Core.Path.{subst}
use vibepod.Daemon.Tracker.Defs.{
  ExecRec, is_done, is_some, Tracker, new_tracker, retire, publish_exit, tracked, set_rec, track,
  record_exec, finished, finish_rec, finish_found, finish_exec, drop_rec, see, watch_loop,
  publish_exits, earlier, watch_round, note_code, set_exit_code, begun_at, Op, begin, finish, watch,
  exit_code, apply_op, apply_ops,
}
use vibepod.Daemon.Tracker.Kept.{
  IsLive, IsPast, IsTracked, fresh_insert, close-IsTracked, erase-IsTracked, tracked-live,
  published-IsTracked, end_old-IsTracked,
}

-- The entries of the map behind `track`.
track_entry :
    (pid next k id : ℕ) (execs : Dict ℕ ℕ)
    → (lookup k execs ≡ some id → k ≢ 0)
    → lookup k (if pid == 0 then execs else insert pid next execs) ≡ some id
    → ((k ≡ pid) × (id ≡ next) × (k ≢ 0)) ⊎ ((k ≢ pid) × (lookup k execs ≡ some id))
track_entry pid next k id execs n0 e = ground (arith, lookup-insert k pid next execs)

IsLive_new :
    (next : ℕ) (r : ExecRec) (store : Dict ℕ ExecRec) (k id : ℕ)
    → r.end_time ≡ none
    → k ≡ r.pid
    → id ≡ next
    → IsLive (insert next r store) k id
IsLive_new next r store k id e ek ei = rw ei (r, lookup-insert_self next r store, sym ek, e)

track-IsTracked :
    (r : ExecRec) (t : Tracker) → r.end_time ≡ none → IsTracked r.pid t → IsTracked 0 (track r t)
unfolding track
track-IsTracked r t e h = record {
  bounded = h.bounded;
  fresh = λ j s es. ground (arith, lookup-insert j t.next r t.store, h.fresh j s);
  keyed = λ k id ek. elim (track_entry r.pid t.next k id t.execs (h.keyed k id) ek) [
    | inl (_, _, ne) ↦ ne
    | inr (_, old) ↦ h.keyed k id old
  ];
  live = λ k id ek _. elim (track_entry r.pid t.next k id t.execs (h.keyed k id) ek) [
    | inl (ep, ei, _) ↦ IsLive_new t.next r t.store k id e ep ei
    | inr (ne, old) ↦ old_live k id (h.live k id old ne)
  ];
  past = All-map old_past t.history h.past;
}
  where
    old_past : (j : ℕ) → IsPast t.store j → IsPast (insert t.next r t.store) j
    old_past j (s, es, d) = (s, ground (arith, lookup-insert j t.next r t.store, h.fresh j s es), d)

    old_live : (k j : ℕ) → IsLive t.store k j → IsLive (insert t.next r t.store) k j
    old_live k j (s, es, ep, en) =
        (s, ground (arith, lookup-insert j t.next r t.store, h.fresh j s es), ep, en)

record_exec-IsTracked :
    (now : ℕ) (r : ExecRec) (t : Tracker)
    → r.end_time ≡ none
    → IsTracked 0 t
    → IsTracked 0 (record_exec now r t)
unfolding record_exec
record_exec-IsTracked now r t e h =
    published-IsTracked 0 _ _
      (track-IsTracked r _ e (end_old-IsTracked now r.pid (tracked t r.pid) t h refl))

finish-IsTracked :
    (now code id : ℕ) (o : Option ExecRec) (t : Tracker)
    → lookup id t.store ≡ o
    → IsTracked 0 t
    → IsTracked 0 (finish_found now id code o t)
unfolding finish_found finish_rec publish_exit retire set_rec
finish-IsTracked now code id none t e h = h
finish-IsTracked now code id (some r) t e h =
    let r' = finished now code r in
    let closed = close-IsTracked 0 t id r r' h (inl refl) e (unfold finished is_done in refl) in
    unfold finished in
    published-IsTracked 0 _ _ (
      if_cases (λ ex. IsTracked 0 (record (retire id (set_rec id r' t)) { execs = ex }))
        (r.pid == 0) _ _
        (λ b. subst (λ k. IsTracked k (retire id (set_rec id r' t))) ((==_iff r.pid 0).0 b) closed)
        (λ _. erase-IsTracked r.pid (retire id (set_rec id r' t)) closed))

pub see-IsTracked :
    (alive : ℕ → Bool) (now pid : ℕ) (o : Option (ℕ × ExecRec)) (t : Tracker) (gone : List ExecRec)
    → tracked t pid ≡ o
    → IsTracked 0 t
    → IsTracked 0 (see alive now pid o (t, gone)).0
unfolding see drop_rec
see-IsTracked alive now pid none t gone e h = h
see-IsTracked alive now pid (some (id, r)) t gone e h =
    if_cases (λ (x : Tracker × List ExecRec). IsTracked 0 x.0)
      (not (is_done r) && not (alive r.pid)) _ _ (λ _. dropped) (λ _. h)
  where
    dropped : IsTracked 0 (drop_rec now pid id r t)
    dropped =
        let (er, eo, ep, en) = tracked-live t pid id r h e in
        let r' : ExecRec = record r { end_time = some now } in
        rw (← ep) (
          erase-IsTracked r.pid (retire id (set_rec id r' t))
            (close-IsTracked 0 t id r r' h (inl refl) er (unfold is_done in refl)))

watch_loop-IsTracked :
    (alive : ℕ → Bool) (now : ℕ) (pids : List ℕ) (x : Tracker × List ExecRec)
    → IsTracked 0 x.0
    → IsTracked 0 (watch_loop alive now pids x).0
unfolding watch_loop
watch_loop-IsTracked alive now [] x h = h
watch_loop-IsTracked alive now (pid ∷ pids) x h =
    watch_loop-IsTracked alive now pids _
      (see-IsTracked alive now pid (tracked x.0 pid) x.0 x.1 refl h)

publish_exits-IsTracked :
    (now : ℕ) (rs : List ExecRec) (t : Tracker)
    → IsTracked 0 t
    → IsTracked 0 (publish_exits now rs t)
unfolding publish_exits publish_exit
publish_exits-IsTracked now [] t h = h
publish_exits-IsTracked now (r ∷ rs) t h =
    publish_exits-IsTracked now rs _ (published-IsTracked 0 t _ h)

pub watch_round-IsTracked :
    (alive : ℕ → Bool) (now : ℕ) (pids : List ℕ) (t : Tracker)
    → IsTracked 0 t
    → IsTracked 0 (watch_round alive now pids t)
unfolding watch_round
watch_round-IsTracked alive now pids t h =
    publish_exits-IsTracked now (sort_by earlier (watch_loop alive now pids (t, [])).1) _
      (watch_loop-IsTracked alive now pids (t, []) h)

-- Only the code of a record that has not ended changes.
coded-IsTracked :
    (t : Tracker) (id : ℕ) (r r' : ExecRec)
    → IsTracked 0 t
    → lookup id t.store ≡ some r
    → r'.pid ≡ r.pid
    → r.end_time ≡ none
    → r'.end_time ≡ none
    → IsTracked 0 (set_rec id r' t)
unfolding set_rec
coded-IsTracked t id r r' h e ep en en' = record {
  bounded = h.bounded;
  fresh = fresh_insert id r' t.store t.next h.fresh (h.fresh id r e);
  keyed = h.keyed;
  live = λ k j ek ne. still_live k j (h.live k j ek ne);
  past = All-map still_past t.history h.past;
}
  where
    still_live : (k j : ℕ) → IsLive t.store k j → IsLive (insert id r' t.store) k j
    still_live k j (s, es, sp, sn) = elim (Bool-cases (j == id)) [
      | inl b ↦ (r', rw lookup-insert (rw b refl), ground arith, en')
      | inr b ↦ (s, rw lookup-insert (rw b es), sp, sn)
    ]

    still_past : (j : ℕ) → IsPast t.store j → IsPast (insert id r' t.store) j
    still_past j (s, es, d) = elim (Bool-cases (j == id)) [
      | inl b ↦ absurd (unfold is_done is_some in ground arith)
      | inr b ↦ (s, rw lookup-insert (rw b es), d)
    ]

note_code-IsTracked :
    (pid code : ℕ) (o : Option (ℕ × ExecRec)) (t : Tracker)
    → tracked t pid ≡ o
    → IsTracked 0 t
    → IsTracked 0 (note_code code o t)
unfolding note_code
note_code-IsTracked pid code none t e h = h
note_code-IsTracked pid code (some (id, r)) t e h =
    let (er, eo, ep, en) = tracked-live t pid id r h e in
    coded-IsTracked t id r (record r { code = some code }) h er refl en en

apply_op-IsTracked :
    (now : ℕ) (op : Op) (t : Tracker) → IsTracked 0 t → IsTracked 0 (apply_op now op t)
unfolding apply_op
apply_op-IsTracked now (begin c) t h =
    record_exec-IsTracked now (begun_at now c) t (unfold begun_at in refl) h
apply_op-IsTracked now (finish id code) t h =
    unfold finish_exec in finish-IsTracked now code id (lookup id t.store) t refl h
apply_op-IsTracked now (watch alive pids) t h = watch_round-IsTracked alive now pids t h
apply_op-IsTracked now (exit_code pid code) t h =
    unfold set_exit_code in note_code-IsTracked pid code (tracked t pid) t refl h

-- Whatever commands begin, end and are found gone, in any order and at any times: the history
-- never holds more than maxExecs commands and each of them has ended, and the record that a pid
-- is tracked by is a record of that pid, which is not 0, and has not ended. So no command is at
-- once running and past.
pub apply_ops-IsTracked :
    (ops : List (ℕ × Op)) (t : Tracker) → IsTracked 0 t → IsTracked 0 (apply_ops ops t)
unfolding apply_ops
apply_ops-IsTracked [] t h = h
apply_ops-IsTracked ((now, op) ∷ ops) t h =
    apply_ops-IsTracked ops (apply_op now op t) (apply_op-IsTracked now op t h)

pub new_tracker-IsTracked : (name : Text) → IsTracked 0 (new_tracker name)
unfolding new_tracker lookup
new_tracker-IsTracked name = record {
  bounded = omega arith;
  fresh = λ id r e. cc;
  keyed = λ k id e. cc;
  live = λ k id e _. cc;
  past = tt;
}
