-- ===== src/Daemon/Tracker/Kept.antt =====
-- internal/daemon/tracker.go: what a record of commands keeps, one change at a time.
use vibepod.Base.{
  ℕ, zero, suc, ◌-◌, ◌≤◌, ◌<◌, true, not, ◌&&◌, Option, none, some, List, [], ◌∷◌, ◌++◌,
}
use vibepod.Base.{
  ◌≡◌, ◌≢◌, ◌⊎◌, refl, arith, inl, inr, Option-cases, Bool-cases, All, All-map, All-append,
}
use vibepod.Base.{Text, codes, ◌==◌, if_cases, nat_eq, ltb, length, drop, length-drop}
use vibepod.Base.Dict.{Dict, lookup, insert, erase, lookup-insert, lookup-erase, lookup-insert_self}
use vibepod.Event.{Event}
use vibepod.Daemon.Tracker.Defs.{
  ExecRec, is_done, max_execs, Tracker, retire, publish_exit, with_rec, tracked, set_rec, end_old,
}

-- The record under `id` is of the pid `k` and has not ended.
abbrev pub IsLive : Dict ℕ ExecRec → ℕ → ℕ → Type 0
IsLive store k id = (r : ExecRec) × (lookup id store ≡ some r) × (r.pid ≡ k) × (r.end_time ≡ none)

abbrev pub IsPast : Dict ℕ ExecRec → ℕ → Type 0
IsPast store id = (r : ExecRec) × (lookup id store ≡ some r) × (is_done r ≡ true)

-- The history is no longer than maxExecs; the record that a pid is tracked by is a record of that
-- pid and has not ended, but for the pid `x`; every record of the history has ended.
pub record IsTracked (x : ℕ) (t : Tracker) : Type 0 where
  pub bounded : length t.history ≤ max_execs
  pub fresh : (id : ℕ) (r : ExecRec) → lookup id t.store ≡ some r → id < t.next
  pub keyed : (k id : ℕ) → lookup k t.execs ≡ some id → k ≢ 0
  pub live : (k id : ℕ) → lookup k t.execs ≡ some id → k ≢ x → IsLive t.store k id
  pub past : All (IsPast t.store) t.history

All-drop : (P : ℕ → Type 0) (n : ℕ) (xs : List ℕ) → All P xs → All P (drop n xs)
All-drop P zero xs h = h
All-drop P (suc n) [] h = tt
All-drop P (suc n) (x ∷ xs) (_, h) = All-drop P n xs h

module _ (id : ℕ) (r' : ExecRec) (store : Dict ℕ ExecRec) where
  IsPast-insert : is_done r' ≡ true → (j : ℕ) → IsPast store j → IsPast (insert id r' store) j
  IsPast-insert d j (s, e, ds) = elim (Bool-cases (j == id)) [
    | inl b ↦ (r', rw lookup-insert (rw b refl), d)
    | inr b ↦ (s, rw lookup-insert (rw b e), ds)
  ]

  IsLive-insert :
      (r : ExecRec)
      → lookup id store ≡ some r
      → (k j : ℕ) → k ≢ r.pid
      → IsLive store k j
      → IsLive (insert id r' store) k j
  IsLive-insert r e k j ne (s, es, ep, en) =
      (s, ground (arith, lookup-insert j id r' store), ep, en)

  pub fresh_insert :
      (n : ℕ)
      → ((j : ℕ) (s : ExecRec) → lookup j store ≡ some s → j < n)
      → id < n
      → (j : ℕ) (s : ExecRec) → lookup j (insert id r' store) ≡ some s
      → j < n
  fresh_insert n h lt j s e = ground (arith, lookup-insert j id r' store, h j s)

retire_bound :
    (id : ℕ) (t : Tracker) → length t.history ≤ max_execs → length (retire id t).history ≤ max_execs
unfolding retire
retire_bound id t h =
    if_cases (λ (xs : List ℕ). length xs ≤ max_execs)
      (ltb max_execs (length (t.history ++ id ∷ []))) _ _
      (λ _.
        omega
          (arith, length-drop (length (t.history ++ id ∷ []) - max_execs) (t.history ++ id ∷ [])))
      (λ b. ground arith)

retire_past :
    (P : ℕ → Type 0) (id : ℕ) (t : Tracker) → All P t.history → P id → All P (retire id t).history
unfolding retire
retire_past P id t h p =
    let all = All-append P t.history (id ∷ []) h (p, tt) in
    if_cases (All P) (ltb max_execs (length (t.history ++ id ∷ []))) _ _
      (λ _. All-drop P (length (t.history ++ id ∷ []) - max_execs) (t.history ++ id ∷ []) all)
      (λ b. all)

-- A record that has been given an end and put in the history.
pub close-IsTracked :
    (x : ℕ) (t : Tracker) (id : ℕ) (r r' : ExecRec)
    → IsTracked x t
    → (x ≡ 0) ⊎ (x ≡ r.pid)
    → lookup id t.store ≡ some r
    → is_done r' ≡ true
    → IsTracked r.pid (retire id (set_rec id r' t))
unfolding set_rec retire
close-IsTracked x t id r r' h hx e d = record {
  bounded = retire_bound id (set_rec id r' t) h.bounded;
  fresh = fresh_insert id r' t.store t.next h.fresh (h.fresh id r e);
  keyed = h.keyed;
  live = λ k j ek ne.
      IsLive-insert id r' t.store r e k j ne
        (h.live k j ek (not_excepted k (h.keyed k j ek) ne hx));
  past =
      retire_past (IsPast (insert id r' t.store)) id (set_rec id r' t)
        (All-map (IsPast-insert id r' t.store d) t.history h.past)
        (r', lookup-insert_self id r' t.store, d);
}
  where
    not_excepted : (k : ℕ) → k ≢ 0 → k ≢ r.pid → (x ≡ 0) ⊎ (x ≡ r.pid) → k ≢ x
    not_excepted k n0 ne hx = ground arith

pub erase-IsTracked :
    (x : ℕ) (t : Tracker) → IsTracked x t → IsTracked 0 (record t { execs = erase x t.execs })
erase-IsTracked x t h = record {
  bounded = h.bounded;
  fresh = h.fresh;
  keyed = λ k id e. h.keyed k id (kept k id e).1;
  live = λ k id e _. let (ne, e') = kept k id e in h.live k id e' ne;
  past = h.past;
}
  where
    kept :
        (k id : ℕ) → lookup k (erase x t.execs) ≡ some id → (k ≢ x) × (lookup k t.execs ≡ some id)
    kept k id e = ground (arith, lookup-erase k x t.execs)

Option-pair :
    (store : Dict ℕ ExecRec) (o : Option ℕ)
    → (with_rec store o ≡ none)
      ⊎ ((id : ℕ) × (r : ExecRec) × (o ≡ some id)
          × (lookup id store ≡ some r)
          × (with_rec store o ≡ some (id, r)))
unfolding with_rec
Option-pair store none = inl refl
Option-pair store (some id) = elim (Option-cases (lookup id store)) [
  | inl e ↦ inl (ground arith)
  | inr (r, e) ↦ inr (id, r, refl, e, ground arith)
]

-- The record that `tracked` answers with is live.
pub tracked-live :
    (t : Tracker) (pid id : ℕ) (r : ExecRec)
    → IsTracked 0 t
    → tracked t pid ≡ some (id, r)
    → (lookup id t.store ≡ some r)
      × (lookup pid t.execs ≡ some id)
      × (r.pid ≡ pid)
      × (r.end_time ≡ none)
unfolding tracked
tracked-live t pid id r h e = elim (Option-pair t.store (lookup pid t.execs)) [
  | inl n ↦ absurd (cc)
  | inr (id', r', eo, er, ew) ↦
      let (s, es, ep, en) = h.live pid id' eo (h.keyed pid id' eo) in ground arith
]

weaken : (x : ℕ) (t : Tracker) → IsTracked 0 t → IsTracked x t
weaken x t h = record {
  bounded = h.bounded;
  fresh = h.fresh;
  keyed = h.keyed;
  live = λ k id e _. h.live k id e (h.keyed k id e);
  past = h.past;
}

pub published-IsTracked :
    (x : ℕ) (t : Tracker) (es : List Event)
    → IsTracked x t
    → IsTracked x (record t { published = es })
published-IsTracked x t es h = record {
  bounded = h.bounded;
  fresh = h.fresh;
  keyed = h.keyed;
  live = h.live;
  past = h.past;
}

replaced-IsTracked :
    (now pid id : ℕ) (old : ExecRec) (t : Tracker) (detail : Text)
    → IsTracked 0 t
    → tracked t pid ≡ some (id, old)
    → IsTracked pid (
        publish_exit now
          (record old { end_time = some now })
          detail
          (retire id (set_rec id (record old { end_time = some now }) t)))
unfolding publish_exit is_done
replaced-IsTracked now pid id old t detail h e =
    let (er, eo, ep, en) = tracked-live t pid id old h e in
    let r' : ExecRec = record old { end_time = some now } in
    rw (← ep) (
      published-IsTracked old.pid (retire id (set_rec id r' t)) _
        (close-IsTracked 0 t id old r' h (inl refl) er refl))

pub end_old-IsTracked :
    (now pid : ℕ) (o : Option (ℕ × ExecRec)) (t : Tracker)
    → IsTracked 0 t
    → tracked t pid ≡ o
    → IsTracked pid (end_old now pid o t)
unfolding end_old
end_old-IsTracked now pid none t h e = weaken pid t h
end_old-IsTracked now pid (some (id, old)) t h e =
    if_cases (IsTracked pid) (not (pid == 0) && not (is_done old)) _ _
      (λ b. replaced-IsTracked now pid id old t (codes "replaced") h e) (λ _. weaken pid t h)
