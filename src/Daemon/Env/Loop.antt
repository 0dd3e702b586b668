-- ===== src/Daemon/Env/Loop.antt =====
-- The loop of `forwardEnv`: what it keeps and what it refuses, before sorting.
use vibepod.Base.{true, false, ◌≡◌, refl, ◌⊎◌, inl, inr, ◌∙◌, sym, ap, List, [], ◌∷◌}
use vibepod.Base.{some, Text, In, arith, text_eq, if◌then◌else◌}
use mathlib.Core.Path.{subst}
use vibepod.Base.Dict.{Dict}
use vibepod.Strings.{cut, cut_sound}
use vibepod.Daemon.Env.Defs.{delta_env, verdict, skipped, withheld, forwarded}
use vibepod.Daemon.Env.Defs.{is_identity, assignment}
use vibepod.Daemon.Env.Verdict.{
  SetByCaller, Crosses, Refused, verdict_forwarded, verdict-withheld, verdict_of_set, Verdict-cases,
}

module _ (base : Dict Text Text) where
  -- One round of the loop.
  step_skipped :
      (c : Text) (cs : List Text)
      → verdict base c ≡ skipped
      → delta_env base (c ∷ cs) ≡ delta_env base cs
  unfolding delta_env
  step_skipped c cs e = ground arith

  step_withheld :
      (c : Text) (cs : List Text) (n : Text)
      → verdict base c ≡ withheld n
      → delta_env base (c ∷ cs) ≡ ((delta_env base cs).0, n ∷ (delta_env base cs).1)
  unfolding delta_env
  step_withheld c cs n e = ground arith

  step_forwarded :
      (c : Text) (cs : List Text) (n v : Text)
      → verdict base c ≡ forwarded n v
      → delta_env base (c ∷ cs) ≡ (assignment n v ∷ (delta_env base cs).0, (delta_env base cs).1)
  unfolding delta_env
  step_forwarded c cs n v e = ground arith

  -- An assignment that is rendered is the entry that it was cut from.
  assignment-cut : (kv n v : Text) → cut kv b'=' ≡ some (n, v) → assignment n v ≡ kv
  unfolding assignment
  assignment-cut kv n v e = sym (cut_sound kv b'=' e).0

  pub keep_of_forwarded :
      (command : List Text) (kv : Text)
      → In kv (delta_env base command).0
      → In kv command × Crosses base kv
  keep_of_forwarded [] kv m = absurd (unfold delta_env in m)
  keep_of_forwarded (c ∷ cs) kv m = elim (Verdict-cases base (verdict base c)) [
    | inl e ↦ later (keep_of_forwarded cs kv (rw (step_skipped c cs e) at m))
    | inr (inl (n, e)) ↦ later (keep_of_forwarded cs kv (rw (step_withheld c cs n e) at m))
    | inr (inr (n, v, e)) ↦ elim (split n v (step_forwarded c cs n v e) m) [
      | inl here ↦ found n v (verdict_forwarded base c n v e) here
      | inr there ↦ later (keep_of_forwarded cs kv there)
    ]
  ]
    where
      later : In kv cs × Crosses base kv → In kv (c ∷ cs) × Crosses base kv
      later (m, x) = (inr m, x)

      split :
          (n v : Text)
          → delta_env base (c ∷ cs)
            ≡ (assignment n v ∷ (delta_env base cs).0, (delta_env base cs).1)
          → In kv (delta_env base (c ∷ cs)).0
          → (kv ≡ assignment n v) ⊎ In kv (delta_env base cs).0
      split n v e m = rw e at m

      found :
          (n v : Text)
          → SetByCaller base c n v × (is_identity n ≡ false)
          → kv ≡ assignment n v
          → In kv (c ∷ cs) × Crosses base kv
      found n v (s, i) e =
          let same : kv ≡ c = e ∙ assignment-cut c n v s.parsed in
          (
            inl same,
            subst (Crosses base) (sym same)
                (record { name = n; value = v; by_caller = s; no_identity = i }),
          )

  pub delta_env-Crosses :
      (command : List Text) (kv : Text)
      → In kv command
      → Crosses base kv
      → In kv (delta_env base command).0
  delta_env-Crosses [] kv m x = absurd m
  delta_env-Crosses (c ∷ cs) kv (inl e) x =
      let v : verdict base c ≡ forwarded x.name x.value =
        ap (verdict base) (sym e)
        ∙ verdict_of_set base kv x.name x.value x.by_caller
        ∙ ap (λ b. if b then withheld x.name else forwarded x.name x.value) x.no_identity in
      rw (step_forwarded c cs x.name x.value v)
        (inl (sym (assignment-cut kv x.name x.value x.by_caller.parsed)))
  delta_env-Crosses (c ∷ cs) kv (inr m) x =
      let ih = delta_env-Crosses cs kv m x in
      elim (Verdict-cases base (verdict base c)) [
        | inl e ↦ rw (step_skipped c cs e) ih
        | inr (inl (n, e)) ↦ rw (step_withheld c cs n e) ih
        | inr (inr (n, v, e)) ↦ rw (step_forwarded c cs n v e) (inr ih)
      ]

  pub delta_env-Refused :
      (command : List Text) (name : Text)
      → In name (delta_env base command).1
      → Refused base command name
  delta_env-Refused [] name m = absurd (unfold delta_env in m)
  delta_env-Refused (c ∷ cs) name m = elim (Verdict-cases base (verdict base c)) [
    | inl e ↦ later (delta_env-Refused cs name (rw (step_skipped c cs e) at m))
    | inr (inl (n, e)) ↦ elim (split (step_withheld c cs n e) m) [
      | inl here ↦ found n (verdict-withheld base c n e) here
      | inr there ↦ later (delta_env-Refused cs name there)
    ]
    | inr (inr (n, v, e)) ↦ later (delta_env-Refused cs name (rw (step_forwarded c cs n v e) at m))
  ]
    where
      later : Refused base cs name → Refused base (c ∷ cs) name
      later r = record {
        kv = r.kv;
        value = r.value;
        present = inr r.present;
        by_caller = r.by_caller;
        identity = r.identity;
      }

      split :
          {n : Text}
          → delta_env base (c ∷ cs) ≡ ((delta_env base cs).0, n ∷ (delta_env base cs).1)
          → In name (delta_env base (c ∷ cs)).1
          → (name ≡ n) ⊎ In name (delta_env base cs).1
      split e m = rw e at m

      found :
          (n : Text)
          → ((value : Text) × SetByCaller base c n value × (is_identity n ≡ true))
          → name ≡ n
          → Refused base (c ∷ cs) name
      found n (v, s, i) e =
          subst (Refused base (c ∷ cs)) (sym e)
            (record { kv = c; value = v; present = inl refl; by_caller = s; identity = i })

  pub withheld_of_refused :
      (command : List Text) (name kv value : Text)
      → In kv command
      → SetByCaller base kv name value
      → is_identity name ≡ true
      → In name (delta_env base command).1
  withheld_of_refused [] name kv value m s i = absurd m
  withheld_of_refused (c ∷ cs) name kv value (inl e) s i =
      let v : verdict base c ≡ withheld name =
        ap (verdict base) (sym e)
        ∙ verdict_of_set base kv name value s
        ∙ ap (λ b. if b then withheld name else forwarded name value) i in
      rw (step_withheld c cs name v) (inl refl)
  withheld_of_refused (c ∷ cs) name kv value (inr m) s i =
      let ih = withheld_of_refused cs name kv value m s i in
      elim (Verdict-cases base (verdict base c)) [
        | inl e ↦ rw (step_skipped c cs e) ih
        | inr (inl (n, e)) ↦ rw (step_withheld c cs n e) (inr ih)
        | inr (inr (n, v, e)) ↦ rw (step_forwarded c cs n v e) ih
      ]
