-- ===== src/Daemon/Sessions/StreamSteps.antt =====
-- internal/daemon/session.go: a step of `attach` and one of `pump`, seen from one terminal.
use vibepod.Base.{ℕ, Bool, true, false, Option, none, some, [], ◌++◌}
use vibepod.Base.{◌≡◌, refl, sym, ap, ◌∙◌, arith, inl, inr, Bool-cases}
use vibepod.Base.{append-nil, if_cases}
use vibepod.Base.{Text, ◌==◌, ==_iff, nat_eq, text_eq}
use mathlib.Core.Path.{subst}
use vibepod.Base.Dict.{Dict, lookup, erase, lookup-insert_self, lookup-erase}
use vibepod.Daemon.Sessions.Defs.{
  Shell, Client, LiveSession, Task, write_out, write_or_stop, with_task, without_task, shown_to,
  at_client, with_client, go_on, same_id, chunk_out, pass_on,
}
use vibepod.Daemon.Sessions.Steps.{}
use vibepod.Daemon.Sessions.Streamed.{
  or_nothing, under_way, Shows, waits, drew, ended, IsStreamed, lookup-each_client, Shows-append,
}

shown_to_lem :
    (text : Bool → Text) (framed : Bool) (out : Text)
    → shown_to true false text (record { framed = framed; out = out; stopped = false })
      ≡ record { framed = framed; out = out ++ text framed; stopped = false }
unfolding shown_to write_or_stop write_out
shown_to_lem text framed out =
    let c : Client = record { framed = framed; out = out; stopped = false } in
    if_cases (λ (d : Client). d ≡ record c { out = out ++ text framed }) (text framed == []) _ _
      (λ y.
        ap (λ o. record c { out = o })
          (sym (ap (λ x. out ++ x) ((==_iff (text framed) []).0 y) ∙ append-nil out)))
      (λ _. refl)

chunk_out_lem :
    (works : ℕ → Bool) (chunk : Text) (k : ℕ) (framed : Bool) (out : Text)
    → works k ≡ true
    → chunk_out works chunk k (record { framed = framed; out = out; stopped = false })
      ≡ record { framed = framed; out = out ++ chunk; stopped = false }
unfolding chunk_out write_out
chunk_out_lem works chunk k framed out w = rw w refl

same_id_lem : (i j : ℕ) → same_id (some i) j ≡ (i == j)
unfolding same_id
same_id_lem i j = refl

module _ (i k t : ℕ) (framed : Bool) (text : Bool → Text) where
  -- The goroutine of `attach` goes on.
  pub go_on-IsStreamed :
      (sh : Shell) (all : Text) (w : LiveSession)
      → IsStreamed i k t framed text sh all w
      → IsStreamed i k t framed text sh all (go_on true t (lookup t w.tasks) w)
  go_on-IsStreamed sh all w h =
      by_phase h.before h.after h.out (lookup t w.tasks) refl h.client h.phase h.kept
    where
      by_phase :
          (before after out : Text) (o : Option Task)
          → lookup t w.tasks ≡ o
          → lookup k w.sess.clients ≡ some (record { framed = framed; out = out; stopped = false })
          → Shows k text (text framed) before after o out
          → before ++ (after ++ under_way i w) ≡ all
          → IsStreamed i k t framed text sh all (go_on true t o w)
      by_phase before after out o e c (waits a) kept = record {
        before = before;
        after = [];
        out = before ++ (text framed ++ []);
        cur = unfold go_on with_client with_task in h.cur;
        handle = unfold go_on with_client with_task in h.handle;
        client =
            unfold go_on with_client with_task at_client in
            rw (c, shown_to_lem text framed before)
              (lookup-insert_self k _ w.sess.clients
                ∙ ap (λ x. some (record { framed = framed; out = before ++ x; stopped = false }))
                    (sym (append-nil (text framed))));
        phase = unfold go_on with_client with_task in rw lookup-insert_self drew;
        kept =
            unfold go_on with_client with_task under_way in
            ap (λ x. before ++ (x ++ under_way i w)) (sym a) ∙ kept;
      }
      by_phase before after out o e c drew kept = record {
        before = before;
        after = after;
        out = before ++ (text framed ++ after);
        cur = unfold go_on without_task in h.cur;
        handle = unfold go_on without_task in h.handle;
        client = unfold go_on without_task in c;
        phase =
            unfold go_on without_task in
            subst
              (λ o. Shows k text (text framed) before after o (before ++ (text framed ++ after)))
              (sym (gone w.tasks)) ended;
        kept = unfold go_on without_task under_way in kept;
      }
        where
          gone : (d : Dict ℕ Task) → lookup t (erase t d) ≡ none
          gone d = ground (arith, lookup-erase t t d)
      by_phase before after out o e c ended kept = unfold go_on in h

  -- A chunk is handed on.
  pub pass_on-IsStreamed :
      (works : ℕ → Bool) (j : ℕ) (o : Option Text) (sh : Shell) (all : Text) (w : LiveSession)
      → works k ≡ true
      → lookup j w.chunks ≡ o
      → IsStreamed i k t framed text sh all w
      → IsStreamed i k t framed text sh all (pass_on works j o w)
  pass_on-IsStreamed works j none sh all w ok e h = unfold pass_on in h
  pass_on-IsStreamed works j (some chunk) sh all w ok e h = elim (Bool-cases (i == j)) [
    | inl y ↦
        let (before', after', p, kept) = Shows-append chunk h.phase in
        record {
          before = before';
          after = after';
          out = h.out ++ chunk;
          cur = unfold pass_on in h.cur;
          handle = unfold pass_on in h.handle;
          client =
              unfold pass_on in
              rw (h.cur, same_id_lem, y)
                (lookup-each_client (chunk_out works chunk) k w.sess.clients _ h.client
                  ∙ ap some (chunk_out_lem works chunk k framed h.out ok));
          phase = unfold pass_on in p;
          kept =
              unfold pass_on under_way or_nothing in
              ap (λ x. before' ++ (after' ++ x)) (handed y)
              ∙ kept
              ∙ ap (λ x. h.before ++ (h.after ++ x)) (sym (waiting y))
              ∙ h.kept;
        }
    | inr n ↦ record {
      before = h.before;
      after = h.after;
      out = h.out;
      cur = unfold pass_on in h.cur;
      handle = unfold pass_on in h.handle;
      client = unfold pass_on in rw (h.cur, same_id_lem, n) h.client;
      phase = unfold pass_on in h.phase;
      kept =
          unfold pass_on under_way in
          ap (λ x. h.before ++ (h.after ++ or_nothing x)) (elsewhere n)
          ∙ unfold under_way in h.kept;
    }
  ]
    where
      handed : (i == j) ≡ true → or_nothing (lookup i (erase j w.chunks)) ≡ []
      handed y = unfold or_nothing in rw (lookup-erase i j w.chunks, y) refl

      waiting : (i == j) ≡ true → under_way i w ≡ chunk
      waiting y =
          unfold under_way or_nothing in
          ap (λ x. or_nothing (lookup x w.chunks)) ((==_iff i j).0 y) ∙ ap or_nothing e

      elsewhere : (i == j) ≡ false → lookup i (erase j w.chunks) ≡ lookup i w.chunks
      elsewhere n = rw (lookup-erase i j w.chunks, n) refl
