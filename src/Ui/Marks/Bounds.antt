-- ===== src/Ui/Marks/Bounds.antt =====
-- internal/ui/marks.go: the loop of `Feed` ends, what waits stays small, and the reads do not show.
use vibepod.Base.{ℕ, zero, suc, ◌≤◌, not, Option, none, some, List, [], ◌∷◌, ◌++◌}
use vibepod.Base.{◌≡◌, sym, ap, ◌∙◌, arith, append_assoc}
use vibepod.Base.{Text, ◌==◌, if_cases, nat_eq, ltb, length}
use vibepod.Strings.{until_byte}
use vibepod.Ui.Marks.Defs.{
  Event, max_osc, osc_end, Round, wait, pass, mark, round, after_round, feed_loop, Parser, feed,
}
use vibepod.Ui.Marks.Scan.{
  spell, Reading, after, Skip, copied, dropped, Escape, unfinished, literal, marked, osc_escape,
  ended_escape, escape_before, read_escape, scan,
}
use vibepod.Ui.Marks.Feed.{loop-Says, feed_lem}
use vibepod.Ui.Marks.Chunks.{continued, scan-append}

after_round_more :
    (f g : ℕ)
    → ((s t : Text) (out : List Event) (x : List Event × Text)
        → feed_loop f s t out ≡ some x
        → feed_loop g s t out ≡ some x)
    → (t : Text) (out : List Event) (r : Round) (x : List Event × Text)
    → after_round (feed_loop f) t out r ≡ some x
    → after_round (feed_loop g) t out r ≡ some x
unfolding after_round
after_round_more f g ih t out (wait p) x e = e
after_round_more f g ih t out (pass chunk rest) x e = ih _ _ _ x e
after_round_more f g ih t out (mark ev rest) x e = ih _ _ _ x e

feed_loop_more :
    (f g : ℕ)
    → f ≤ g
    → (s t : Text) (out : List Event) (x : List Event × Text) → feed_loop f s t out ≡ some x
    → feed_loop g s t out ≡ some x
unfolding feed_loop
feed_loop_more zero g h [] t out x e = e
feed_loop_more (suc f) g h [] t out x e = e
feed_loop_more zero g h (c ∷ s) t out x e = cc
feed_loop_more (suc f) zero h (c ∷ s) t out x e = absurd (omega arith)
feed_loop_more (suc f) (suc g) h (c ∷ s) t out x e =
    after_round_more f g (feed_loop_more f g (omega arith)) _ out
      (round (until_byte (c ∷ s) 0x1b).1) x e

-- The loop of Feed ends by itself: on any text, and whatever it has gathered, it returns a result
-- after at most as many rounds as the text has bytes, and more rounds would not change it.
pub feed_loop_total :
    (fuel : ℕ) (s t : Text) (out : List Event)
    → length s ≤ fuel
    → (x : List Event × Text) × (feed_loop (length s) s t out ≡ some x)
      × (feed_loop fuel s t out ≡ some x)
feed_loop_total fuel s t out h =
    let (evs, e, _) = loop-Says (length s) s t out (omega arith) in
    let x : List Event × Text = (evs, (scan s copied 0).rest) in
    (x, e, feed_loop_more (length s) fuel h s t out x e)

-- What waits is short.
abbrev Fits : Text → Escape → Type 0
Fits s unfinished = suc (length s) ≤ max_osc
Fits s (literal n) = Unit
Fits s (marked ev n) = Unit

ended-Fits : (s : Text) (n : ℕ) (o : Option Event) → Fits s (ended_escape n o)
unfolding ended_escape
ended-Fits s n none = tt
ended-Fits s n (some ev) = tt

osc-Fits : (c : ℕ) (s : Text) (o : Option (Text × ℕ)) → Fits (c ∷ s) (osc_escape s o)
unfolding osc_escape
osc-Fits c s none =
    if_cases (Fits (c ∷ s)) (ltb max_osc (suc (suc (length s)))) _ _ (λ _. tt) (λ b. ground arith)
osc-Fits c s (some (body, n)) = ended-Fits (c ∷ s) n _

escape_before-Fits : (s : Text) → Fits s (escape_before s)
unfolding escape_before
escape_before-Fits [] = unfold max_osc in omega arith
escape_before-Fits (c ∷ s) =
    if_cases (Fits (c ∷ s)) (not (c == b']')) _ _ (λ _. tt) (λ _. osc-Fits c s (osc_end s))

read_escape_bound :
    (s : Text) (esc : Escape)
    → Fits s esc
    → ((m : Skip) (n : ℕ) → length (scan s m n).rest ≤ max_osc)
    → length (read_escape (scan s) s esc).rest ≤ max_osc
unfolding read_escape after
read_escape_bound s unfinished h ih = h
read_escape_bound s (literal n) h ih = ih copied n
read_escape_bound s (marked ev n) h ih = ih dropped n

scan_bound : (s : Text) (m : Skip) (n : ℕ) → length (scan s m n).rest ≤ max_osc
unfolding scan after
scan_bound [] m n = omega arith
scan_bound (c ∷ s) m (suc n) = scan_bound s m n
scan_bound (c ∷ s) m zero =
    if_cases (λ (r : Reading). length r.rest ≤ max_osc) (c == 0x1b) _ _
      (λ _. read_escape_bound s (escape_before s) (escape_before-Fits s) (scan_bound s))
      (λ _. scan_bound s copied 0)

-- Feed always returns, and leaves at most maxOSC bytes waiting, whatever waited before and whatever
-- it was fed.
pub feed_bound :
    (p : Parser) (b : Text)
    → (evs : List Event) × (p' : Parser) × (feed p b ≡ some (evs, p')) × (length p'.pend ≤ max_osc)
feed_bound p b =
    let (evs, e, _) = feed_lem p b in
    (
      evs,
      record { pend = (scan (p.pend ++ b) copied 0).rest },
      e,
      scan_bound (p.pend ++ b) copied 0,
    )

-- For any bytes, Feed returns events that say just what the stream says when it is read byte by
-- byte from what waited before: the same text in the same order, and every mark at its place; and
-- it keeps waiting just the end that says nothing yet.
pub feed-scan :
    (p : Parser) (b : Text)
    → (evs : List Event) × (feed p b
        ≡ some (evs, record { pend = (scan (p.pend ++ b) copied 0).rest }))
      × (spell evs ≡ (scan (p.pend ++ b) copied 0).items)
feed-scan p b = feed_lem p b

scan_both :
    (w b r : Text)
    → length (w ++ b) ≤ max_osc
    → scan (w ++ (b ++ r)) copied 0
      ≡ after (scan (w ++ b) copied 0).items (scan ((scan (w ++ b) copied 0).rest ++ r) copied 0)
unfolding continued
scan_both w b r h =
    ap (λ s. scan s copied 0) (sym (append_assoc w b r))
    ∙ scan-append (w ++ b) r copied 0 (omega arith) h

-- How a stream is cut into reads does not show: where what waits and the first read are together
-- no longer than maxOSC, feeding two reads in turn and feeding both at once leave the same
-- bytes waiting, and the events of the two reads say together what those of the one say.
pub feed-feed :
    (p : Parser) (b r : Text)
    → length (p.pend ++ b) ≤ max_osc
    → (first : List Event) × (second : List Event) × (both : List Event) × (p1 : Parser)
      × (p2 : Parser) × (feed p b ≡ some (first, p1))
      × (feed p1 r ≡ some (second, p2))
      × (feed p (b ++ r) ≡ some (both, p2))
      × (spell both ≡ spell first ++ spell second)
unfolding after
feed-feed p b r h =
    let (first, e1, m1) = feed_lem p b in
    let p1 : Parser = record { pend = (scan (p.pend ++ b) copied 0).rest } in
    let (second, e2, m2) = feed_lem p1 r in
    let (both, e3, m3) = feed_lem p (b ++ r) in
    let joined = scan_both p.pend b r h in
    (
      first,
      second,
      both,
      p1,
      record { pend = (scan (p1.pend ++ r) copied 0).rest },
      e1,
      e2,
      e3 ∙ ap (λ (x : Reading). some (both, record { pend = x.rest })) joined,
      m3 ∙ ap (λ (x : Reading). x.items) joined ∙ simp (m1, m2),
    )
