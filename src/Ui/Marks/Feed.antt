-- ===== src/Ui/Marks/Feed.antt =====
-- internal/ui/marks.go: what `Feed` returns, for any bytes in any state of the parser.
use vibepod.Base.{ℕ, zero, suc, ◌≤◌, ◌<◌, not, Option, none, some, List, [], ◌∷◌, ◌++◌}
use vibepod.Base.{◌≡◌, refl, sym, ap, ◌∙◌, arith, append_assoc, append-nil}
use vibepod.Base.{Text, ◌==◌, if_cases, nat_eq, ltb, length, drop, length-drop}
use vibepod.Strings.{until_byte}
use vibepod.Ui.Marks.Defs.{
  Event, text, max_osc, osc_end, parse_osc, Round, wait, pass, mark, osc_round, sequence_round,
  round, flush, after_round, feed_loop, Parser, fed, feed,
}
use vibepod.Ui.Marks.Scan.{Item, bytes, spell, spell_one, Reading, after, copied, scan}
use vibepod.Ui.Marks.ScanLaws.{read_round, bytes-append, scan-until_byte}

spell-append : (xs ys : List Event) → spell (xs ++ ys) ≡ spell xs ++ spell ys
unfolding spell
spell-append [] ys = refl
spell-append (x ∷ xs) ys = simp (spell-append xs ys, append_assoc)

spell-flush : (out : List Event) (t : Text) → spell (flush out t) ≡ spell out ++ bytes t
unfolding flush
spell-flush out [] = unfold bytes in sym (append-nil (spell out))
spell-flush out (c ∷ t) =
    spell-append out (text (c ∷ t) ∷ [])
    ∙ ap (λ is. spell out ++ is) (unfold spell spell_one in append-nil (bytes (c ∷ t)))

-- A round that goes on leaves less than `n` bytes.
abbrev Shrinks : ℕ → Round → Type 0
Shrinks n (wait p) = Unit
Shrinks n (pass chunk rest) = length rest < n
Shrinks n (mark ev rest) = length rest < n

drop-lt : (e c : ℕ) (s : Text) (n : ℕ) → length (drop n s) < length (e ∷ c ∷ s)
drop-lt e c s n = omega (arith, length-drop n s)

sequence_round-Shrinks :
    (e c : ℕ) (s : Text) (n : ℕ) (o : Option Event)
    → Shrinks (length (e ∷ c ∷ s)) (sequence_round (e ∷ c ∷ s) n o)
unfolding sequence_round
sequence_round-Shrinks e c s n none = drop-lt e c s n
sequence_round-Shrinks e c s n (some ev) = drop-lt e c s n

osc_round-Shrinks :
    (e c : ℕ) (s : Text) (o : Option (Text × ℕ))
    → Shrinks (length (e ∷ c ∷ s)) (osc_round (e ∷ c ∷ s) o)
unfolding osc_round
osc_round-Shrinks e c s none =
    if_cases (Shrinks (length (e ∷ c ∷ s))) (ltb max_osc (length (e ∷ c ∷ s))) _ _
      (λ _. drop-lt e c s 0) (λ _. tt)
osc_round-Shrinks e c s (some (body, n)) = sequence_round-Shrinks e c s n (parse_osc body)

Shrinks-mono : (m n : ℕ) (r : Round) → m ≤ n → Shrinks m r → Shrinks n r
Shrinks-mono m n (wait p) h k = tt
Shrinks-mono m n (pass chunk rest) h k = omega arith
Shrinks-mono m n (mark ev rest) h k = omega arith

round-Shrinks : (s : Text) → Shrinks (length s) (round s)
unfolding round
round-Shrinks [] = tt
round-Shrinks (e ∷ []) = tt
round-Shrinks (e ∷ c ∷ s) =
    if_cases (Shrinks (length (e ∷ c ∷ s))) (not (c == b']')) _ _ (λ _. drop-lt e c s 0)
      (λ _. osc_round-Shrinks e c s (osc_end s))

length-until_byte : (s : Text) (c : ℕ) → length (until_byte s c).1 ≤ length s
unfolding until_byte
length-until_byte [] c = omega arith
length-until_byte (x ∷ s) c = ground (arith, length-until_byte s c)

-- A run of the loop adds to what was read before just the reading `r`.
abbrev pub Says : Option (List Event × Text) → List Item → Reading → Type 0
Says o said r = (evs : List Event) × (o ≡ some (evs, r.rest)) × (spell evs ≡ said ++ r.items)

passed-Says :
    (out : List Event) (t chunk : Text) (r : Reading) {is : List Item}
    → is ≡ (spell out ++ bytes (t ++ chunk)) ++ r.items
    → is ≡ (spell out ++ bytes t) ++ (bytes chunk ++ r.items)
passed-Says out t chunk r h = simp (h, bytes-append, append_assoc)

one_mark : (ev : Event) → spell (ev ∷ []) ≡ spell_one ev
unfolding spell
one_mark ev = append-nil (spell_one ev)

marked-Says :
    (out : List Event) (t : Text) (ev : Event) (r : Reading) {is : List Item}
    → is ≡ (spell (flush out t ++ ev ∷ []) ++ bytes []) ++ r.items
    → is ≡ (spell out ++ bytes t) ++ (spell_one ev ++ r.items)
unfolding bytes
marked-Says out t ev r h = simp (h, spell-append, spell-flush, one_mark, append_assoc, append-nil)

round-Says :
    (out : List Event) (t pre : Text) (r : Reading) {o : Option (List Event × Text)}
    → Says o (spell out ++ bytes (t ++ pre)) r
    → Says o (spell out ++ bytes t) (after (bytes pre) r)
unfolding after
round-Says out t pre r (evs, e, m) = (evs, e, passed-Says out t pre r m)

abbrev pub LoopSays : ℕ → Type 0
LoopSays fuel =
    (s t : Text) (out : List Event)
    → length s ≤ fuel
    → Says (feed_loop fuel s t out) (spell out ++ bytes t) (scan s copied 0)

after_round-Says :
    (fuel : ℕ) (ih : LoopSays fuel) (t : Text) (out : List Event) (r : Round)
    → Shrinks (suc fuel) r
    → Says (after_round (feed_loop fuel) t out r) (spell out ++ bytes t) (read_round r)
unfolding after_round read_round after
after_round-Says fuel ih t out (wait p) h =
    (flush out t, refl, spell-flush out t ∙ sym (append-nil _))
after_round-Says fuel ih t out (pass chunk rest) h =
    let (evs, e, m) = ih rest (t ++ chunk) out (omega arith) in
    (evs, e, passed-Says out t chunk (scan rest copied 0) m)
after_round-Says fuel ih t out (mark ev rest) h =
    let (evs, e, m) = ih rest [] (flush out t ++ ev ∷ []) (omega arith) in
    (evs, e, marked-Says out t ev (scan rest copied 0) m)

pub loop-Says : (fuel : ℕ) → LoopSays fuel
unfolding feed_loop
loop-Says fuel [] t out h =
    (flush out t, unfold scan in refl, spell-flush out t ∙ unfold scan in sym (append-nil _))
loop-Says zero (c ∷ s) t out h = absurd (omega arith)
loop-Says (suc fuel) (c ∷ s) t out h =
    let pre = (until_byte (c ∷ s) 0x1b).0 in
    let esc = (until_byte (c ∷ s) 0x1b).1 in
    let small : length esc ≤ suc fuel = omega (arith, length-until_byte (c ∷ s) 0x1b) in
    rw (scan-until_byte (c ∷ s)) (
      round-Says out t pre (read_round (round esc)) (
        after_round-Says fuel (loop-Says fuel) (t ++ pre) out (round esc)
          (Shrinks-mono (length esc) (suc fuel) (round esc) small (round-Shrinks esc))))

pub feed_lem :
    (p : Parser) (b : Text)
    → (evs : List Event) × (feed p b
        ≡ some (evs, record { pend = (scan (p.pend ++ b) copied 0).rest }))
      × (spell evs ≡ (scan (p.pend ++ b) copied 0).items)
unfolding feed
feed_lem p b =
    let (evs, e, m) = loop-Says (length (p.pend ++ b)) (p.pend ++ b) [] [] (omega arith) in
    (evs, unfold fed in rw e refl, unfold spell bytes in m)
