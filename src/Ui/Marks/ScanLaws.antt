-- ===== src/Ui/Marks/ScanLaws.antt =====
-- Laws of `oscEnd`, and of the reading of a stream.
use vibepod.Base.{ℕ, zero, suc, ◌≤◌, Option, none, some, List, [], ◌∷◌, ◌++◌}
use vibepod.Base.{◌≡◌, refl, sym, ap, arith, inl, inr, Option-cases, Bool-cases, append_assoc}
use vibepod.Base.{Text, ◌==◌, ==_iff, nat_eq, length, take, drop}
use mathlib.Core.Path.{subst}
use vibepod.Strings.{until_byte}
use vibepod.Ui.Marks.Defs.{
  Event, osc_end, parse_osc, Round, wait, pass, mark, osc_round, sequence_round, round,
}
use vibepod.Ui.Marks.Scan.{
  Item, byte, bytes, spell_one, Reading, after, copied, dropped, osc_escape, ended_escape,
  escape_before, passed, read_escape, scan,
}

-- A terminator that has come stays where it is.
pub osc_end-append :
    (s r : Text) {body : Text} {n : ℕ}
    → osc_end s ≡ some (body, n)
    → (osc_end (s ++ r) ≡ some (body, n)) × (n ≤ length s)
unfolding osc_end
osc_end-append [] r h = absurd (cc)
osc_end-append (c ∷ []) [] h = ground arith
osc_end-append (c ∷ []) (x ∷ r) h = ground arith
osc_end-append (c ∷ d ∷ s) r {body} {n} h = elim (Option-cases (osc_end (d ∷ s))) [
  | inl e ↦ ground arith
  | inr ((b', n'), e) ↦ ground (arith, osc_end-append (d ∷ s) r e)
]

pub after-after : (is js : List Item) (r : Reading) → after is (after js r) ≡ after (is ++ js) r
unfolding after
after-after is js r = ap (λ xs. record r { items = xs }) (sym (append_assoc is js r.items))

pub bytes-append : (s t : Text) → bytes (s ++ t) ≡ bytes s ++ bytes t
unfolding bytes
bytes-append [] t = refl
bytes-append (c ∷ s) t = ap (λ is. byte c ∷ is) (bytes-append s t)

pub scan-dropped : (s : Text) (n : ℕ) → scan s dropped n ≡ scan (drop n s) copied 0
unfolding scan after passed
scan-dropped [] zero = refl
scan-dropped [] (suc n) = refl
scan-dropped (c ∷ s) zero = refl
scan-dropped (c ∷ s) (suc n) = scan-dropped s n

scan-copied :
    (s : Text) (n : ℕ) → scan s copied n ≡ after (bytes (take n s)) (scan (drop n s) copied 0)
unfolding scan after passed bytes
scan-copied [] zero = refl
scan-copied [] (suc n) = refl
scan-copied (c ∷ s) zero = refl
scan-copied (c ∷ s) (suc n) = ap (after (byte c ∷ [])) (scan-copied s n)

-- What a round has read, and the reading of what it leaves.
unfoldable pub read_round : Round → Reading
read_round (wait p) = record { items = []; rest = p }
read_round (pass chunk rest) = after (bytes chunk) (scan rest copied 0)
read_round (mark ev rest) = after (spell_one ev) (scan rest copied 0)

sequence_lem :
    (c : ℕ) (s : Text) (n : ℕ) (o : Option Event)
    → read_escape (scan (c ∷ s)) (c ∷ s) (ended_escape n o)
      ≡ read_round (sequence_round (0x1b ∷ c ∷ s) n o)
unfolding ended_escape sequence_round read_escape scan passed read_round bytes after
sequence_lem c s n none = rw (scan-copied s n) refl
sequence_lem c s n (some ev) = rw (scan-dropped s n) refl

osc_lem :
    (c : ℕ) (s : Text) (o : Option (Text × ℕ))
    → read_escape (scan (c ∷ s)) (c ∷ s) (osc_escape s o) ≡ read_round (osc_round (0x1b ∷ c ∷ s) o)
unfolding osc_escape osc_round read_escape scan passed read_round bytes after
osc_lem c s none = ground (arith, scan-copied s 0)
osc_lem c s (some (body, n)) = sequence_lem c s n (parse_osc body)

scan_escape : (s : Text) → scan (0x1b ∷ s) copied 0 ≡ read_round (round (0x1b ∷ s))
unfolding scan round read_round escape_before read_escape nat_eq
scan_escape [] = refl
scan_escape (c ∷ s) = elim (Bool-cases (c == b']')) [
  | inl b ↦ rw b (osc_lem c s (osc_end s))
  | inr b ↦ rw b (unfold after passed bytes in ground (arith, scan-copied s 0))
]

abbrev IsReadByRound : Text → Type 0
IsReadByRound s =
    scan s copied 0 ≡ after (bytes (until_byte s 0x1b).0) (read_round (round (until_byte s 0x1b).1))

escape-IsReadByRound : (s : Text) → IsReadByRound (0x1b ∷ s)
unfolding until_byte bytes after nat_eq
escape-IsReadByRound s = scan_escape s

-- The text up to the first escape is read as it stands; the rest, round by round.
pub scan-until_byte : (s : Text) → IsReadByRound s
unfolding scan until_byte bytes after
scan-until_byte [] = unfold round read_round in refl
scan-until_byte (c ∷ s) = elim (Bool-cases (c == 0x1b)) [
  | inl b ↦ subst (λ x. IsReadByRound (x ∷ s)) (sym ((==_iff c 0x1b).0 b)) (escape-IsReadByRound s)
  | inr b ↦ rw b (ap (after (byte c ∷ [])) (scan-until_byte s))
]
