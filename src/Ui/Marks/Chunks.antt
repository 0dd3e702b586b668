-- ===== src/Ui/Marks/Chunks.antt =====
-- internal/ui/marks.go: how a stream is cut into reads makes no difference.
use vibepod.Base.{ℕ, zero, suc, ◌≤◌, Option, none, some, List, [], ◌∷◌, ◌++◌}
use vibepod.Base.{◌≡◌, refl, sym, ap, ◌∙◌, arith, inl, inr, Bool-cases}
use vibepod.Base.{Text, ◌==◌, ==_iff, if_cases, nat_eq, ltb, length}
use mathlib.Core.Path.{subst}
use vibepod.Ui.Marks.Defs.{Event, max_osc, osc_end, parse_osc}
use vibepod.Ui.Marks.Scan.{
  Item, byte, spell_one, Reading, after, Skip, copied, dropped, Escape, unfinished, literal, marked,
  osc_escape, ended_escape, escape_before, passed, read_escape, scan,
}
use vibepod.Ui.Marks.ScanLaws.{osc_end-append, after-after}

-- An escape that is complete is read alike when more follows, and lies within the text.
abbrev IsStable : Text → Text → Escape → Type 0
IsStable s r unfinished = Unit
IsStable s r (literal n) = (escape_before (s ++ r) ≡ literal n) × (n ≤ length s)
IsStable s r (marked ev n) = (escape_before (s ++ r) ≡ marked ev n) × (n ≤ length s)

ended-IsStable :
    (s r : Text) (n : ℕ) (o : Option Event)
    → escape_before (s ++ r) ≡ ended_escape n o
    → suc n ≤ length s
    → IsStable s r (ended_escape n o)
unfolding ended_escape
ended-IsStable s r n none e h = (e, h)
ended-IsStable s r n (some ev) e h = (e, h)

osc-IsStable :
    (s r : Text) (o : Option (Text × ℕ))
    → osc_end s ≡ o
    → suc (suc (length s)) ≤ max_osc
    → IsStable (b']' ∷ s) r (osc_escape s o)
unfolding osc_escape
osc-IsStable s r none e h =
    if_cases (IsStable (b']' ∷ s) r) (ltb max_osc (suc (suc (length s)))) _ _
      (λ b. absurd (ground arith)) (λ _. tt)
osc-IsStable s r (some (body, n)) e h =
    let (e', le) = osc_end-append s r e in
    ended-IsStable (b']' ∷ s) r n (parse_osc body)
      (unfold escape_before osc_escape nat_eq in rw e' refl) (omega arith)

bracket-IsStable :
    (s r : Text) → suc (suc (length s)) ≤ max_osc → IsStable (b']' ∷ s) r (escape_before (b']' ∷ s))
unfolding escape_before nat_eq
bracket-IsStable s r h = osc-IsStable s r (osc_end s) refl h

escape_before-IsStable : (s r : Text) → suc (length s) ≤ max_osc → IsStable s r (escape_before s)
unfolding escape_before
escape_before-IsStable [] r h = tt
escape_before-IsStable (c ∷ s) r h = elim (Bool-cases (c == b']')) [
  | inl b ↦
      subst (λ x. IsStable (x ∷ s) r (escape_before (x ∷ s))) (sym ((==_iff c b']').0 b))
        (bracket-IsStable s r h)
  | inr b ↦ rw b (unfold escape_before in rw b refl, omega arith)
]

scan_zero : (s : Text) (m : Skip) → scan s m 0 ≡ scan s copied 0
unfolding scan
scan_zero [] m = refl
scan_zero (c ∷ s) m = refl

-- `r` is read behind what the reading `x` left over.
unfoldable pub continued : Text → Reading → Reading
unfolding after
continued r x = after x.items (scan (x.rest ++ r) copied 0)

continued-after :
    (r : Text) (is : List Item) (x : Reading) → after is (continued r x) ≡ continued r (after is x)
unfolding continued after
continued-after r is x = after-after is x.items (scan (x.rest ++ r) copied 0)

-- The reading of a text with more behind it, where no unfinished escape is too long to wait for.
abbrev pub ScansOn : Text → Text → Type 0
ScansOn s r =
    (m : Skip) (n : ℕ)
    → n ≤ length s
    → length s ≤ max_osc
    → scan (s ++ r) m n ≡ continued r (scan s m n)

read_escape-ScansOn :
    (s r : Text) (esc : Escape)
    → ScansOn s r
    → suc (length s) ≤ max_osc
    → IsStable s r esc
    → escape_before s ≡ esc
    → read_escape (scan (s ++ r)) (s ++ r) (escape_before (s ++ r))
      ≡ continued r (read_escape (scan s) s (escape_before s))
unfolding read_escape
read_escape-ScansOn s r unfinished ih h st e = rw e (unfold scan continued after nat_eq in refl)
read_escape-ScansOn s r (literal n) ih h (e', le) e =
    rw (e, e')
      (ap (after (byte 0x1b ∷ [])) (ih copied n le (omega arith))
        ∙ continued-after r (byte 0x1b ∷ []) _)
read_escape-ScansOn s r (marked ev n) ih h (e', le) e =
    rw (e, e')
      (ap (after (spell_one ev)) (ih dropped n le (omega arith))
        ∙ continued-after r (spell_one ev) _)

pub scan-append : (s r : Text) → ScansOn s r
unfolding scan
scan-append [] r m zero h k = unfold continued after in scan_zero r m
scan-append [] r m (suc n) h k = absurd (omega arith)
scan-append (c ∷ s) r m (suc n) h k =
    ap (after (passed m c)) (scan-append s r m n (omega arith) (omega arith))
    ∙ continued-after r (passed m c) _
scan-append (c ∷ s) r m zero h k = elim (Bool-cases (c == 0x1b)) [
  | inl b ↦ rw b (
      read_escape-ScansOn s r (escape_before s) (scan-append s r) k (escape_before-IsStable s r k)
        refl)
  | inr b ↦ rw b (
      ap (after (byte c ∷ [])) (scan-append s r copied 0 (omega arith) (omega arith))
      ∙ continued-after r (byte c ∷ []) _)
]
