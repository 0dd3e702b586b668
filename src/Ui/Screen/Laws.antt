-- ===== src/Ui/Screen/Laws.antt =====
-- internal/ui/frame.go: what was printed is on the screen or in the scrollback, once and in order.
use vibepod.Base.{ℕ, zero, suc, Bool, true, false, ◌||◌, none, List, [], ◌∷◌, ◌++◌, ◌≤◌, append-nil}
use vibepod.Base.{◌≡◌, ◌≢◌, refl, sym, ap, ◌∙◌, arith, inl, inr, Bool-cases, if_cases}
use mathlib.Core.Path.{subst}
use vibepod.Base.{Text, if◌then◌else◌, nat_eq, length, drop, ltb, leb}
use vibepod.Ui.Screen.Defs.{
  ShellModel, tail_view, first_row, tail_rows, none_left, remember_lines, TermOp, clear, paint,
  cleared, first_only, scrolled, after_clear, frame_write,
}
use vibepod.Ui.Screen.Device.{Terminal, paint_row, paint_at, all_blank, run_op, run_ops}
use vibepod.Ui.Screen.Rows.{round_ops-Scrolled}

length-paint_row : (i : ℕ) (l : Text) (rows : List Text) → length (paint_row i l rows) ≡ length rows
unfolding paint_row
length-paint_row i l [] = refl
length-paint_row zero l (x ∷ rows) = refl
length-paint_row (suc i) l (x ∷ rows) = ap suc (length-paint_row i l rows)

length-all_blank : (rows : List Text) → length (all_blank rows) ≡ length rows
unfolding all_blank
length-all_blank [] = refl
length-all_blank (x ∷ rows) = ap suc (length-all_blank rows)

-- The size stays, and whether a replay is shown.
abbrev pub SameSize : ShellModel → ShellModel → Type 0
SameSize m m' = (m'.h ≡ m.h) × (m'.w ≡ m.w) × (m'.quiet ≡ m.quiet)

-- What a write leaves of a terminal that it finds as `t`, and of the model `m`.
abbrev pub Wrote : ℕ → ShellModel → Terminal → ShellModel → Terminal → Type 0
Wrote r m t m' t' =
    (m'.tail ≡ m.tail)
    × (m'.clearing ≡ m.clearing)
    × SameSize m m'
    × (t'.scrollback ++ m'.pending ≡ t.scrollback ++ m.pending)
    × (length t'.rows ≡ length t.rows)
    × (t'.bottom ≡ none)
    × (2 ≤ r → m.pending ≢ [] → (m'.pending ≡ []) × (t'.rows ≡ tail_view r m.tail ++ drop r t.rows))

none_left-pending : (ls : List Text) → none_left ls ≡ true → ls ≡ []
unfolding none_left
none_left-pending [] e = refl
none_left-pending (l ∷ ls) e = absurd (cc)

first_only-Wrote :
    (chrome : ℕ) (m : ShellModel) (t : Terminal)
    → t.bottom ≡ none
    → (none_left m.pending || ltb (tail_rows chrome m) 2) ≡ true
    → Wrote (tail_rows chrome m) m t (first_only chrome m).1 (run_ops (first_only chrome m).0 t)
unfolding first_only run_ops run_op paint_at
first_only-Wrote chrome m t free e =
    if_cases (λ (w : List TermOp × ShellModel). Wrote (tail_rows chrome m) m t w.1 (run_ops w.0 t))
      (leb 1 (tail_rows chrome m))
      (paint 1 (first_row chrome m) ∷ [], record m { row1 = first_row chrome m }) ([], m)
      (λ _. (
        refl,
        refl,
        (refl, refl, refl),
        refl,
        length-paint_row 0 (first_row chrome m) t.rows,
        free,
        never,
      ))
      (λ _. (refl, refl, (refl, refl, refl), refl, refl, free, never))
  where
    never : {A : Type 0} → 2 ≤ tail_rows chrome m → m.pending ≢ [] → A
    never two full = elim (Bool-cases (none_left m.pending)) [
      | inl y ↦ absurd (full (none_left-pending m.pending y))
      | inr n ↦ absurd (ground arith)
    ]

scrolled-Wrote :
    (chrome : ℕ) (m : ShellModel) (t : Terminal)
    → m.h ≤ length t.rows
    → (none_left m.pending || ltb (tail_rows chrome m) 2) ≡ false
    → Wrote (tail_rows chrome m) m t (scrolled chrome m).1 (run_ops (scrolled chrome m).0 t)
unfolding scrolled remember_lines
scrolled-Wrote chrome m t fits e =
    let low : tail_rows chrome m ≤ m.h = unfold tail_rows in omega arith in
    let (rows, back, free, size) =
      round_ops-Scrolled (tail_rows chrome m) m.pending m.tail t (ground arith) (omega arith) in
    (refl, refl, (refl, refl, refl), append-nil _ ∙ back, size, free, (λ _ _. (refl, rows)))

after_clear-Wrote :
    (chrome : ℕ) (m : ShellModel) (t : Terminal)
    → t.bottom ≡ none
    → m.h ≤ length t.rows
    → Wrote (tail_rows chrome m) m t (after_clear chrome m).1 (run_ops (after_clear chrome m).0 t)
unfolding after_clear
after_clear-Wrote chrome m t free fits =
    if_cases (λ (w : List TermOp × ShellModel). Wrote (tail_rows chrome m) m t w.1 (run_ops w.0 t))
      (none_left m.pending || ltb (tail_rows chrome m) 2) (first_only chrome m) (scrolled chrome m)
      (first_only-Wrote chrome m t free) (scrolled-Wrote chrome m t fits)

-- The terminal after the clear that is owed to it.
abbrev pub owed : ShellModel → Terminal → Terminal
owed m t = if m.clearing then record t { rows = all_blank t.rows; scrollback = [] } else t

-- What `frameWrite` leaves, of a terminal that is `o` once the clear is done.
abbrev pub FrameWrote : ℕ → ShellModel → Terminal → Terminal → List TermOp × ShellModel → Type 0
FrameWrote r m t o w =
    let t' = run_ops w.0 t in
    (w.1.tail ≡ m.tail)
    × (w.1.clearing ≡ false)
    × SameSize m w.1
    × (t'.scrollback ++ w.1.pending ≡ o.scrollback ++ m.pending)
    × (length t'.rows ≡ length t.rows)
    × (t'.bottom ≡ none)
    × (2 ≤ r
        → m.pending ≢ []
        → (w.1.pending ≡ []) × (t'.rows ≡ tail_view r m.tail ++ drop r o.rows))

-- `frameWrite` behind the clear.
abbrev behind : ℕ → List TermOp × ShellModel → List TermOp × ShellModel
behind chrome c = let w = after_clear chrome c.1 in (c.0 ++ w.0, w.1)

pub frame_write-FrameWrote :
    (chrome : ℕ) (m : ShellModel) (t : Terminal)
    → t.bottom ≡ none
    → m.h ≤ length t.rows
    → FrameWrote (tail_rows chrome m) m t (owed m t) (frame_write chrome m)
unfolding frame_write cleared run_ops run_op tail_rows
frame_write-FrameWrote chrome m t free fits =
    let m0 : ShellModel = record m { clearing = false; hist_base = 0; pushed = 0; recent = [] } in
    let t0 : Terminal = record t { rows = all_blank t.rows; scrollback = [] } in
    let P = λ (c : List TermOp × ShellModel) (o : Terminal).
      FrameWrote (tail_rows chrome m) m t o (behind chrome c) in
    elim (Bool-cases m.clearing) [
      | inl y ↦
          let size = length-all_blank t.rows in
          let (a, b, c, d, e, f, g) = after_clear-Wrote chrome m0 t0 free (omega arith) in
          subst (λ o. P (cleared m) o) (sym (ap (λ (k : Bool). if k then t0 else t) y))
            (subst (λ c. P c t0)
              (sym (ap (λ (k : Bool). if k then (clear ∷ [], m0) else ([], m)) y))
              (a, b, c, d, e ∙ size, f, g))
      | inr n ↦
          let (a, b, c, d, e, f, g) = after_clear-Wrote chrome m t free fits in
          subst (λ o. P (cleared m) o) (sym (ap (λ (k : Bool). if k then t0 else t) n))
            (subst (λ c. P c t) (sym (ap (λ (k : Bool). if k then (clear ∷ [], m0) else ([], m)) n))
              (a, b ∙ n, c, d, e, f, g))
    ]
