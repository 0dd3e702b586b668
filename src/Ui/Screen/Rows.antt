-- ===== src/Ui/Screen/Rows.antt =====
-- internal/ui/frame.go: what the writes above the box do to a terminal.
use vibepod.Base.{ℕ, zero, suc, none, some, List, [], ◌∷◌, ◌++◌, ◌-◌, ◌≤◌, append_assoc, append-nil}
use vibepod.Base.{◌≡◌, refl, sym, ap, ◌∙◌, arith, if_cases}
use vibepod.Base.{Text, ==_self, nat_eq, length, drop, length-append, length-drop, ltb}
use vibepod.Ui.Screen.Defs.{
  TermOp, region, whole, paint, newline_at, push_lines, paint_rows, blanks, latest, tail_view,
}
use vibepod.Ui.Screen.Device.{
  Terminal, paint_row, paint_at, blank_behind, scroll_rows, scroll_up, feed_at, run_op, run_ops,
}

pub run_ops-append :
    (os ps : List TermOp) (t : Terminal) → run_ops (os ++ ps) t ≡ run_ops ps (run_ops os t)
unfolding run_ops
run_ops-append [] ps t = refl
run_ops-append (o ∷ os) ps t = run_ops-append os ps (run_op o t)

length-blank_behind :
    (n : ℕ) (rows : List Text) → n ≤ length rows → length (blank_behind n rows) ≡ suc (length rows)
unfolding blank_behind
length-blank_behind zero rows h = refl
length-blank_behind (suc n) [] h = absurd (omega arith)
length-blank_behind (suc n) (x ∷ rows) h = ap suc (length-blank_behind n rows (omega arith))

drop-blank_behind :
    (n : ℕ) (rows : List Text) → n ≤ length rows → drop (suc n) (blank_behind n rows) ≡ drop n rows
unfolding blank_behind
drop-blank_behind zero rows h = refl
drop-blank_behind (suc n) [] h = absurd (omega arith)
drop-blank_behind (suc n) (x ∷ rows) h = drop-blank_behind n rows (omega arith)

-- Lines pushed through the top of a region are in the scrollback; below the region nothing moves.
abbrev pub Pushed : ℕ → List Text → Terminal → Terminal → Type 0
Pushed r ls t t' =
    (t'.scrollback ≡ t.scrollback ++ ls)
    × (t'.bottom ≡ t.bottom)
    × (length t'.rows ≡ length t.rows)
    × (drop r t'.rows ≡ drop r t.rows)

fed_rows :
    (n : ℕ) (l : Text) (rows : List Text) (t : Terminal)
    → t.bottom ≡ some (suc n)
    → suc n ≤ length rows
    → Pushed
        (suc n)
        (l ∷ [])
        (record t { rows = rows })
        (feed_at (suc n) t.bottom (record t { rows = paint_row 0 l rows }))
unfolding feed_at scroll_up scroll_rows paint_row
fed_rows n l [] t e fits = absurd (omega arith)
fed_rows n l (x ∷ rows) t e fits =
    rw (e, ==_self (suc n))
      (refl, refl, length-blank_behind n rows (omega arith), drop-blank_behind n rows (omega arith))

push_one :
    (n : ℕ) (l : Text) (t : Terminal)
    → t.bottom ≡ some (suc n)
    → suc n ≤ length t.rows
    → Pushed (suc n) (l ∷ []) t (run_op (newline_at (suc n)) (run_op (paint 1 l) t))
unfolding run_op paint_at
push_one n l t e fits = fed_rows n l t.rows t e fits

pub push_lines-Pushed :
    (n : ℕ) (ls : List Text) (t : Terminal)
    → t.bottom ≡ some (suc n)
    → suc n ≤ length t.rows
    → Pushed (suc n) ls t (run_ops (push_lines (suc n) ls) t)
unfolding run_ops push_lines
push_lines-Pushed n [] t e fits = (sym (append-nil t.scrollback), refl, refl, refl)
push_lines-Pushed n (l ∷ ls) t e fits =
    let t' = run_op (newline_at (suc n)) (run_op (paint 1 l) t) in
    let (s, b, len, d) = push_one n l t e fits in
    let (s', b', len', d') = push_lines-Pushed n ls t' (b ∙ e) (omega arith) in
    (s' ∙ ap (λ q. q ++ ls) s ∙ append_assoc t.scrollback (l ∷ []) ls, b' ∙ b, len' ∙ len, d' ∙ d)

paint_row-append :
    (above : List Text) (l x : Text) (below : List Text)
    → paint_row (length above) l (above ++ (x ∷ below)) ≡ above ++ (l ∷ below)
unfolding paint_row
paint_row-append [] l x below = refl
paint_row-append (y ∷ above) l x below = ap (λ q. y ∷ q) (paint_row-append above l x below)

paint_rows-append :
    (ls above below : List Text) (t : Terminal)
    → length ls ≤ length below
    → t.rows ≡ above ++ below
    → run_ops (paint_rows (length above) ls) t
      ≡ record t { rows = above ++ (ls ++ drop (length ls) below) }
unfolding run_ops paint_rows run_op paint_at
paint_rows-append [] above below t fits e = ap (λ rows. record t { rows = rows }) e
paint_rows-append (l ∷ ls) above [] t fits e = absurd (omega arith)
paint_rows-append (l ∷ ls) above (x ∷ below) t fits e =
    let t' : Terminal = record t { rows = above ++ (l ∷ below) } in
    let first : run_op (paint (suc (length above)) l) t ≡ t' =
      ap (λ rows. record t { rows = paint_row (length above) l rows }) e
      ∙ ap (λ rows. record t { rows = rows }) (paint_row-append above l x below) in
    let more =
      paint_rows-append ls (above ++ l ∷ []) below t' (omega arith)
        (sym (append_assoc above (l ∷ []) below)) in
    let place : length (above ++ l ∷ []) ≡ suc (length above) =
      omega (arith, length-append above (l ∷ [])) in
    ap (run_ops (paint_rows (suc (length above)) ls)) first
    ∙ ap (λ n. run_ops (paint_rows n ls) t') (sym place)
    ∙ more
    ∙ ap (λ rows. record t { rows = rows })
        (append_assoc above (l ∷ []) (ls ++ drop (length ls) below))

length-blanks : (n : ℕ) → length (blanks n) ≡ n
unfolding blanks
length-blanks zero = refl
length-blanks (suc n) = ap suc (length-blanks n)

length-latest : (r : ℕ) (ls : List Text) → length (latest r ls) ≤ r
unfolding latest
length-latest r ls =
    if_cases (λ q. length q ≤ r) (ltb r (length ls)) (drop (length ls - r) ls) ls
      (λ y. let d = length-drop (length ls - r) ls in ground arith) (λ n. ground arith)

-- The rows above the box are as many as there is room for.
pub length-tail_view : (r : ℕ) (ls : List Text) → length (tail_view r ls) ≡ r
unfolding tail_view
length-tail_view zero ls = refl
length-tail_view (suc r) ls =
    let short = length-latest (suc r) ls in
    let sum = length-append (blanks (suc r - length (latest (suc r) ls))) (latest (suc r) ls) in
    let pad = length-blanks (suc r - length (latest (suc r) ls)) in omega arith

-- What the writes of a round leave: the lines in the scrollback, the latest output on the rows above the
-- box, and the rows of the box as they were.
abbrev pub Scrolled : ℕ → List Text → List Text → Terminal → Terminal → Type 0
Scrolled r ls tail t t' =
    (t'.rows ≡ tail_view r tail ++ drop r t.rows)
    × (t'.scrollback ≡ t.scrollback ++ ls)
    × (t'.bottom ≡ none)
    × (length t'.rows ≡ length t.rows)

abbrev pub round_ops : ℕ → List Text → List Text → List TermOp
round_ops r ls tail = region r ∷ (push_lines r ls ++ (whole ∷ paint_rows 0 (tail_view r tail)))

pub round_ops-Scrolled :
    (r : ℕ) (ls tail : List Text) (t : Terminal)
    → 1 ≤ r
    → r ≤ length t.rows
    → Scrolled r ls tail t (run_ops (round_ops r ls tail) t)
unfolding run_ops run_op
round_ops-Scrolled zero ls tail t one fits = absurd (omega arith)
round_ops-Scrolled (suc n) ls tail t one fits =
    let t1 : Terminal = record t { bottom = some (suc n) } in
    let t2 = run_ops (push_lines (suc n) ls) t1 in
    let t3 : Terminal = record t2 { bottom = none } in
    let (s, b, len, d) = push_lines-Pushed n ls t1 refl fits in
    let view = tail_view (suc n) tail in
    let size = length-tail_view (suc n) tail in
    let painted = paint_rows-append view [] t3.rows t3 (omega arith) refl in
    let all = run_ops-append (push_lines (suc n) ls) (whole ∷ paint_rows 0 view) t1 ∙ painted in
    let rows_eq : view ++ drop (length view) t2.rows ≡ view ++ drop (suc n) t.rows =
      ap (λ k. view ++ drop k t2.rows) size ∙ ap (λ q. view ++ q) d in
    let low = length-drop (suc n) t.rows in
    rw all
      (rows_eq, s, refl, ap length rows_eq ∙ length-append view (drop (suc n) t.rows) ∙ omega arith)
