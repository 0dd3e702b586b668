-- ===== src/Ui/Screen/Device.antt =====
-- A terminal, as far as the interface's writes above its box go. It is independent of the program: a line
-- feed on the last row of a scroll region that begins at the first row moves that row to the scrollback.
use vibepod.Base.{
  ℕ, zero, suc, Option, none, some, List, [], ◌∷◌, ◌++◌, Text, ◌==◌, if◌then◌else◌, nat_eq, length,
}
use vibepod.Ui.Screen.Defs.{TermOp, clear, region, whole, paint, newline_at}

pub record Terminal : Type 0 where
  pub rows : List Text
  pub bottom : Option ℕ
  pub scrollback : List Text

unfoldable pub paint_row : ℕ → Text → List Text → List Text
paint_row i l [] = []
paint_row zero l (x ∷ rows) = l ∷ rows
paint_row (suc i) l (x ∷ rows) = x ∷ paint_row i l rows

-- The row `i`, counted from 1, becomes `l`.
unfoldable pub paint_at : ℕ → Text → List Text → List Text
unfolding paint_row
paint_at zero l rows = rows
paint_at (suc i) l rows = paint_row i l rows

-- A blank row is put behind the first `n`.
unfoldable pub blank_behind : ℕ → List Text → List Text
blank_behind zero rows = [] ∷ rows
blank_behind (suc n) [] = []
blank_behind (suc n) (x ∷ rows) = x ∷ blank_behind n rows

unfoldable pub scroll_rows : ℕ → List Text → Terminal → Terminal
unfolding blank_behind
scroll_rows n [] t = t
scroll_rows n (x ∷ rows) t = record t {
  rows = blank_behind n rows;
  scrollback = t.scrollback ++ x ∷ [];
}

-- The region of the first rows up to `r` goes up by one.
unfoldable pub scroll_up : ℕ → Terminal → Terminal
unfolding scroll_rows
scroll_up zero t = t
scroll_up (suc n) t = scroll_rows n t.rows t

-- A line feed on the row `r` scrolls just if that is the last one of the region, or of the screen.
unfoldable pub feed_at : ℕ → Option ℕ → Terminal → Terminal
unfolding scroll_up
feed_at r none t = if r == length t.rows then scroll_up r t else t
feed_at r (some b) t = if r == b then scroll_up r t else t

unfoldable pub all_blank : List Text → List Text
all_blank [] = []
all_blank (x ∷ rows) = [] ∷ all_blank rows

unfoldable pub run_op : TermOp → Terminal → Terminal
unfolding paint_at feed_at all_blank
run_op clear t = record t { rows = all_blank t.rows; scrollback = [] }
run_op (region r) t = record t { bottom = some r }
run_op whole t = record t { bottom = none }
run_op (paint i l) t = record t { rows = paint_at i l t.rows }
run_op (newline_at r) t = feed_at r t.bottom t

unfoldable pub run_ops : List TermOp → Terminal → Terminal
unfolding run_op
run_ops [] t = t
run_ops (o ∷ os) t = run_ops os (run_op o t)
