-- ===== src/Ui/Screen/Defs.antt =====
-- internal/ui/frame.go: `print`, `fit`, `firstRow`, `clearTerminal`, `frameWrite`, `tailView` and `remember`.
-- `chrome` is the number of rows that the box and the running block take.
use vibepod.Base.{ℕ, zero, suc, Bool, true, false, not, ◌&&◌, ◌||◌, List, [], ◌∷◌, ◌++◌, ◌+◌, ◌-◌}
use vibepod.Base.{Text, ◌==◌, if◌then◌else◌, nat_eq, text_eq, length, take, drop, ltb, leb}
use vibepod.Strings.{split, trim_suffix}

-- The phases of the interface, `phBoot` to `phRaw`.
pub data Phase : Type 0 where
  boot idle sent run hand raw : Phase

unfoldable pub has_terminal : Phase → Bool
has_terminal hand = true
has_terminal raw = true
has_terminal _ = false

-- What of `shellModel` the screen above the box depends on.
pub record ShellModel : Type 0 where
  pub w : ℕ
  pub h : ℕ
  pub ph : Phase
  pub quiet : Bool
  pub quitting : Bool
  pub tail : List Text
  pub pending : List Text
  pub clearing : Bool
  pub realigning : Bool
  pub hist_base : ℕ
  pub pushed : ℕ
  pub recent : List Text
  pub row1 : Text

-- The rows that lines take; `hardwrap` is `ansi.Hardwrap` of a line at a width.
unfoldable pub wrapped : (Text → ℕ → Text) → ℕ → List Text → List Text
wrapped hardwrap w [] = []
wrapped hardwrap w (l ∷ ls) = split (hardwrap l w) 0x0a ++ wrapped hardwrap w ls

unfoldable pub at_least_one : ℕ → ℕ
at_least_one zero = 1
at_least_one (suc n) = suc n

unfoldable pub rows_of : (Text → ℕ → Text) → ℕ → Text → List Text
unfolding wrapped at_least_one
rows_of hardwrap w s = wrapped hardwrap (at_least_one w) (split (trim_suffix s 0x0a) 0x0a)

-- `print`
unfoldable pub print : (Text → ℕ → Text) → Text → ShellModel → ShellModel
unfolding rows_of
print hardwrap s m = if m.quiet then m else record m { tail = m.tail ++ rows_of hardwrap m.w s }

unfoldable pub blanks : ℕ → List Text
blanks zero = []
blanks (suc n) = [] ∷ blanks n

unfoldable pub latest : ℕ → List Text → List Text
latest r t = if ltb r (length t) then drop (length t - r) t else t

-- `tailView`
unfoldable pub tail_view : ℕ → List Text → List Text
unfolding blanks latest
tail_view zero t = []
tail_view (suc r) t = let seen = latest (suc r) t in blanks (suc r - length seen) ++ seen

unfoldable pub first_of : List Text → Text
first_of [] = []
first_of (l ∷ ls) = l

-- `tailRows`, 0 where it is negative, and `firstRow`
unfoldable pub tail_rows : ℕ → ShellModel → ℕ
tail_rows chrome m = m.h - chrome

unfoldable pub first_row : ℕ → ShellModel → Text
unfolding first_of tail_rows tail_view
first_row chrome m = first_of (tail_view (tail_rows chrome m) m.tail)

unfoldable pub none_left : List Text → Bool
none_left [] = true
none_left (l ∷ ls) = false

unfoldable pub overflow : ℕ → ShellModel → ShellModel
overflow r m =
    if leb 1 r && ltb r (length m.tail)
    then record m {
      pending = m.pending ++ take (length m.tail - r) m.tail;
      tail = drop (length m.tail - r) m.tail;
    }
    else m

unfoldable pub is_aside : ShellModel → Bool
unfolding has_terminal
is_aside m = m.w == 0 || m.h == 0 || has_terminal m.ph || m.quitting || m.realigning

-- `fit`, with whether a `frameWrite` is asked for.
unfoldable pub fit : ℕ → ShellModel → Bool × ShellModel
unfolding is_aside overflow tail_rows first_row none_left
fit chrome m =
    if is_aside m
    then (false, m)
    else (let m' = overflow (tail_rows chrome m) m in
        (not (none_left m'.pending && not m'.clearing && first_row chrome m' == m'.row1), m'))

-- `clearTerminal`
unfoldable pub clear_terminal : ShellModel → ShellModel
clear_terminal m = if m.quiet then m else record m { tail = []; pending = []; clearing = true }

-- `remember`
unfoldable pub remember_lines : List Text → ShellModel → ShellModel
remember_lines lines m =
    let recent = m.recent ++ lines in
    record m {
      recent = if ltb 256 (length recent) then drop (length recent - 256) recent else recent;
    }

-- What `frameWrite` sends to the terminal: to clear screen and scrollback (clearSeq, the cursor saved and
-- restored), to make the rows from the first to one a scroll region and to end that, to write a
-- line over a row, and to go to the last row of the region and send a newline.
pub data TermOp : Type 0 where
  clear : TermOp
  region : ℕ → TermOp
  whole : TermOp
  paint : ℕ → Text → TermOp
  newline_at : ℕ → TermOp

unfoldable pub push_lines : ℕ → List Text → List TermOp
push_lines r [] = []
push_lines r (l ∷ ls) = paint 1 l ∷ newline_at r ∷ push_lines r ls

unfoldable pub paint_rows : ℕ → List Text → List TermOp
paint_rows i [] = []
paint_rows i (l ∷ ls) = paint (suc i) l ∷ paint_rows (suc i) ls

unfoldable pub cleared : ShellModel → List TermOp × ShellModel
cleared m =
    if m.clearing
    then (clear ∷ [], record m { clearing = false; hist_base = 0; pushed = 0; recent = [] })
    else ([], m)

unfoldable pub first_only : ℕ → ShellModel → List TermOp × ShellModel
unfolding first_row tail_rows
first_only chrome m =
    if leb 1 (tail_rows chrome m)
    then (paint 1 (first_row chrome m) ∷ [], record m { row1 = first_row chrome m })
    else ([], m)

unfoldable pub scrolled : ℕ → ShellModel → List TermOp × ShellModel
unfolding push_lines paint_rows remember_lines first_row tail_rows tail_view
scrolled chrome m =
    let r = tail_rows chrome m in
    let m' = record (remember_lines m.pending m) {
      pushed = m.pushed + length m.pending;
      pending = [];
    } in
    (
      region r ∷ (push_lines r m.pending ++ (whole ∷ paint_rows 0 (tail_view r m.tail))),
      record m' { row1 = first_row chrome m' },
    )

unfoldable pub after_clear : ℕ → ShellModel → List TermOp × ShellModel
unfolding first_only scrolled none_left
after_clear chrome m =
    if none_left m.pending || ltb (tail_rows chrome m) 2
    then first_only chrome m
    else scrolled chrome m

-- `frameWrite`
unfoldable pub frame_write : ℕ → ShellModel → List TermOp × ShellModel
unfolding cleared after_clear
frame_write chrome m = let c = cleared m in let w = after_clear chrome c.1 in (c.0 ++ w.0, w.1)
