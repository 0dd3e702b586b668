-- ===== src/Tests/ScreenTests.antt =====
-- internal/ui/frame.go and the history of internal/ui/handover.go at concrete inputs.
use vibepod.Base.{false, none, List, [], ◌∷◌, ◌++◌, ◌≡◌, refl, arith}
use vibepod.Base.{Text, codes, text_eq, nat_eq}
use vibepod.Strings.{split, split_from, trim_suffix}
use vibepod.Ui.History.{escape_hist}
use vibepod.Ui.Screen.{
  idle, ShellModel, rows_of, wrapped, at_least_one, print, blanks, latest, tail_view, first_of,
  tail_rows, first_row, none_left, overflow, has_terminal, is_aside, fit, remember_lines,
  push_lines, paint_rows, cleared, first_only, scrolled, after_clear, frame_write, Terminal,
  paint_row, paint_at, blank_behind, scroll_rows, scroll_up, feed_at, run_op, run_ops, ScreenOp,
  prints, fits, writes, screen_op, screen_ops, printed, lines_of, screen_ops-printed,
}

abbrev a_line : Text
a_line = codes "a"

abbrev model : ShellModel
model = record {
  w = 80;
  h = 5;
  ph = idle;
  quiet = false;
  quitting = false;
  tail = [];
  pending = [];
  clearing = false;
  realigning = false;
  hist_base = 0;
  pushed = 0;
  recent = [];
  row1 = [];
}

abbrev terminal : Terminal
terminal = record {
  rows = [] ∷ [] ∷ [] ∷ codes "+--" ∷ codes "> " ∷ [];
  bottom = none;
  scrollback = codes "$ vp shell" ∷ [];
}

-- Four lines over a box of two rows: one goes to the scrollback.
abbrev steps : List ScreenOp
steps =
    prints (codes "a" ++ 0x0a ∷ [])
    ∷ prints (codes "b")
    ∷ prints (codes "c" ++ 0x0a ∷ codes "d")
    ∷ fits 2
    ∷ writes 2
    ∷ []

three_lines_run : (screen_ops (λ l w. l) steps model terminal).1 ≡ record {
  rows = codes "b" ∷ codes "c" ∷ codes "d" ∷ codes "+--" ∷ codes "> " ∷ [];
  bottom = none;
  scrollback = codes "$ vp shell" ∷ a_line ∷ [];
}
unfolding screen_ops screen_op print rows_of wrapped at_least_one split split_from trim_suffix fit
    is_aside has_terminal overflow tail_rows first_row tail_view blanks latest first_of none_left
    frame_write cleared after_clear first_only scrolled remember_lines push_lines paint_rows run_ops
    run_op feed_at scroll_up scroll_rows blank_behind paint_at paint_row text_eq nat_eq
three_lines_run = refl

screen_ops-printed_example :
    lines_of
      (screen_ops (λ l w. l) steps model terminal).0
      (screen_ops (λ l w. l) steps model terminal).1
    ≡ printed (λ l w. l) 80 steps (lines_of model terminal)
screen_ops-printed_example =
    screen_ops-printed (λ l w. l) steps model terminal (refl, omega arith, refl)

-- A loop over two lines, and a path with a backslash.
abbrev entries : List Text
entries = (codes "for i; do" ++ 0x0a ∷ codes "echo") ∷ (b'\\' ∷ codes "n") ∷ []

escape_run : escape_hist (b'\\' ∷ codes "n") ≡ b'\\' ∷ b'\\' ∷ codes "n"
unfolding escape_hist nat_eq
escape_run = refl
