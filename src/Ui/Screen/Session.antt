-- ===== src/Ui/Screen/Session.antt =====
-- internal/ui/frame.go: what was printed is on the screen or in the scrollback, once and in order.
use vibepod.Base.{ℕ, Bool, true, false, ◌&&◌, none, List, [], ◌∷◌, ◌++◌, ◌-◌, ◌≤◌, append_assoc}
use vibepod.Base.{◌≡◌, refl, sym, ap, ◌∙◌, arith, if_cases}
use mathlib.Core.Path.{subst}
use vibepod.Base.{Text, if◌then◌else◌, length, take, drop, take-append-drop, ltb, leb}
use vibepod.Ui.Screen.Defs.{
  ShellModel, rows_of, print, tail_rows, overflow, is_aside, fit, clear_terminal, frame_write,
}
use vibepod.Ui.Screen.Device.{Terminal, all_blank, run_ops}
use vibepod.Ui.Screen.Laws.{SameSize, owed, frame_write-FrameWrote}

-- What happens to the screen above the box; a box has its height anew each time.
pub data ScreenOp : Type 0 where
  prints : Text → ScreenOp
  fits : ℕ → ScreenOp
  writes : ℕ → ScreenOp
  clears : ScreenOp

module _ (hardwrap : Text → ℕ → Text) where
  unfoldable pub screen_op : ScreenOp → ShellModel → Terminal → ShellModel × Terminal
  unfolding print fit clear_terminal frame_write run_ops
  screen_op (prints s) m t = (print hardwrap s m, t)
  screen_op (fits chrome) m t = ((fit chrome m).1, t)
  screen_op (writes chrome) m t = let w = frame_write chrome m in (w.1, run_ops w.0 t)
  screen_op clears m t = (clear_terminal m, t)

  unfoldable pub screen_ops : List ScreenOp → ShellModel → Terminal → ShellModel × Terminal
  unfolding screen_op
  screen_ops [] m t = (m, t)
  screen_ops (o ∷ os) m t = let s = screen_op o m t in screen_ops os s.0 s.1

  -- The lines since the last clear, at a width, where none of it is a replay.
  unfoldable pub printed : ℕ → List ScreenOp → List Text → List Text
  unfolding rows_of
  printed w [] ls = ls
  printed w (prints s ∷ os) ls = printed w os (ls ++ rows_of hardwrap w s)
  printed w (fits chrome ∷ os) ls = printed w os ls
  printed w (writes chrome ∷ os) ls = printed w os ls
  printed w (clears ∷ os) ls = printed w os []

-- All lines, from the oldest in the scrollback to the latest on the screen.
abbrev pub lines_of : ShellModel → Terminal → List Text
lines_of m t = (owed m t).scrollback ++ (m.pending ++ m.tail)

-- The terminal is as high as the model has it, and no scroll region is left in it.
abbrev pub Fits : ShellModel → Terminal → Type 0
Fits m t = (t.bottom ≡ none) × (m.h ≤ length t.rows) × (m.quiet ≡ false)

overflow-lines :
    (r : ℕ) (m : ShellModel)
    → ((overflow r m).pending ++ (overflow r m).tail ≡ m.pending ++ m.tail)
      × ((overflow r m).clearing ≡ m.clearing)
      × SameSize m (overflow r m)
unfolding overflow
overflow-lines r m =
    if_cases
      (λ m'.
        (m'.pending ++ m'.tail ≡ m.pending ++ m.tail) × (m'.clearing ≡ m.clearing) × SameSize m m')
      (leb 1 r && ltb r (length m.tail)) _ m
      (λ _. (
        append_assoc m.pending (take (length m.tail - r) m.tail) (drop (length m.tail - r) m.tail)
            ∙ ap (λ q. m.pending ++ q) (take-append-drop (length m.tail - r) m.tail),
        refl,
        (refl, refl, refl),
      ))
      (λ _. (refl, refl, (refl, refl, refl)))

owed-clearing :
    (m m' : ShellModel) (t : Terminal)
    → m'.clearing ≡ m.clearing
    → (owed m' t).scrollback ≡ (owed m t).scrollback
owed-clearing m m' t e =
    ap
      (λ (k : Bool).
        (if k then record t { rows = all_blank t.rows; scrollback = [] } else t).scrollback)
      e

-- What a step leaves, of which `ls` are the lines.
abbrev Left : ShellModel → List Text → ShellModel × Terminal → Type 0
Left m ls s = Fits s.0 s.1 × (s.0.w ≡ m.w) × (lines_of s.0 s.1 ≡ ls)

fit-Left :
    (chrome : ℕ) (m : ShellModel) (t : Terminal)
    → Fits m t
    → Left m (lines_of m t) ((fit chrome m).1, t)
unfolding fit
fit-Left chrome m t (free, high, shown) =
    if_cases (λ (r : Bool × ShellModel). Left m (lines_of m t) (r.1, t)) (is_aside m) (false, m) _
      (λ _. ((free, high, shown), refl, refl))
      (λ _.
        let m' = overflow (tail_rows chrome m) m in
        let (ls, c, (eh, ew, eq)) = overflow-lines (tail_rows chrome m) m in
        (
          (free, subst (λ h. h ≤ length t.rows) (sym eh) high, eq ∙ shown),
          ew,
          ap (λ q. q ++ (m'.pending ++ m'.tail)) (owed-clearing m m' t c)
              ∙ ap (λ q. (owed m t).scrollback ++ q) ls,
        ))

write-Left :
    (chrome : ℕ) (m : ShellModel) (t : Terminal)
    → Fits m t
    → Left m (lines_of m t) ((frame_write chrome m).1, run_ops (frame_write chrome m).0 t)
write-Left chrome m t (free, high, shown) =
    let w = frame_write chrome m in
    let t' = run_ops w.0 t in
    let (a, b, (eh, ew, eq), d, e, f, g) = frame_write-FrameWrote chrome m t free high in
    (
      (f, omega arith, eq ∙ shown),
      ew,
      ap
            (λ (k : Bool).
              (if k then record t' { rows = all_blank t'.rows; scrollback = [] } else t').scrollback
              ++ (w.1.pending ++ w.1.tail))
            b
          ∙ sym (append_assoc t'.scrollback w.1.pending w.1.tail)
          ∙ ap (λ q. q ++ w.1.tail) d
          ∙ ap (λ q. ((owed m t).scrollback ++ m.pending) ++ q) a
          ∙ append_assoc (owed m t).scrollback m.pending m.tail,
    )

shown_not : {b : Bool} → b ≡ false → b ≡ true → ⊥
shown_not e y = absurd (ground arith)

module _ (hardwrap : Text → ℕ → Text) where
  print-Left :
      (s : Text) (m : ShellModel) (t : Terminal)
      → Fits m t
      → Left m (lines_of m t ++ rows_of hardwrap m.w s) (print hardwrap s m, t)
  unfolding print
  print-Left s m t (free, high, shown) =
      if_cases (λ m'. Left m (lines_of m t ++ rows_of hardwrap m.w s) (m', t)) m.quiet m _
        (λ y. absurd (shown_not shown y))
        (λ _. (
          (free, high, shown),
          refl,
          ap (λ q. (owed m t).scrollback ++ q)
                (sym (append_assoc m.pending m.tail (rows_of hardwrap m.w s)))
              ∙ sym (
                  append_assoc (owed m t).scrollback (m.pending ++ m.tail)
                    (rows_of hardwrap m.w s)),
        ))

  clear-Left : (m : ShellModel) (t : Terminal) → Fits m t → Left m [] (clear_terminal m, t)
  unfolding clear_terminal
  clear-Left m t (free, high, shown) =
      if_cases (λ m'. Left m [] (m', t)) m.quiet m _ (λ y. absurd (shown_not shown y))
        (λ _. ((free, high, shown), refl, refl))

  -- The lines after some steps, by the width.
  abbrev Lines : List ScreenOp → ℕ → ShellModel → Terminal → List Text → Type 0
  Lines os w m t ls =
      lines_of (screen_ops hardwrap os m t).0 (screen_ops hardwrap os m t).1
      ≡ printed hardwrap w os ls

  screen_run :
      (os : List ScreenOp) (w : ℕ) (m : ShellModel) (t : Terminal)
      → Fits m t
      → m.w ≡ w
      → Lines os w m t (lines_of m t)
  unfolding screen_ops screen_op printed
  screen_run [] w m t f e = refl
  screen_run (prints s ∷ os) w m t f e =
      let (f', ew, el) = print-Left s m t f in
      screen_run os w (print hardwrap s m) t f' (ew ∙ e)
      ∙ ap (printed hardwrap w os) (el ∙ ap (λ v. lines_of m t ++ rows_of hardwrap v s) e)
  screen_run (fits chrome ∷ os) w m t f e =
      let (f', ew, el) = fit-Left chrome m t f in
      screen_run os w (fit chrome m).1 t f' (ew ∙ e) ∙ ap (printed hardwrap w os) el
  screen_run (writes chrome ∷ os) w m t f e =
      let (f', ew, el) = write-Left chrome m t f in
      screen_run os w (frame_write chrome m).1 (run_ops (frame_write chrome m).0 t) f' (ew ∙ e)
      ∙ ap (printed hardwrap w os) el
  screen_run (clears ∷ os) w m t f e =
      let (f', ew, el) = clear-Left m t f in
      screen_run os w (clear_terminal m) t f' (ew ∙ e) ∙ ap (printed hardwrap w os) el

  -- From any screen on which no replay is shown, with a terminal of its height: the lines in the
  -- terminal's scrollback, those that wait to be written there, and those on the screen above the
  -- box are together the lines there were and all lines printed since, in order, each once; or,
  -- after a clear, just those printed since the last one. So it is whenever the box changes
  -- its height, and whenever lines are made to fit and written.
  pub screen_ops-printed :
      (os : List ScreenOp) (m : ShellModel) (t : Terminal)
      → Fits m t
      → lines_of (screen_ops hardwrap os m t).0 (screen_ops hardwrap os m t).1
        ≡ printed hardwrap m.w os (lines_of m t)
  screen_ops-printed os m t f = screen_run os m.w m t f refl
