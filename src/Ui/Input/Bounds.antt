-- ===== src/Ui/Input/Bounds.antt =====
-- internal/ui/commands.go: the slices of `wordAtCursor` and `replaceWord` are within the line, and the commands
-- find the arguments that they look at.
use vibepod.Base.{ℕ, Bool, true, not, ◌&&◌, Option, none, some, List, [], ◌∷◌, ◌≤◌, min}
use vibepod.Base.{◌≡◌, refl, arith, if_cases, All}
use vibepod.Base.{Text, ◌==◌, text_eq, nat_eq, length, take, drop, ltb, leb}
use vibepod.Ui.Input.Defs.{
  Line, SlashCmd, slash_cmds, find_slash_in, find_slash, with_args, slash_fields, slash_line, slice,
  word_at_cursor, spliced, replace_word, accept_completion, byte_length, common_prefix,
}
use vibepod.Ui.Input.Area.{
  TextArea, put_back, on_line_at, on_line, word_in, area_word, area_accept, area_grown, area_shared,
}
use vibepod.Ui.Input.PromptKeys.{use_machine, run_slash, act_of}

-- A result that is no panic.
abbrev pub IsThere {ℓ} : {A : Type ℓ} → Option A → Type 0
IsThere none = ⊥
IsThere (some a) = Unit

pub slice_within :
    (s : Text) (a b : ℕ) → a ≤ b → b ≤ length s → slice s a b ≡ some (drop a (take b s))
unfolding slice
slice_within s a b le within =
    let t : (leb a b && leb b (length s)) ≡ true = ground arith in rw t refl

pub word_at_cursor-IsThere : (from : ℕ) (l : Line) → IsThere (word_at_cursor from l)
unfolding word_at_cursor
word_at_cursor-IsThere from l =
    let col = min l.col (length l.runes) in
    if_cases IsThere (ltb col from) _ _ (λ _. tt)
      (λ n. rw (slice_within l.runes from col (ground arith) (omega arith)) tt)

pub replace_word-IsThere : (from : ℕ) (word : Text) (l : Line) → IsThere (replace_word from word l)
unfolding replace_word spliced
replace_word-IsThere from word l =
    let col = min l.col (length l.runes) in
    rw
      (
        slice_within l.runes 0 (min from col) (omega arith) (omega arith),
        slice_within l.runes col (length l.runes) (omega arith) (omega arith),
      )
      tt

accept_completion-IsThere :
    (word : Text) (from : ℕ) (l : Line) → IsThere (accept_completion word from l)
unfolding accept_completion
accept_completion-IsThere word from l = replace_word-IsThere from _ l

module _ {A : Type 0} (area : TextArea A) where
  put_back-IsThere :
      (ls : List Text) (row : ℕ) (a : A) (o : Option Line)
      → IsThere o
      → IsThere (put_back area ls row a o)
  unfolding put_back
  put_back-IsThere ls row a none h = h
  put_back-IsThere ls row a (some l) h = tt

  on_line_at-IsThere :
      (ls : List Text) (f : Line → Option Line) (a : A) (o : Option Text)
      → ((l : Line) → IsThere (f l))
      → IsThere (on_line_at area ls f a o)
  unfolding on_line_at
  on_line_at-IsThere ls f a none h = tt
  on_line_at-IsThere ls f a (some runes) h = put_back-IsThere ls (area.row a) a _ (h _)

  on_line-IsThere :
      (f : Line → Option Line) (a : A) → ((l : Line) → IsThere (f l)) → IsThere (on_line area f a)
  unfolding on_line
  on_line-IsThere f a h = on_line_at-IsThere _ f a _ h

  word_in-IsThere : (from : ℕ) (a : A) (o : Option Text) → IsThere (word_in area from a o)
  unfolding word_in
  word_in-IsThere from a none = tt
  word_in-IsThere from a (some runes) = word_at_cursor-IsThere from _

  pub area_accept-IsThere :
      (word : Text) (from : ℕ) (a : A) → IsThere (area_accept area word from a)
  unfolding area_accept
  area_accept-IsThere word from a = on_line-IsThere _ a (accept_completion-IsThere word from)

  area_grown-IsThere :
      (from : ℕ) (p : Text) (a : A) (o : Option Text)
      → IsThere o
      → IsThere (area_grown area from p a o)
  unfolding area_grown
  area_grown-IsThere from p a none h = h
  area_grown-IsThere from p a (some cur) h =
      if_cases IsThere (ltb (byte_length cur) (byte_length p)) _ _
        (λ _. on_line-IsThere _ a (replace_word-IsThere from p)) (λ _. tt)

  pub area_shared-IsThere :
      (from : ℕ) (words : List Text) (a : A) → IsThere (area_shared area from words a)
  unfolding area_shared area_word
  area_shared-IsThere from words a =
      area_grown-IsThere from (common_prefix words) a _ (word_in-IsThere from a _)

-- A command that is known runs, whatever its arguments.
run_slash-IsThere : (args : List Text) → All (λ c. IsThere (run_slash c args)) slash_cmds
unfolding run_slash use_machine text_eq nat_eq
run_slash-IsThere [] = (tt, (tt, (tt, (tt, (tt, (tt, tt))))))
run_slash-IsThere (a ∷ args) = (tt, (tt, (tt, (tt, (tt, (tt, tt))))))

found_runs :
    (line name : Text) (args : List Text) (cs : List SlashCmd)
    → All (λ c. IsThere (run_slash c args)) cs
    → IsThere (act_of line (with_args args (find_slash_in cs name)))
unfolding find_slash_in with_args act_of
found_runs line name args [] h = tt
found_runs line name args (c ∷ cs) (hc, h) =
    if_cases (λ o. IsThere (act_of line (with_args args o))) (c.name == name) _ _ (λ _. hc)
      (λ _. found_runs line name args cs h)

fields_run :
    (line : Text) (slashed : Bool) (fs : List Text)
    → IsThere (act_of line (slash_fields slashed fs))
unfolding slash_fields act_of find_slash
fields_run line slashed [] = tt
fields_run line slashed (f ∷ fs) =
    if_cases (λ o. IsThere (act_of line o)) (not slashed) _ _ (λ _. tt)
      (λ _. found_runs line _ fs slash_cmds (run_slash-IsThere fs))

pub act_of-IsThere : (line : Text) → IsThere (act_of line (slash_line line))
unfolding slash_line
act_of-IsThere line = fields_run line _ _
