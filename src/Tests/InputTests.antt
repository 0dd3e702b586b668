-- ===== src/Tests/InputTests.antt =====
-- The prompt of internal/ui/commands.go and internal/ui/shell.go at concrete inputs.
use vibepod.Base.{true, false, ◌||◌, none, some, List, [], ◌∷◌, ◌≡◌, refl, In, All, All-In}
use vibepod.Base.{Text, codes, text_eq, nat_eq, length, contains}
use vibepod.Strings.{has_prefix}
use vibepod.Remote.{words, is_plain, is_letter, is_digit}
use vibepod.Ui.Input.{
  TextArea, MenuItem, Prompt, up, tab, enter, other, Happening, pressed, answered, completed,
  line_at, IsCommonPrefix, shell_word, has_escaped_space, special, completed-line_at,
  words-shell_word, sel_up,
}

-- A text area of one row, whose cursor stands at its end.
abbrev area : TextArea Text
area = record {
  value = λ a. a;
  row = λ _. 0;
  column = length;
  rows = λ _. 1;
  set_value = λ l _. l;
  reset = λ _. [];
  to_begin = λ a. a;
  cursor_down = λ a. a;
  set_column = λ _ a. a;
  update = λ k a. k;
}

abbrev prompt : Prompt Text
prompt = record {
  input = codes "ls";
  menu = none;
  menu_dismissed = false;
  hist = codes "pwd" ∷ [];
  hist_at = 1;
  draft = [];
}

abbrev item : Text → MenuItem
item w = record { word = w; label = []; desc = [] }

abbrev happenings : List (Happening area)
happenings =
    answered 0 (item (codes "lsof") ∷ item (codes "lsblk") ∷ item (codes "lspci") ∷ [])
    ∷ pressed up
    ∷ pressed enter
    ∷ pressed (other (codes "/u"))
    ∷ pressed tab
    ∷ []

-- Up in a menu of three completions with nothing chosen: the second is chosen.
up_run : sel_up 3 none ≡ some 1
unfolding sel_up
up_run = refl

abbrev words_of_ls : List Text
words_of_ls = codes "lsblk" ∷ codes "lsbom" ∷ []

all_begin : (x : Text) → In x words_of_ls → has_prefix x (codes "ls") ≡ true
unfolding has_prefix nat_eq
all_begin x i = All-In (λ w. has_prefix w (codes "ls") ≡ true) x words_of_ls (refl, (refl, tt)) i

completed-line_at_example :
    (p : Text) × (completed 3 words_of_ls (line_at (codes "do ") (codes "ls") (codes " x"))
      ≡ some (line_at (codes "do ") p (codes " x")))
    × IsCommonPrefix words_of_ls p
completed-line_at_example =
    completed-line_at (codes "do ") (codes "ls") (codes " x") (codes "lsblk") (codes "lsbom") []
      (λ x i. all_begin x i)

no_escape : has_escaped_space (codes "a b'c") ≡ false
unfolding has_escaped_space has_prefix nat_eq
no_escape = refl

plain_or_special : All (λ c. (contains special c || is_plain c) ≡ true) (codes "a b'c")
unfolding is_plain is_letter is_digit nat_eq
plain_or_special = (refl, (refl, (refl, (refl, (refl, tt)))))

words-shell_word_example : words (shell_word (codes "a b'c")) ≡ some (codes "a b'c" ∷ [])
unfolding nat_eq
words-shell_word_example = words-shell_word (codes "a b'c") refl no_escape plain_or_special
