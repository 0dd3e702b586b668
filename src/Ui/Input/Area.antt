-- ===== src/Ui/Input/Area.antt =====
-- internal/ui/commands.go: `replaceWord`, `acceptCompletion` and `completed`, on the text area that holds
-- the line; a panic is `none`. The text area is a library's: the record below is the part of it that the code calls.
use vibepod.Base.{ℕ, zero, suc, Option, none, some, List, [], ◌∷◌}
use vibepod.Base.{Text, if◌then◌else◌, codes, ltb}
use vibepod.Strings.{split, join}
use vibepod.Ui.Input.Defs.{
  Line, accept_completion, replace_word, word_at_cursor, common_prefix, byte_length,
}

-- The text area: `update` is its own answer to a key, by the key's name.
pub record TextArea (A : Type 0) : Type 0 where
  pub value : A → Text
  pub row : A → ℕ
  pub column : A → ℕ
  pub rows : A → ℕ
  pub set_value : Text → A → A
  pub reset : A → A
  pub to_begin : A → A
  pub cursor_down : A → A
  pub set_column : ℕ → A → A
  pub update : Text → A → A

unfoldable pub item_at {ℓ} : {A : Type ℓ} → List A → ℕ → Option A
item_at [] i = none
item_at (x ∷ xs) zero = some x
item_at (x ∷ xs) (suc i) = item_at xs i

unfoldable pub put_at {ℓ} : {A : Type ℓ} → List A → ℕ → A → List A
put_at [] i y = []
put_at (x ∷ xs) zero y = y ∷ xs
put_at (x ∷ xs) (suc i) y = x ∷ put_at xs i y

module _ {A : Type 0} (area : TextArea A) where
  -- The loop of `replaceWord` that takes the cursor down to its row.
  unfoldable pub down_to : ℕ → ℕ → A → A
  down_to zero row a = a
  down_to (suc fuel) row a =
      let rest = down_to fuel row (area.cursor_down a) in if ltb (area.row a) row then rest else a

  unfoldable pub put_line : List Text → ℕ → Line → A → A
  unfolding down_to put_at
  put_line ls row l a = area.set_column l.col (
      down_to 1000 row
        (area.to_begin (area.set_value (join (put_at ls row l.runes) (codes "\n")) a)))

  unfoldable pub put_back : List Text → ℕ → A → Option Line → Option A
  unfolding put_line
  put_back ls row a none = none
  put_back ls row a (some l) = some (put_line ls row l a)

  unfoldable pub on_line_at : List Text → (Line → Option Line) → A → Option Text → Option A
  unfolding put_back
  on_line_at ls f a none = some a
  on_line_at ls f a (some runes) =
      put_back ls (area.row a) a (f (record { runes = runes; col = area.column a }))

  -- A change of the cursor's line; nothing where the row is behind the lines.
  unfoldable pub on_line : (Line → Option Line) → A → Option A
  unfolding on_line_at item_at
  on_line f a = let ls = split (area.value a) 0x0a in on_line_at ls f a (item_at ls (area.row a))

  -- `wordAtCursor`: no text where the row is behind the lines.
  unfoldable pub word_in : ℕ → A → Option Text → Option Text
  unfolding word_at_cursor
  word_in from a none = some []
  word_in from a (some runes) = word_at_cursor from (record { runes = runes; col = area.column a })

  unfoldable pub area_word : ℕ → A → Option Text
  unfolding word_in item_at
  area_word from a = word_in from a (item_at (split (area.value a) 0x0a) (area.row a))

  unfoldable pub area_accept : Text → ℕ → A → Option A
  unfolding on_line
  area_accept word from a = on_line (accept_completion word from) a

  unfoldable pub area_grown : ℕ → Text → A → Option Text → Option A
  unfolding on_line
  area_grown from p a none = none
  area_grown from p a (some cur) =
      if ltb (byte_length cur) (byte_length p) then on_line (replace_word from p) a else some a

  -- `completed`, on the text area, for two candidates or more.
  unfoldable pub area_shared : ℕ → List Text → A → Option A
  unfolding area_grown area_word
  area_shared from words a = area_grown from (common_prefix words) a (area_word from a)
