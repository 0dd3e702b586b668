-- ===== src/Remote/Words.antt =====
-- How a POSIX shell cuts a command into words, for the commands that need no expansion. A
-- description of the shell, not of the program: it gives up at every character that means
-- something else to the shell.
use vibepod.Base.{ℕ, Bool, ◌||◌, Option, none, some, List, [], ◌∷◌, ◌++◌}
use vibepod.Base.{Text, ◌==◌, if◌then◌else◌, text_eq, nat_eq}
use vibepod.Remote.Defs.{is_letter, is_digit}

-- Outside quotes, inside single quotes, and behind a backslash.
pub data Mode : Type 0 where
  plain quoted escaped : Mode

-- A byte that stands for itself outside quotes.
unfoldable pub is_plain : ℕ → Bool
is_plain c =
    is_letter c || is_digit c || c == b'=' || c == b'-' || c == b'/' || c == b'.' || c == b','

-- A word begins at its first byte or quote.
unfoldable pub begun : Option Text → Text
begun none = []
begun (some w) = w

unfoldable pub ended : Option Text → List Text → List Text
ended none ws = ws
ended (some w) ws = w ∷ ws

unfoldable pub put_word : Option Text → Option (List Text) → Option (List Text)
put_word w none = none
put_word w (some ws) = some (ended w ws)

-- The words of a text, from a mode and the word begun.
unfoldable pub words_from : Mode → Option Text → Text → Option (List Text)
words_from plain w [] = some (ended w [])
words_from quoted w [] = none
words_from escaped w [] = none
words_from quoted w (c ∷ s) =
    let inside = words_from quoted (some (begun w ++ c ∷ [])) s in
    let outside = words_from plain w s in if c == b'\'' then outside else inside
words_from escaped w (c ∷ s) = words_from plain (some (begun w ++ c ∷ [])) s
words_from plain w (c ∷ s) =
    let space = put_word w (words_from plain none s) in
    let quote = words_from quoted (some (begun w)) s in
    let backslash = words_from escaped w s in
    let itself = words_from plain (some (begun w ++ c ∷ [])) s in
    if c == b' '
    then space
    else if c == b'\''
    then quote
    else if c == b'\\'
    then backslash
    else if is_plain c
    then itself
    else none

unfoldable pub words : Text → Option (List Text)
words s = words_from plain none s
