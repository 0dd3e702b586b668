-- ===== src/Ui/Input/Defs.antt =====
-- internal/ui/commands.go: `slashLine`, `wordStart`, `shellWord`, `commonPrefix`, and what `completed` does
-- to the line. Texts are lists of runes here; Go's order of strings, by bytes, is the order by runes.
-- Where the code measures a string, the measure is in bytes (`byte_length`). A panic is `none`.
use vibepod.Base.{
  ℕ, suc, Bool, false, not, ◌&&◌, ◌||◌, Option, none, some, List, [], ◌∷◌, ◌++◌, ◌+◌, min,
}
use vibepod.Base.{
  Text, codes, ◌==◌, if◌then◌else◌, nat_eq, text_eq, length, take, drop, contains, ltb, leb,
}
use vibepod.Base.Sort.{sort_by}
use vibepod.Strings.{has_prefix, trim_prefix, text_lt}
use vibepod.Strings.Space.{fields}

-- `slashCmd`, less its functions.
pub record SlashCmd : Type 0 where
  pub name : Text
  pub args : Text
  pub help : Text

-- `slashCmds`
abbrev pub slash_cmds : List SlashCmd
slash_cmds =
    record { name = codes "clear"; args = []; help = codes "clear the screen and the scrollback" }
    ∷ record {
      name = codes "use";
      args = codes "<machine>";
      help = codes "move this session to another machine";
    }
    ∷ record { name = codes "hosts"; args = []; help = codes "the machines this pod knows" }
    ∷ record { name = codes "help"; args = []; help = codes "commands and keys" }
    ∷ record { name = codes "detach"; args = []; help = codes "leave the session running and quit" }
    ∷ record {
      name = codes "exit";
      args = [];
      help = codes "end the shell, and the session with it";
    }
    ∷ []

-- `findSlash`
unfoldable pub find_slash_in : List SlashCmd → Text → Option SlashCmd
find_slash_in [] name = none
find_slash_in (c ∷ cs) name = if c.name == name then some c else find_slash_in cs name

unfoldable pub find_slash : Text → Option SlashCmd
unfolding find_slash_in
find_slash name = find_slash_in slash_cmds name

unfoldable pub with_args : List Text → Option SlashCmd → Option (SlashCmd × List Text)
with_args args none = none
with_args args (some c) = some (c, args)

unfoldable pub slash_fields : Bool → List Text → Option (SlashCmd × List Text)
unfolding with_args find_slash
slash_fields slashed [] = none
slash_fields slashed (f ∷ fs) =
    if not slashed then none else with_args fs (find_slash (trim_prefix f (codes "/")))

-- `slashLine`
unfoldable pub slash_line : Text → Option (SlashCmd × List Text)
unfolding slash_fields has_prefix fields
slash_line line = slash_fields (has_prefix line (codes "/")) (fields line)

-- `wordStart`, from the runes before the cursor in reverse; each step is one rune nearer to the start.
unfoldable pub start_back : Text → ℕ
start_back [] = 0
start_back (c ∷ []) = if c == 0x20 || c == 0x09 then 1 else 0
start_back (c ∷ d ∷ r) =
    let rest = start_back (d ∷ r) in
    if c == 0x20 || c == 0x09 then (if d == b'\\' then rest else suc (suc (length r))) else rest

unfoldable pub turned_round : Text → Text → Text
turned_round [] out = out
turned_round (x ∷ s) out = turned_round s (x ∷ out)

unfoldable pub word_start : Text → ℕ
unfolding start_back turned_round
word_start r = start_back (turned_round r [])

-- The runes that `shellWord` escapes: space, quotes, $, `, \, !, &, ;, brackets, <, >, |, *, ?, # and ~.
abbrev pub special : Text
special =
    0x20 ∷ 0x27 ∷ 0x22 ∷ 0x24 ∷ 0x60 ∷ 0x5c ∷ 0x21 ∷ 0x26 ∷ 0x3b ∷ 0x28 ∷ 0x29 ∷ 0x3c ∷ 0x3e ∷ 0x7c
    ∷ 0x2a ∷ 0x3f ∷ 0x5b ∷ 0x5d ∷ 0x23 ∷ 0x7e ∷ []

unfoldable pub escape_word : Text → Text
escape_word [] = []
escape_word (c ∷ s) =
    let rest = escape_word s in if contains special c then b'\\' ∷ c ∷ rest else c ∷ rest

unfoldable pub has_escaped_space : Text → Bool
has_escaped_space [] = false
has_escaped_space (c ∷ s) = has_prefix (c ∷ s) (b'\\' ∷ 0x20 ∷ []) || has_escaped_space s

-- `shellWord`
unfoldable pub shell_word : Text → Text
unfolding escape_word has_escaped_space
shell_word w = if not (contains w 0x20) || has_escaped_space w then w else escape_word w

unfoldable pub shared : Text → Text → Text
shared [] z = []
shared (x ∷ a) [] = []
shared (x ∷ a) (y ∷ z) = let rest = shared a z in if x == y then x ∷ rest else []

unfoldable pub last_of : Text → List Text → Text
last_of w [] = w
last_of w (v ∷ vs) = last_of v vs

unfoldable pub shared_ends : List Text → Text
unfolding shared last_of
shared_ends [] = []
shared_ends (w ∷ ws) = shared w (last_of w ws)

-- `commonPrefix`
unfoldable pub common_prefix : List Text → Text
unfolding shared_ends
common_prefix words = shared_ends (sort_by text_lt words)

-- The line with the cursor, and the cursor's place in it.
pub record Line : Type 0 where
  pub runes : Text
  pub col : ℕ

-- `s[a:b]`, which panics beyond the bounds of `s`.
unfoldable pub slice : Text → ℕ → ℕ → Option Text
slice s a b = if leb a b && leb b (length s) then some (drop a (take b s)) else none

-- `wordAtCursor`, on the cursor's line.
unfoldable pub word_at_cursor : ℕ → Line → Option Text
unfolding slice
word_at_cursor from l =
    let col = min l.col (length l.runes) in if ltb col from then some [] else slice l.runes from col

unfoldable pub spliced : Option Text → Text → Option Text → ℕ → Option Line
spliced none word after at = none
spliced (some before) word none at = none
spliced (some before) word (some after) at =
    some (record { runes = before ++ (word ++ after); col = at + length word })

-- `replaceWord`, on the cursor's line; the cursor is put behind the word.
unfoldable pub replace_word : ℕ → Text → Line → Option Line
unfolding slice spliced
replace_word from word l =
    let col = min l.col (length l.runes) in
    let at = min from col in
    spliced (slice l.runes 0 at) word (slice l.runes col (length l.runes)) at

unfoldable pub ends_with : Text → ℕ → Bool
ends_with [] c = false
ends_with (x ∷ []) c = x == c
ends_with (x ∷ y ∷ s) c = ends_with (y ∷ s) c

-- `acceptCompletion`, on the line.
unfoldable pub accept_completion : Text → ℕ → Line → Option Line
unfolding replace_word ends_with
accept_completion word from l =
    replace_word from
      (if not (ends_with word b'/') && not (ends_with word b'=') && not (ends_with word b':')
        then word ++ 0x20 ∷ []
        else word)
      l

-- `len` of a text: the bytes its runes take in UTF-8.
unfoldable pub rune_len : ℕ → ℕ
rune_len c = if ltb c 0x80 then 1 else if ltb c 0x800 then 2 else if ltb c 0x10000 then 3 else 4

unfoldable pub byte_length : Text → ℕ
unfolding rune_len
byte_length [] = 0
byte_length (c ∷ s) = rune_len c + byte_length s

-- The word before the cursor is replaced by a longer one.
unfoldable pub grown : ℕ → Text → Line → Option Text → Option Line
unfolding byte_length replace_word
grown from p l none = none
grown from p l (some cur) =
    if ltb (byte_length cur) (byte_length p) then replace_word from p l else some l

-- `completed`, on the line, for an answer that is still wanted and no error: nothing for no candidate,
-- the only one, or as much as they share.
unfoldable pub completed : ℕ → List Text → Line → Option Line
unfolding accept_completion common_prefix word_at_cursor grown
completed from [] l = some l
completed from (w ∷ []) l = accept_completion w from l
completed from (v ∷ w ∷ ws) l = grown from (common_prefix (v ∷ w ∷ ws)) l (word_at_cursor from l)
