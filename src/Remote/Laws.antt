-- ===== src/Remote/Laws.antt =====
-- What a shell reads in the texts that internal/remote quotes.
use vibepod.Base.{
  ℕ, ◌≢◌, Bool, true, false, not, ◌&&◌, ◌≡◌, refl, sym, ap, Option, none, some, List, [], ◌∷◌, ◌++◌,
}
use vibepod.Base.{
  Text, codes, ◌==◌, if◌then◌else◌, text_eq, nat_eq, arith, All, Option-cases, Bool-cases, inl, inr,
  append_assoc, append-nil, ◌∙◌,
}
use mathlib.Core.Path.{subst}
use vibepod.Strings.{cut, cut_sound, join, replace_all}
use vibepod.Remote.Defs.{quote, quoted_quote, is_letter, is_digit, valid_from, valid_name}
use vibepod.Remote.Defs.{one_assignment, assignment_list, with_space, join_args, remote_command}
use vibepod.Remote.Words.{plain, quoted, is_plain, begun, put_word, words_from, words, ended}

-- Behind an opening quote, the escaped text and the closing quote are the text itself.
quoted_reads :
    (s w rest : Text)
    → words_from quoted (some w) (replace_all s b'\'' quoted_quote ++ b'\'' ∷ rest)
      ≡ words_from plain (some (w ++ s)) rest
unfolding words_from replace_all begun nat_eq
quoted_reads [] w rest = rw append-nil
quoted_reads (c ∷ s) w rest =
    ground (arith, quoted_reads s (w ++ c ∷ []) rest, append_assoc w (c ∷ []) s)

words_from-quote :
    (w : Option Text) (s rest : Text)
    → words_from plain w (quote s ++ rest) ≡ words_from plain (some (begun w ++ s)) rest
unfolding words_from quote nat_eq
words_from-quote w s rest =
    ap (words_from quoted (some (begun w)))
      (append_assoc (replace_all s b'\'' quoted_quote) (b'\'' ∷ []) rest)
    ∙ quoted_reads s (begun w) rest

-- Plain bytes are read as they stand.
words_from-plain :
    (p w rest : Text)
    → All (λ c. is_plain c ≡ true) p
    → words_from plain (some w) (p ++ rest) ≡ words_from plain (some (w ++ p)) rest
unfolding words_from begun is_plain is_letter is_digit nat_eq
words_from-plain [] w rest h = rw append-nil
words_from-plain (c ∷ p) w rest (hc, h) =
    ground (arith, words_from-plain p (w ++ c ∷ []) rest h, append_assoc w (c ∷ []) p)

-- A valid name is plain.
valid_from-plain :
    (first : Bool) (name : Text) → valid_from first name ≡ true → All (λ c. is_plain c ≡ true) name
unfolding valid_from is_plain
valid_from-plain first [] h = tt
valid_from-plain first (c ∷ name) h = (ground arith, valid_from-plain false name (ground arith))

-- A machine is asked to run `sh -c script`, whatever the script holds: a shell cuts the one
-- argument that ssh is given into the three words, and the script is the third of them.
pub words-remote_command :
    (script : Text) → words (remote_command script) ≡ some (codes "sh" ∷ codes "-c" ∷ script ∷ [])
unfolding words remote_command nat_eq words_from is_plain is_letter is_digit begun put_word ended
words-remote_command script =
    rw (ap (words_from plain none) (sym (append-nil (quote script)))) (rw words_from-quote refl)

-- An assignment that a shell is given; the others are left out.
unfoldable pub has_name : Option (Text × Text) → Bool
has_name none = false
has_name (some (name, _)) = not (name == []) && valid_name name

unfoldable pub names_variable : Text → Bool
unfolding has_name
names_variable kv = has_name (cut kv b'=')

-- The variables of an environment that can be passed on, as `name=value`.
unfoldable pub passed_on : List Text → List Text
passed_on [] = []
passed_on (kv ∷ env) = if names_variable kv then kv ∷ passed_on env else passed_on env

-- A command begins with the words of its assignments.
unfoldable pub put_words : List Text → Option (List Text) → Option (List Text)
put_words ws none = none
put_words ws (some rest) = some (ws ++ rest)

pub put_words-cons :
    (w : Text) (ws : List Text) (o : Option (List Text))
    → put_words (w ∷ ws) o ≡ put_word (some w) (put_words ws o)
unfolding put_words put_word ended
put_words-cons w ws none = refl
put_words-cons w ws (some r) = refl

-- The text `p` is read as the one word `w`.
abbrev IsRead : Text → Text → Type 0
IsRead p w = (rest : Text) → words_from plain none (p ++ rest) ≡ words_from plain (some w) rest

pub space_lem :
    (p w rest : Text)
    → IsRead p w
    → words_from plain none (p ++ (codes " " ++ rest))
      ≡ put_word (some w) (words_from plain none rest)
unfolding words_from nat_eq
space_lem p w rest h = rw (h (b' ' ∷ rest)) refl

plain_first :
    (c : ℕ) (s : Text)
    → is_plain c ≡ true
    → words_from plain none (c ∷ s) ≡ words_from plain (some (c ∷ [])) s
unfolding words_from begun is_plain is_letter is_digit nat_eq
plain_first c s h = ground arith

name_reads :
    (name rest : Text)
    → name ≢ []
    → All (λ c. is_plain c ≡ true) name
    → words_from plain none (name ++ rest) ≡ words_from plain (some name) rest
name_reads [] rest ne h = absurd (ne refl)
name_reads (c ∷ name) rest ne (hc, h) =
    plain_first c (name ++ rest) hc ∙ words_from-plain name (c ∷ []) rest h

equals_lem :
    (name value rest : Text)
    → words_from plain (some name) ((b'=' ∷ quote value) ++ rest)
      ≡ words_from plain (some (name ++ b'=' ∷ value)) rest
unfolding words_from begun is_plain is_letter is_digit nat_eq
equals_lem name value rest =
    words_from-quote (some (name ++ b'=' ∷ [])) value rest
    ∙ ap (λ t. words_from plain (some t) rest) (append_assoc name (b'=' ∷ []) value)

assignment_reads :
    (name value : Text)
    → valid_name name ≡ true
    → name ≢ []
    → IsRead (name ++ b'=' ∷ quote value) (name ++ b'=' ∷ value)
unfolding valid_name
assignment_reads name value v ne rest =
    ap (words_from plain none) (append_assoc name (b'=' ∷ quote value) rest)
    ∙ name_reads name ((b'=' ∷ quote value) ++ rest) ne (valid_from-plain true name v)
    ∙ equals_lem name value rest

data Given (kv : Text) : Type 0 where
  left_out : one_assignment (cut kv b'=') ≡ [] → names_variable kv ≡ false → Given kv
  given :
      (p : Text)
      → one_assignment (cut kv b'=') ≡ p ∷ []
      → names_variable kv ≡ true
      → IsRead p kv
      → Given kv

one_assignment-cases : (kv : Text) → Given kv
one_assignment-cases kv = elim (Option-cases (cut kv b'=')) [
  | inl e ↦ left_out (unfold one_assignment in rw e refl) (unfold names_variable in rw e refl)
  | inr ((name, value), e) ↦ elim (Bool-cases (not (name == []) && valid_name name)) [
    | inl b ↦
        given (name ++ b'=' ∷ quote value) (unfold one_assignment in rw e (ground arith))
          (unfold names_variable in rw e b)
          (subst (IsRead (name ++ b'=' ∷ quote value)) (sym (cut_sound kv b'=' e).0)
            (assignment_reads name value (ground arith) (ground arith)))
    | inr b ↦
        left_out (unfold one_assignment in rw e (ground arith)) (unfold names_variable in rw e b)
  ]
]

with_space-cons :
    (p : Text) (ps : List Text) → with_space (p ∷ ps) ≡ p ++ (codes " " ++ with_space ps)
unfolding with_space join
with_space-cons p [] = refl
with_space-cons p (q ∷ qs) = simp append_assoc

pub list_read :
    (env : List Text) (rest : Text)
    → words_from plain none (with_space (assignment_list env) ++ rest)
      ≡ put_words (passed_on env) (words_from plain none rest)
unfolding assignment_list passed_on
list_read [] rest =
    unfold put_words with_space in ground (arith, Option-cases (words_from plain none rest))
list_read (kv ∷ env) rest = elim (one_assignment-cases kv) [
  | left_out e n ↦ rw (e, n) (list_read env rest)
  | given p e n reads ↦
      rw
        (
          e,
          n,
          with_space-cons p (assignment_list env),
          append_assoc p,
          put_words-cons,
          ← list_read env rest,
        )
        (space_lem p kv (with_space (assignment_list env) ++ rest) reads)
]

pub argument_reads : (a : Text) → IsRead (quote a) a
unfolding begun
argument_reads a rest = words_from-quote none a rest

last_word : (a : Text) → words_from plain none (quote a) ≡ some (a ∷ [])
unfolding words_from begun ended
last_word a = ap (words_from plain none) (sym (append-nil (quote a))) ∙ words_from-quote none a []

pub words_from-join_args : (argv : List Text) → words_from plain none (join_args argv) ≡ some argv
unfolding join_args join put_word ended words_from
words_from-join_args [] = refl
words_from-join_args (a ∷ []) = last_word a
words_from-join_args (a ∷ b ∷ argv) =
    ap (words_from plain none) (append_assoc (quote a) (codes " ") (join_args (b ∷ argv)))
    ∙ space_lem (quote a) a (join_args (b ∷ argv)) (argument_reads a)
    ∙ ap (put_word (some a)) (words_from-join_args (b ∷ argv))

pub exec_lem :
    (rest : Text)
    → words_from plain none (codes "exec " ++ rest)
      ≡ put_word (some (codes "exec")) (words_from plain none rest)
unfolding words_from begun is_plain is_letter is_digit nat_eq
exec_lem rest = refl
