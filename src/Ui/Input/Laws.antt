-- ===== src/Ui/Input/Laws.antt =====
-- internal/ui/commands.go: what completion puts into the line.
use vibepod.Base.{
  ℕ, true, false, ◌||◌, Option, none, some, List, [], ◌∷◌, ◌++◌, ◌+◌, ◌≤◌, min, append_assoc,
  append-nil,
}
use vibepod.Base.{◌≡◌, ◌≢◌, refl, sym, ap, ◌∙◌, arith, All, In, if_cases}
use vibepod.Base.{Text, if◌then◌else◌, nat_eq, length, length-append, take, drop, contains, ltb}
use vibepod.Strings.{has_prefix, drop-append_self}
use vibepod.Remote.{is_plain, words, words_from, plain, begun, ended, is_letter, is_digit}
use vibepod.Ui.Input.Defs.{
  Line, word_at_cursor, replace_word, common_prefix, completed, special, escape_word,
  has_escaped_space, shell_word, byte_length, rune_len, spliced, grown,
}
use vibepod.Ui.Input.Prefix.{IsCommonPrefix, common_prefix-IsCommonPrefix}
use vibepod.Ui.Input.Bounds.{slice_within}

-- The line `before`, then `word` up to the cursor, then `after`.
abbrev pub line_at : Text → Text → Text → Line
line_at before word after = record {
  runes = before ++ (word ++ after);
  col = length before + length word;
}

take-append_left : (a b : Text) → take (length a) (a ++ b) ≡ a
take-append_left [] [] = refl
take-append_left [] (x ∷ b) = refl
take-append_left (x ∷ a) b = ap (λ t. x ∷ t) (take-append_left a b)

-- The cursor's place, as the code computes it.
min_line :
    (before word after : Text)
    → min (length before + length word) (length (before ++ (word ++ after)))
      ≡ length before + length word
min_line before word after =
    let a = length-append before (word ++ after) in let b = length-append word after in omega arith

upto_cursor :
    (before word after : Text)
    → take (length before + length word) (before ++ (word ++ after)) ≡ before ++ word
upto_cursor before word after =
    ap (λ n. take n (before ++ (word ++ after))) (sym (length-append before word))
    ∙ ap (take (length (before ++ word))) (sym (append_assoc before word after))
    ∙ take-append_left (before ++ word) after

behind_cursor :
    (before word after : Text)
    → drop (length before + length word) (before ++ (word ++ after)) ≡ after
behind_cursor before word after =
    ap (λ n. drop n (before ++ (word ++ after))) (sym (length-append before word))
    ∙ ap (drop (length (before ++ word))) (sym (append_assoc before word after))
    ∙ drop-append_self (before ++ word) after

take_all : (s : Text) → take (length s) s ≡ s
take_all [] = refl
take_all (x ∷ s) = ap (λ t. x ∷ t) (take_all s)

word_at_cursor-line_at :
    (before word after : Text)
    → word_at_cursor (length before) (line_at before word after) ≡ some word
unfolding word_at_cursor
word_at_cursor-line_at before word after =
    let m = min_line before word after in
    let u =
      ap (drop (length before)) (upto_cursor before word after) ∙ drop-append_self before word in
    let not_behind : ltb (length before + length word) (length before) ≡ false = ground arith in
    let l = length-append before (word ++ after) in
    let r = length-append word after in
    rw (m, not_behind)
      (slice_within (before ++ (word ++ after)) (length before) (length before + length word)
          (omega arith) (omega arith)
        ∙ ap some u)

replace_word-line_at :
    (before word after new : Text)
    → replace_word (length before) new (line_at before word after) ≡ some (line_at before new after)
unfolding replace_word spliced
replace_word-line_at before word after new =
    let m = min_line before word after in
    let at : min (length before) (length before + length word) ≡ length before = omega arith in
    let l = length-append before (word ++ after) in
    let r = length-append word after in
    let all = before ++ (word ++ after) in
    rw
      (
        m,
        at,
        slice_within all 0 (length before) (omega arith) (omega arith),
        slice_within all (length before + length word) (length all) (omega arith) (omega arith),
        take_all all,
        take-append_left before (word ++ after),
        behind_cursor before word after,
      )
      refl

rune_len-pos : (c : ℕ) → 1 ≤ rune_len c
unfolding rune_len
rune_len-pos c = ground arith

-- A prefix that is as long is the text.
has_prefix-eq : (s p : Text) → has_prefix s p ≡ true → byte_length s ≤ byte_length p → s ≡ p
unfolding has_prefix byte_length
has_prefix-eq [] [] h le = refl
has_prefix-eq (x ∷ s) [] h le = let pos = rune_len-pos x in absurd (omega arith)
has_prefix-eq [] (c ∷ p) h le = absurd (cc)
has_prefix-eq (x ∷ s) (c ∷ p) h le = ground (arith, has_prefix-eq s p)

grown-line_at :
    (before word after p : Text)
    → has_prefix p word ≡ true
    → grown (length before) p (line_at before word after) (some word)
      ≡ some (line_at before p after)
unfolding grown
grown-line_at before word after p more =
    if_cases (λ l. l ≡ some (line_at before p after)) (ltb (byte_length word) (byte_length p)) _ _
      (λ _. replace_word-line_at before word after p)
      (λ n.
        ap (λ q. some (line_at before q after)) (sym (has_prefix-eq p word more (ground arith))))

-- Tab, of several candidates that all begin with the word before the cursor: the word becomes a
-- text with which all of the candidates begin, and each text with which all of them begin is a
-- prefix of it; the cursor is behind it, and the rest of the line stays as it is.
pub completed-line_at :
    (before word after v w : Text) (ws : List Text)
    → ((x : Text) → In x (v ∷ w ∷ ws) → has_prefix x word ≡ true)
    → (p : Text) × (completed (length before) (v ∷ w ∷ ws) (line_at before word after)
        ≡ some (line_at before p after))
      × IsCommonPrefix (v ∷ w ∷ ws) p
unfolding completed
completed-line_at before word after v w ws h =
    let p = common_prefix (v ∷ w ∷ ws) in
    let all = common_prefix-IsCommonPrefix (v ∷ w ∷ ws) (λ e. absurd (cc)) in
    (
      p,
      rw (word_at_cursor-line_at before word after)
          (grown-line_at before word after p (all.1 word h)),
      all,
    )

escaped_step :
    (c : ℕ) (o : Option Text) (rest : Text)
    → words_from plain o (b'\\' ∷ c ∷ rest) ≡ words_from plain (some (begun o ++ c ∷ [])) rest
unfolding words_from nat_eq
escaped_step c o rest = refl

plain_step :
    (c : ℕ) (o : Option Text) (rest : Text)
    → is_plain c ≡ true
    → words_from plain o (c ∷ rest) ≡ words_from plain (some (begun o ++ c ∷ [])) rest
unfolding words_from is_plain is_letter is_digit nat_eq
plain_step c o rest h = ground arith

escape_step :
    (c : ℕ) (t : Text) (o : Option Text)
    → (contains special c || is_plain c) ≡ true
    → words_from plain o (if contains special c then b'\\' ∷ c ∷ t else c ∷ t)
      ≡ words_from plain (some (begun o ++ c ∷ [])) t
escape_step c t o h =
    if_cases (λ l. words_from plain o l ≡ words_from plain (some (begun o ++ c ∷ [])) t)
      (contains special c) (b'\\' ∷ c ∷ t) (c ∷ t) (λ _. escaped_step c o t)
      (λ n. plain_step c o t (cc))

words_from-escape_word :
    (s w : Text)
    → All (λ c. (contains special c || is_plain c) ≡ true) s
    → words_from plain (some w) (escape_word s) ≡ some ((w ++ s) ∷ [])
unfolding escape_word words_from ended begun
words_from-escape_word [] w h = rw append-nil refl
words_from-escape_word (c ∷ s) w (hc, h) =
    escape_step c (escape_word s) (some w) hc
    ∙ words_from-escape_word s (w ++ c ∷ []) h
    ∙ ap (λ l. some (l ∷ [])) (append_assoc w (c ∷ []) s)

words-escape_word :
    (w : Text)
    → w ≢ []
    → All (λ c. (contains special c || is_plain c) ≡ true) w
    → words (escape_word w) ≡ some (w ∷ [])
unfolding words escape_word begun
words-escape_word [] ne h = absurd (ne refl)
words-escape_word (c ∷ s) ne (hc, h) =
    escape_step c (escape_word s) none hc ∙ words_from-escape_word s (c ∷ []) h

-- A candidate with a space and no escaped space, of the characters that the code escapes and of those
-- that stand for themselves in a shell: what the line is given is read by a shell as one word, the candidate.
pub words-shell_word :
    (w : Text)
    → contains w 0x20 ≡ true
    → has_escaped_space w ≡ false
    → All (λ c. (contains special c || is_plain c) ≡ true) w
    → words (shell_word w) ≡ some (w ∷ [])
unfolding shell_word
words-shell_word w sp ne h = rw (sp, ne) (words-escape_word w (λ e. absurd (spaceless e sp)) h)
  where
    spaceless : {s : Text} → s ≡ [] → contains s 0x20 ≡ true → ⊥
    spaceless e y = absurd (ground arith)
