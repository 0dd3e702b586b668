-- ===== src/Complete/Laws.antt =====
-- internal/complete/complete.go: what `Parse` finds.
use vibepod.Base.{true, List, [], ◌∷◌, ◌++◌, append_assoc, append-nil}
use vibepod.Base.{◌≡◌, ◌≢◌, refl, sym, ap, ◌∙◌, arith, inl, inr, Bool-cases, All, Pairwise}
use mathlib.Core.Path.{subst}
use vibepod.Base.{Text, if◌then◌else◌, if_cases, text_eq, contains}
use vibepod.Strings.{split}
use vibepod.Complete.Defs.{
  trim_right, is_blank, Candidate, candidate, Parsing, add_candidate, parse_line, parse_lines,
  parse,
}

-- What all lines offer that are not blank.
abbrev pub offers : List Text → List Candidate
offers [] = []
offers (l ∷ ls) =
    let rest = offers ls in
    if is_blank (trim_right l) then rest else candidate (trim_right l) ∷ rest

-- Those whose word is not in a list.
abbrev pub unseen : List Text → List Candidate → List Candidate
unseen seen [] = []
unseen seen (c ∷ cs) = let rest = unseen seen cs in if contains seen c.word then rest else c ∷ rest

-- The first of each word.
abbrev pub firsts : List Candidate → List Candidate
firsts [] = []
firsts (c ∷ cs) = c ∷ unseen (c.word ∷ []) (firsts cs)

unseen-unseen :
    (seen : List Text) (w : Text) (cs : List Candidate)
    → unseen seen (unseen (w ∷ []) cs) ≡ unseen (w ∷ seen) cs
unseen-unseen seen w [] = refl
unseen-unseen seen w (c ∷ cs) = ground (arith, unseen-unseen seen w cs)

unseen_again :
    (seen : List Text) (w : Text) (cs : List Candidate)
    → contains seen w ≡ true
    → unseen (w ∷ seen) cs ≡ unseen seen cs
unseen_again seen w [] e = refl
unseen_again seen w (c ∷ cs) e = ground (arith, unseen_again seen w cs e)

unseen-firsts :
    (seen : List Text) (c : Candidate) (cs : List Candidate)
    → unseen seen (firsts (c ∷ cs)) ≡ (
        if contains seen c.word
        then unseen seen (firsts cs)
        else c ∷ unseen (c.word ∷ seen) (firsts cs))
unseen-firsts seen c cs = elim (Bool-cases (contains seen c.word)) [
  | inl y ↦ rw y (unseen-unseen seen c.word (firsts cs) ∙ unseen_again seen c.word (firsts cs) y)
  | inr n ↦ rw n (ap (λ t. c ∷ t) (unseen-unseen seen c.word (firsts cs)))
]

add_candidate-unseen :
    (c : Candidate) (cs : List Candidate) (p : Parsing)
    → (add_candidate c p).candidates ++ unseen (add_candidate c p).seen (firsts cs)
      ≡ p.candidates ++ unseen p.seen (firsts (c ∷ cs))
unfolding add_candidate
add_candidate-unseen c cs p = elim (Bool-cases (contains p.seen c.word)) [
  | inl y ↦ rw (unseen-firsts p.seen c cs, y) refl
  | inr n ↦
      rw (unseen-firsts p.seen c cs, n)
        (append_assoc p.candidates (c ∷ []) (unseen (c.word ∷ p.seen) (firsts cs)))
]

parse_line-unseen :
    (l : Text) (ls : List Text) (p : Parsing)
    → (parse_line l p).candidates ++ unseen (parse_line l p).seen (firsts (offers ls))
      ≡ p.candidates ++ unseen p.seen (firsts (offers (l ∷ ls)))
unfolding parse_line
parse_line-unseen l ls p = elim (Bool-cases (is_blank (trim_right l))) [
  | inl y ↦ rw y refl
  | inr n ↦ rw n (add_candidate-unseen (candidate (trim_right l)) (offers ls) p)
]

parse_lines-candidates :
    (ls : List Text) (p : Parsing)
    → (parse_lines ls p).candidates ≡ p.candidates ++ unseen p.seen (firsts (offers ls))
unfolding parse_lines
parse_lines-candidates [] p = sym (append-nil p.candidates)
parse_lines-candidates (l ∷ ls) p =
    parse_lines-candidates ls (parse_line l p) ∙ parse_line-unseen l ls p

All-unseen :
    (P : Candidate → Type 0) (seen : List Text) (cs : List Candidate)
    → All P cs
    → All P (unseen seen cs)
All-unseen P seen [] h = tt
All-unseen P seen (c ∷ cs) (pc, h) =
    if_cases (All P) (contains seen c.word) _ _ (λ _. All-unseen P seen cs h)
      (λ _. (pc, All-unseen P seen cs h))

unseen-distinct :
    (seen : List Text) (cs : List Candidate)
    → Pairwise (λ c d. c.word ≢ d.word) cs
    → Pairwise (λ c d. c.word ≢ d.word) (unseen seen cs)
unseen-distinct seen [] h = tt
unseen-distinct seen (c ∷ cs) (far, h) =
    if_cases (Pairwise (λ c d. c.word ≢ d.word)) (contains seen c.word) _ _
      (λ _. unseen-distinct seen cs h)
      (λ _. (All-unseen (λ d. c.word ≢ d.word) seen cs far, unseen-distinct seen cs h))

unseen-other : (w : Text) (cs : List Candidate) → All (λ c. w ≢ c.word) (unseen (w ∷ []) cs)
unseen-other w [] = tt
unseen-other w (c ∷ cs) = elim (Bool-cases (contains (w ∷ []) c.word)) [
  | inl y ↦ rw y (unseen-other w cs)
  | inr n ↦ rw n (ground arith, unseen-other w cs)
]

firsts-distinct : (cs : List Candidate) → Pairwise (λ c d. c.word ≢ d.word) (firsts cs)
firsts-distinct [] = tt
firsts-distinct (c ∷ cs) = (
  unseen-other c.word (firsts cs),
  unseen-distinct (c.word ∷ []) (firsts cs) (firsts-distinct cs),
)

unseen-nil : (cs : List Candidate) → unseen [] cs ≡ cs
unseen-nil [] = refl
unseen-nil (c ∷ cs) = ap (λ t. c ∷ t) (unseen-nil cs)

-- Parse finds, in order, what the lines offer that are not blank, of each word the first only; no
-- two candidates have the same word.
pub parse-firsts :
    (out : Text)
    → (parse out ≡ firsts (offers (split out 0x0a))) × Pairwise (λ c d. c.word ≢ d.word) (parse out)
unfolding parse
parse-firsts out =
    let found = parse_lines-candidates (split out 0x0a) (record { candidates = []; seen = [] }) in
    let all = found ∙ unseen-nil (firsts (offers (split out 0x0a))) in
    (
      all,
      subst (Pairwise (λ c d. c.word ≢ d.word)) (sym all)
          (firsts-distinct (offers (split out 0x0a))),
    )
