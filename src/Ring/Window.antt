-- ===== src/Ring/Window.antt =====
-- internal/term/ring.go: the buffer of a ring as a window on all that was written to it.
use vibepod.Base.{ℕ, zero, suc, ◌-◌, ◌≤◌, ◌<◌, ◌≡◌, refl, sym, ap, ◌∙◌, ◌⊎◌, inl, inr}
use vibepod.Base.{true, false, [], ◌∷◌, ◌++◌, Text}
use vibepod.Base.{nat_eq, length, take, drop, length-append, length-drop, arith}
use vibepod.Base.{drop-append_le, Bool-cases}
use vibepod.Ring.Defs.{Ring, new_ring, snapshot, set, replicate}

-- The last `n` bytes of a text, or all of it.
abbrev pub last : ℕ → Text → Text
last n all = drop (length all - n) all

take-append_self : (a b : Text) → take (length a) (a ++ b) ≡ a
take-append_self [] [] = refl
take-append_self [] (x ∷ b) = refl
take-append_self (x ∷ a) b = ap (λ t. x ∷ t) (take-append_self a b)

drop-append_self : (a b : Text) → drop (length a) (a ++ b) ≡ b
drop-append_self [] b = refl
drop-append_self (x ∷ a) b = drop-append_self a b

pub set-append_self : (a : Text) (x b : ℕ) (c : Text) → set (a ++ x ∷ c) (length a) b ≡ a ++ b ∷ c
set-append_self [] x b c = refl
set-append_self (y ∷ a) x b c = ap (λ t. y ∷ t) (set-append_self a x b c)

length-replicate : (n b : ℕ) → length (replicate n b) ≡ n
length-replicate zero b = refl
length-replicate (suc n) b = ap suc (length-replicate n b)

drop-drop : (n : ℕ) (xs : Text) (x : ℕ) (ys : Text) → drop n xs ≡ x ∷ ys → drop (suc n) xs ≡ ys
drop-drop zero [] x ys h = absurd (cc)
drop-drop zero (a ∷ xs) x ys h = cc
drop-drop (suc n) [] x ys h = absurd (cc)
drop-drop (suc n) (a ∷ xs) x ys h = drop-drop n xs x ys h

-- The ring, with `all` written to it so far: what stands before and behind the write position.
pub record Holds (r : Ring) (all : Text) : Type 0 where
  pub front : Text
  pub back : Text
  pub buffer : r.buf ≡ front ++ back
  pub at : length front ≡ r.pos
  pub sized : length r.buf ≡ r.size
  pub room : (r.pos < r.size) ⊎ (r.size ≡ 0)
  pub wrapped : r.full ≡ true → (last r.size all ≡ back ++ front) × (r.size ≤ length all)
  pub partial : r.full ≡ false → all ≡ front

pub new_ring-Holds : (size : ℕ) → Holds (new_ring size) []
unfolding new_ring
new_ring-Holds size = record {
  front = [];
  back = replicate size 0;
  buffer = refl;
  at = refl;
  sized = length-replicate size 0;
  room = grind arith;
  wrapped = λ h. absurd (cc);
  partial = λ h. refl;
}

ahead : {r : Ring} {all : Text} (h : Holds r all) → take r.pos r.buf ≡ h.front
ahead {r} h =
    ap (take r.pos) h.buffer
    ∙ ap (λ k. take k (h.front ++ h.back)) (sym h.at)
    ∙ take-append_self h.front h.back

behind : {r : Ring} {all : Text} (h : Holds r all) → drop r.pos r.buf ≡ h.back
behind {r} h =
    ap (drop r.pos) h.buffer
    ∙ ap (λ k. drop k (h.front ++ h.back)) (sym h.at)
    ∙ drop-append_self h.front h.back

pub last_of_short : (n : ℕ) (all : Text) → length all ≤ n → last n all ≡ all
last_of_short n all h = ap (λ k. drop k all) {y = 0} (omega arith)

front_short : {r : Ring} {all : Text} (h : Holds r all) → length h.front ≤ r.size
front_short {r} h = omega (arith, ap length h.buffer, h.sized, length-append h.front h.back)

-- What the ring shows is the last `size` bytes of what was written.
pub snapshot-Holds : {r : Ring} {all : Text} → Holds r all → snapshot r ≡ last r.size all
unfolding snapshot
snapshot-Holds {r} {all} h = elim (Bool-cases r.full) [
  | inl e ↦ ground (arith, ahead h, behind h, h.wrapped e)
  | inr e ↦ ground (arith, ahead h, h.partial e, last_of_short r.size h.front (front_short h))
]

pub last_snoc :
    (n : ℕ) (all : Text) (x b : ℕ) (ys : Text)
    → n ≤ length all
    → last n all ≡ x ∷ ys
    → last n (all ++ b ∷ []) ≡ ys ++ b ∷ []
last_snoc n all x b ys le h =
    let few : suc (length all - n) ≤ length all =
      omega (arith, ap length h, length-drop (length all - n) all) in
    ap (λ k. drop k (all ++ b ∷ [])) {y = suc (length all - n)}
      (omega (arith, length-append all (b ∷ [])))
    ∙ drop-append_le (suc (length all - n)) all (b ∷ []) few
    ∙ ap (λ t. t ++ b ∷ []) (drop-drop (length all - n) all x ys h)

pub length-set : (xs : Text) (i b : ℕ) → length (set xs i b) ≡ length xs
length-set [] i b = refl
length-set (x ∷ xs) zero b = refl
length-set (x ∷ xs) (suc i) b = ap suc (length-set xs i b)
