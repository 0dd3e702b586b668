-- ===== src/Base/Sort.antt =====
-- Go's sort package, as the insertion sort that it agrees with: a stable sort leaves equal
-- elements in the order in which they stood, and so does this one.
use mathlib.Core.Path.{◌≡◌}
use mathlib.Core.Bool.{Bool, true, false}
use mathlib.Core.Logic.{◌⊎◌, inl, inr, ◌↔◌}
use mathlib.Core.List.{List, [], ◌∷◌}
use native.Mathlib.Omega.{arith}
use vibepod.Base.Equality.{if◌then◌else◌}
use vibepod.Base.Lists.{All, All-map, In, Pairwise}

module _ {A : Type 0} (less : A → A → Bool) where
  -- An element goes before the first one that is not to stand before it.
  unfoldable pub insert_by : A → List A → List A
  insert_by x [] = x ∷ []
  insert_by x (y ∷ ys) = if less y x then y ∷ insert_by x ys else x ∷ y ∷ ys

  unfoldable pub sort_by : List A → List A
  unfolding insert_by
  sort_by [] = []
  sort_by (x ∷ xs) = insert_by x (sort_by xs)

  -- No element is to stand before one that it stands behind.
  abbrev pub IsSorted : List A → Type 0
  IsSorted [] = Unit
  IsSorted (x ∷ xs) = All (λ y. less y x ≡ false) xs × IsSorted xs

  insert_step :
      (x y : A) (ys : List A)
      → ((less y x ≡ true) × (insert_by x (y ∷ ys) ≡ y ∷ insert_by x ys))
        ⊎ ((less y x ≡ false) × (insert_by x (y ∷ ys) ≡ x ∷ y ∷ ys))
  unfolding insert_by
  insert_step x y ys = ground arith

  In-insert_by : (a x : A) (xs : List A) → In a (insert_by x xs) ↔ ((a ≡ x) ⊎ In a xs)
  In-insert_by a x [] = unfold insert_by in (λ h. h, λ h. h)
  In-insert_by a x (y ∷ ys) = elim (insert_step x y ys) [
    | inl (_, e) ↦ rw e (swap_head (In-insert_by a x ys))
    | inr (_, e) ↦ rw e (λ h. h, λ h. h)
  ]
    where
      swap_head :
          In a (insert_by x ys) ↔ ((a ≡ x) ⊎ In a ys)
          → ((a ≡ y) ⊎ In a (insert_by x ys)) ↔ ((a ≡ x) ⊎ (a ≡ y) ⊎ In a ys)
      swap_head ih = ground arith

  -- Sorting keeps every element and adds none.
  pub In-sort_by : (a : A) (xs : List A) → In a (sort_by xs) ↔ In a xs
  unfolding sort_by
  In-sort_by a [] = (λ h. h, λ h. h)
  In-sort_by a (x ∷ xs) = ground (arith, In-insert_by a x (sort_by xs), In-sort_by a xs)

  All-insert_by {ℓ} :
      (P : A → Type ℓ) (x : A) (xs : List A) → P x → All P xs → All P (insert_by x xs)
  All-insert_by P x [] hx h = unfold insert_by in (hx, tt)
  All-insert_by P x (y ∷ ys) hx (hy, h) = elim (insert_step x y ys) [
    | inl (_, e) ↦ rw e (hy, All-insert_by P x ys hx h)
    | inr (_, e) ↦ rw e (hx, (hy, h))
  ]

  -- What holds between any two elements, whichever comes first, still does.
  Pairwise-insert_by :
      (R : A → A → Type 0)
      → ((a b : A) → R a b → R b a)
      → (x : A) (xs : List A) → All (R x) xs
      → Pairwise R xs
      → Pairwise R (insert_by x xs)
  Pairwise-insert_by R flip x [] h k = unfold insert_by in (tt, tt)
  Pairwise-insert_by R flip x (y ∷ ys) (hy, h) (ky, k) = elim (insert_step x y ys) [
    | inl (_, e) ↦
        rw e (All-insert_by (R y) x ys (flip x y hy) ky, Pairwise-insert_by R flip x ys h k)
    | inr (_, e) ↦ rw e ((hy, h), (ky, k))
  ]

  All-sort_by {ℓ} : (P : A → Type ℓ) (xs : List A) → All P xs → All P (sort_by xs)
  unfolding sort_by
  All-sort_by P [] h = tt
  All-sort_by P (x ∷ xs) (px, h) = All-insert_by P x (sort_by xs) px (All-sort_by P xs h)

  pub sort_by-Pairwise :
      (R : A → A → Type 0)
      → ((a b : A) → R a b → R b a)
      → (xs : List A) → Pairwise R xs
      → Pairwise R (sort_by xs)
  unfolding sort_by
  sort_by-Pairwise R flip [] h = tt
  sort_by-Pairwise R flip (x ∷ xs) (hx, h) =
      Pairwise-insert_by R flip x (sort_by xs) (All-sort_by (R x) xs hx)
        (sort_by-Pairwise R flip xs h)

  -- Sorting sorts, by a strict order for which being incomparable is transitive.
  module _ (asym : (a b : A) → less a b ≡ true → less b a ≡ false)
      (cotrans : (a b c : A) → less b a ≡ false → less c b ≡ false → less c a ≡ false) where
    insert_by-IsSorted : (x : A) (xs : List A) → IsSorted xs → IsSorted (insert_by x xs)
    insert_by-IsSorted x [] h = unfold insert_by in (tt, tt)
    insert_by-IsSorted x (y ∷ ys) (hy, h) = elim (insert_step x y ys) [
      | inl (lt, e) ↦
          rw e
            (All-insert_by (λ z. less z y ≡ false) x ys (asym y x lt) hy, insert_by-IsSorted x ys h)
      | inr (ge, e) ↦ rw e ((ge, All-map (λ z hz. cotrans x y z ge hz) ys hy), (hy, h))
    ]

    pub sort_by-IsSorted : (xs : List A) → IsSorted (sort_by xs)
    unfolding sort_by
    sort_by-IsSorted [] = tt
    sort_by-IsSorted (x ∷ xs) = insert_by-IsSorted x (sort_by xs) (sort_by-IsSorted xs)
