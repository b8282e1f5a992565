-- ===== src/Common/Sort.antt =====
-- Sorting by a Boolean order, as `ORDER BY` and `toSorted` do.
use drfed.Common.{
  ◌≡◌, ◌⊎◌, inl, inr, refl, ap, ◌∙◌, Bool, true, List, [], ◌∷◌, arith, if◌then◌else◌, Bool-cases,
}

module _ {ℓ} {A : Type ℓ} where
  abbrev pub insert_by : (A → A → Bool) → A → List A → List A
  insert_by le x [] = x ∷ []
  insert_by le x (y ∷ ys) = let rest = insert_by le x ys in if le x y then x ∷ y ∷ ys else y ∷ rest

  abbrev pub sort_by : (A → A → Bool) → List A → List A
  sort_by le [] = []
  sort_by le (x ∷ xs) = insert_by le x (sort_by le xs)

  -- Each element is below the next one.
  abbrev pub IsSorted : (A → A → Bool) → List A → Type 0
  IsSorted le [] = Unit
  IsSorted le (x ∷ []) = Unit
  IsSorted le (x ∷ y ∷ r) = (le x y ≡ true) × IsSorted le (y ∷ r)

  module _ (le : A → A → Bool) where
    -- Sorting leaves a sorted list alone.
    pub sort_by-IsSorted_eq : (l : List A) → IsSorted le l → sort_by le l ≡ l
    sort_by-IsSorted_eq [] h = refl
    sort_by-IsSorted_eq (x ∷ []) h = refl
    sort_by-IsSorted_eq (x ∷ y ∷ r) h =
        ap (insert_by le x) (sort_by-IsSorted_eq (y ∷ r) h.1) ∙ ground (arith, h.0)

    module _ (total : (a b : A) → (le a b ≡ true) ⊎ (le b a ≡ true)) where
      insert_by-below :
          (x y : A) (l : List A)
          → le y x ≡ true
          → IsSorted le (y ∷ l)
          → IsSorted le (y ∷ insert_by le x l)
      insert_by-below x y [] e h = (e, tt)
      insert_by-below x y (z ∷ r) e h = elim (Bool-cases (le x z)) [
        | inl below ↦ rw below (e, (below, h.1))
        | inr above ↦ rw above (h.0, insert_by-below x z r (ground (arith, above, total x z)) h.1)
      ]

      insert_by-IsSorted : (x : A) (l : List A) → IsSorted le l → IsSorted le (insert_by le x l)
      insert_by-IsSorted x [] h = tt
      insert_by-IsSorted x (y ∷ r) h = elim (Bool-cases (le x y)) [
        | inl below ↦ rw below (below, h)
        | inr above ↦ rw above (insert_by-below x y r (ground (arith, above, total x y)) h)
      ]

      pub sort_by-IsSorted : (l : List A) → IsSorted le (sort_by le l)
      sort_by-IsSorted [] = tt
      sort_by-IsSorted (x ∷ xs) = insert_by-IsSorted x (sort_by le xs) (sort_by-IsSorted xs)

      -- Sorting twice is sorting once.
      pub sort_by_idem : (l : List A) → sort_by le (sort_by le l) ≡ sort_by le l
      sort_by_idem l = sort_by-IsSorted_eq (sort_by le l) (sort_by-IsSorted l)
