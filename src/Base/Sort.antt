-- ===== src/Base/Sort.antt =====
-- A stable sort by a test: an element goes before the first one that it is less than.
use Prim.Native.Nat.{ℕ, suc, ◌+◌}
use mathlib.Core.Path.{◌≡◌, refl}
use mathlib.Core.Logic.{inl, inr}
use mathlib.Core.Bool.{Bool}
use mathlib.Core.List.{List, [], ◌∷◌}
use native.Mathlib.Omega.{arith}
use chess_engine.Base.Tests.{if◌then◌else◌, Bool-cases}
use chess_engine.Base.Lists.{length, All}

-- The sum of the elements' weights.
unfoldable pub weigh : {A : Type 0} → (A → ℕ) → List A → ℕ
weigh weight [] = 0
weigh weight (x ∷ xs) = weight x + weigh weight xs

module _ {A : Type 0} (less : A → A → Bool) where
  unfoldable pub insert_by : A → List A → List A
  insert_by a [] = a ∷ []
  insert_by a (x ∷ xs) = let rest = insert_by a xs in if less x a then x ∷ rest else a ∷ x ∷ xs

  -- From the back: an element goes before its equals, which stood behind it.
  unfoldable pub sort_by : List A → List A
  unfolding insert_by
  sort_by [] = []
  sort_by (a ∷ xs) = insert_by a (sort_by xs)

  insert_by-All : (P : A → Type 0) (a : A) (xs : List A) → P a → All P xs → All P (insert_by a xs)
  unfolding insert_by
  insert_by-All P a [] ha h = (ha, tt)
  insert_by-All P a (x ∷ xs) ha h = elim (Bool-cases (less x a)) [
    | inl first ↦ rw (first, All) (h.0, insert_by-All P a xs ha h.1)
    | inr after ↦ rw (after, All) (ha, h)
  ]

  pub sort_by-All : (P : A → Type 0) (xs : List A) → All P xs → All P (sort_by xs)
  unfolding sort_by
  sort_by-All P [] h = tt
  sort_by-All P (a ∷ xs) h = insert_by-All P a (sort_by xs) h.0 (sort_by-All P xs h.1)

  length-insert_by : (a : A) (xs : List A) → length (insert_by a xs) ≡ suc (length xs)
  unfolding insert_by
  length-insert_by a [] = refl
  length-insert_by a (x ∷ xs) = ground (arith, length-insert_by a xs)

  pub length-sort_by : (xs : List A) → length (sort_by xs) ≡ length xs
  unfolding sort_by
  length-sort_by [] = refl
  length-sort_by (a ∷ xs) = ground (arith, length-insert_by a (sort_by xs), length-sort_by xs)

  -- A sum of weights does not depend on the order.
  module _ (weight : A → ℕ) where
    weigh-insert_by :
        (a : A) (xs : List A) → weigh weight (insert_by a xs) ≡ weight a + weigh weight xs
    unfolding weigh insert_by
    weigh-insert_by a [] = refl
    weigh-insert_by a (x ∷ xs) = ground (arith, weigh-insert_by a xs)

    pub weigh-sort_by : (xs : List A) → weigh weight (sort_by xs) ≡ weigh weight xs
    unfolding weigh sort_by
    weigh-sort_by [] = refl
    weigh-sort_by (a ∷ xs) = ground (arith, weigh-insert_by a (sort_by xs), weigh-sort_by xs)
