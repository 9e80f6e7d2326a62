-- ===== src/Base/Sorting.antt =====
-- What `sort_by` gives: the same elements, in order.
use mathlib.Core.Path.{◌≡◌, refl}
use mathlib.Core.Bool.{Bool, true, false, ◌&&◌}
use mathlib.Core.Logic.{inl, inr}
use mathlib.Core.List.{List, [], ◌∷◌}
use native.Mathlib.Omega.{arith}
use pynchy.Base.Tests.{Bool-cases}
use pynchy.Base.Lists.{all, all-last, last, place, sort_by}

module _ {ℓ} {A : Type ℓ} (le : A → A → Bool) where
  all-place : (p : A → Bool) (x : A) (ys : List A) → all p (place le x ys) ≡ (p x && all p ys)
  all-place p x [] = refl
  all-place p x (y ∷ ys) = ground (arith, all-place p x ys)

  pub all-sort_by : (p : A → Bool) (xs : List A) → all p (sort_by le xs) ≡ all p xs
  all-sort_by p [] = refl
  all-sort_by p (x ∷ xs) = ground (arith, all-place p x (sort_by le xs), all-sort_by p xs)

  abbrev pub is_sorted : List A → Bool
  is_sorted [] = true
  is_sorted (x ∷ xs) = all (le x) xs && is_sorted xs

  module _ (total : (x y : A) → le x y ≡ false → le y x ≡ true)
      (trans : (x y z : A) → le x y ≡ true → le y z ≡ true → le x z ≡ true) where
    all_trans :
        (x y : A) (ys : List A) → le x y ≡ true → all (le y) ys ≡ true → all (le x) ys ≡ true
    all_trans x y [] h k = refl
    all_trans x y (z ∷ ys) h k = ground (arith, h, k, trans x y z, all_trans x y ys)

    place-is_sorted : (x : A) (ys : List A) → is_sorted ys ≡ true → is_sorted (place le x ys) ≡ true
    place-is_sorted x [] h = refl
    place-is_sorted x (y ∷ ys) h = elim (Bool-cases (le x y)) [
      | inl le_xy ↦ ground (arith, h, le_xy, all_trans x y ys le_xy)
      | inr n ↦ ground (arith, h, n, total x y n, all-place (le y) x ys, place-is_sorted x ys)
    ]

    pub sort_by-is_sorted : (xs : List A) → is_sorted (sort_by le xs) ≡ true
    sort_by-is_sorted [] = refl
    sort_by-is_sorted (x ∷ xs) = place-is_sorted x (sort_by le xs) (sort_by-is_sorted xs)

    reflexive : (x : A) → le x x ≡ true
    reflexive x = elim (Bool-cases (le x x)) [ inl y ↦ y | inr n ↦ total x x n ]

    -- All elements of a sorted list are at or before the last.
    pub sorted-last :
        (x : A) (xs : List A)
        → is_sorted (x ∷ xs) ≡ true
        → all (λ y. le y (last x xs)) (x ∷ xs) ≡ true
    sorted-last x [] h = ground (arith, reflexive x)
    sorted-last x (y ∷ ys) h =
        let here : le x (last y ys) ≡ true = all-last (le x) y ys (ground (arith, h)) in
        let rest = sorted-last y ys (ground (arith, h)) in ground (arith, here, rest)
