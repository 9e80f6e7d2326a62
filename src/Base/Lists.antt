-- ===== src/Base/Lists.antt =====
-- Lists: length over the native numbers, membership and de-duplication by `==`.
use Prim.Native.Nat.{ℕ, zero, suc, ◌+◌}
use mathlib.Core.Path.{◌≡◌, refl, ap}
use mathlib.Core.Bool.{Bool, true, false, ◌||◌, not, ◌&&◌}
use mathlib.Core.Option.{Option, none, some}
use mathlib.Core.Logic.{inl, inr}
use mathlib.Core.List.{List, [], ◌∷◌, ◌++◌, map}
use native.Mathlib.Omega.{arith}
use pynchy.Base.Tests.{if◌then◌else◌, Option-cases}
use pynchy.Base.Equality.{Eq, ◌==◌}

module _ {ℓ} {A : Type ℓ} where
  abbrev pub length : List A → ℕ
  length [] = 0
  length (x ∷ xs) = suc (length xs)

  abbrev pub take : ℕ → List A → List A
  take zero xs = []
  take (suc n) [] = []
  take (suc n) (x ∷ xs) = x ∷ take n xs

  abbrev pub drop : ℕ → List A → List A
  drop zero xs = xs
  drop (suc n) [] = []
  drop (suc n) (x ∷ xs) = drop n xs

  -- `xs[-1]` of a list that is not empty.
  abbrev pub last : A → List A → A
  last x [] = x
  last x (y ∷ ys) = last y ys

  -- `any(p(x) for x in xs)` and `all(p(x) for x in xs)`
  abbrev pub any : (A → Bool) → List A → Bool
  any p [] = false
  any p (x ∷ xs) = p x || any p xs

  abbrev pub all : (A → Bool) → List A → Bool
  all p [] = true
  all p (x ∷ xs) = p x && all p xs

  -- `[x for x in xs if p(x)]`
  abbrev pub keep : (A → Bool) → List A → List A
  keep p [] = []
  keep p (x ∷ xs) = if p x then x ∷ keep p xs else keep p xs

  -- `sorted` by an order `le`, which keeps the order of equal elements.
  abbrev pub place : (A → A → Bool) → A → List A → List A
  place le x [] = x ∷ []
  place le x (y ∷ ys) = if le x y then x ∷ y ∷ ys else y ∷ place le x ys

  abbrev pub sort_by : (A → A → Bool) → List A → List A
  sort_by le [] = []
  sort_by le (x ∷ xs) = place le x (sort_by le xs)

  any-place :
      (le : A → A → Bool) (p : A → Bool) (x : A) (ys : List A)
      → any p (place le x ys) ≡ (p x || any p ys)
  any-place le p x [] = refl
  any-place le p x (y ∷ ys) = ground (arith, any-place le p x ys)

  pub any-sort_by :
      (le : A → A → Bool) (p : A → Bool) (xs : List A) → any p (sort_by le xs) ≡ any p xs
  any-sort_by le p [] = refl
  any-sort_by le p (x ∷ xs) = ground (arith, any-place le p x (sort_by le xs), any-sort_by le p xs)

  pub any-keep : (p q : A → Bool) (xs : List A) → any p (keep q xs) ≡ any (λ x. q x && p x) xs
  any-keep p q [] = refl
  any-keep p q (x ∷ xs) = ground (arith, any-keep p q xs)

  pub all_kept : (p : A → Bool) (xs : List A) → all p (keep p xs) ≡ true
  all_kept p [] = refl
  all_kept p (x ∷ xs) = ground (arith, all_kept p xs)

  pub all-last : (p : A → Bool) (x : A) (xs : List A) → all p (x ∷ xs) ≡ true → p (last x xs) ≡ true
  all-last p x [] h = ground (arith, h)
  all-last p x (y ∷ ys) h = all-last p y ys (ground (arith, h))

  pub append_nil : (xs : List A) → xs ++ [] ≡ xs
  append_nil [] = refl
  append_nil (x ∷ xs) = ap (λ l. x ∷ l) (append_nil xs)

  pub append_assoc : (xs ys zs : List A) → (xs ++ ys) ++ zs ≡ xs ++ (ys ++ zs)
  append_assoc [] ys zs = refl
  append_assoc (x ∷ xs) ys zs = ap (λ l. x ∷ l) (append_assoc xs ys zs)

  pub length-append : (xs ys : List A) → length (xs ++ ys) ≡ length xs + length ys
  length-append [] ys = omega arith
  length-append (x ∷ xs) ys = omega (arith, length-append xs ys)

module _ {ℓ} {A : Type ℓ} ⦃e : Eq A⦄ where
  -- `a in xs`
  abbrev pub contains : A → List A → Bool
  contains a [] = false
  contains a (x ∷ xs) = (x == a) || contains a xs

  -- no element twice
  abbrev pub distinct : List A → Bool
  distinct [] = true
  distinct (x ∷ xs) = not (contains x xs) && distinct xs

  pub contains-append :
      (a : A) (xs ys : List A) → contains a (xs ++ ys) ≡ (contains a xs || contains a ys)
  contains-append a [] ys = refl
  contains-append a (x ∷ xs) ys = ground (arith, contains-append a xs ys)

  pub distinct_snoc :
      (a : A) (xs : List A)
      → distinct xs ≡ true
      → contains a xs ≡ false
      → distinct (xs ++ a ∷ []) ≡ true
  distinct_snoc a [] h k = refl
  distinct_snoc a (x ∷ xs) h k =
      ground
        (arith, distinct_snoc a xs, contains-append x xs (a ∷ []), e.equal_iff a x, e.equal_iff x a)

module _ {ℓ} {A : Type ℓ} where
  abbrev add_front : A → Option (A × List A) → Option (A × List A)
  add_front x none = none
  add_front x (some (y, rest)) = some (y, x ∷ rest)

  -- The element at a position, with the list that is left without it.
  abbrev pub pick : ℕ → List A → Option (A × List A)
  pick i [] = none
  pick zero (x ∷ xs) = some (x, xs)
  pick (suc i) (x ∷ xs) = add_front x (pick i xs)

  pub length-pick :
      (i : ℕ) (xs : List A) {x : A} {rest : List A}
      → pick i xs ≡ some (x, rest)
      → length xs ≡ suc (length rest)
  length-pick i [] h = cc
  length-pick zero (x ∷ xs) h = ground arith
  length-pick (suc i) (x ∷ xs) h = elim (Option-cases (pick i xs)) [
    | inl e ↦ ground (arith, e)
    | inr (p, e) ↦ ground (arith, e, length-pick i xs {x = p.0} {rest = p.1} e)
  ]

-- What is left by `keep` and by `pick`, seen through a function `f` of the elements.
module _ {ℓ κ} {A : Type ℓ} {B : Type κ} ⦃e : Eq B⦄ (f : A → B) where
  pub contains-pick :
      (i : ℕ) (xs : List A) {x : A} {rest : List A} (b : B)
      → pick i xs ≡ some (x, rest)
      → contains b (map f xs) ≡ ((f x == b) || contains b (map f rest))
  contains-pick i [] b h = cc
  contains-pick zero (x ∷ xs) b h = ground arith
  contains-pick (suc i) (x ∷ xs) b h = elim (Option-cases (pick i xs)) [
    | inl k ↦ ground (arith, k)
    | inr (p, k) ↦ ground (arith, k, contains-pick i xs {x = p.0} {rest = p.1} b k)
  ]

  contains-keep :
      (p : A → Bool) (b : B) (xs : List A)
      → contains b (map f xs) ≡ false
      → contains b (map f (keep p xs)) ≡ false
  contains-keep p b [] h = refl
  contains-keep p b (x ∷ xs) h = ground (arith, h, contains-keep p b xs)

  pub distinct-keep :
      (p : A → Bool) (xs : List A)
      → distinct (map f xs) ≡ true
      → distinct (map f (keep p xs)) ≡ true
  distinct-keep p [] h = refl
  distinct-keep p (x ∷ xs) h = ground (arith, h, distinct-keep p xs, contains-keep p (f x) xs)

  pub distinct-pick :
      (i : ℕ) (xs : List A) {x : A} {rest : List A}
      → pick i xs ≡ some (x, rest)
      → distinct (map f xs) ≡ true
      → (distinct (map f rest) ≡ true) × (contains (f x) (map f rest) ≡ false)
  distinct-pick i [] h d = cc
  distinct-pick zero (x ∷ xs) h d = ground arith
  distinct-pick (suc i) (x ∷ xs) h d = elim (Option-cases (pick i xs)) [
    | inl k ↦ ground (arith, k)
    | inr (p, k) ↦ ground (
      arith,
      k,
      distinct-pick i xs {x = p.0} {rest = p.1} k,
      contains-pick i xs {x = p.0} {rest = p.1} (f x) k,
      e.equal_iff (f x) (f p.0),
      e.equal_iff (f p.0) (f x),
    )
  ]
