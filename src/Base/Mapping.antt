-- ===== src/Base/Mapping.antt =====
-- Python's `dict`: an association list in insertion order; an assignment keeps the key's place.
use mathlib.Core.Path.{◌≡◌, refl}
use mathlib.Core.Option.{Option, none, some}
use mathlib.Core.List.{List, [], ◌∷◌, map}
use native.Mathlib.Omega.{arith}
use pynchy.Base.Tests.{if◌then◌else◌}
use pynchy.Base.Equality.{Eq, ◌==◌}

abbrev pub Dict {ℓ κ} : Type ℓ → Type κ → Type (ℓ ⊔ κ)
Dict K V = List (K × V)

-- `d.get(k, default)`, from the answer of `d.get(k)`
abbrev pub or_else {ℓ} : {A : Type ℓ} → Option A → A → A
or_else none d = d
or_else (some a) d = a

module _ {ℓ κ} {K : Type ℓ} {V : Type κ} ⦃e : Eq K⦄ where
  -- d[k] = v
  unfoldable pub insert : K → V → Dict K V → Dict K V
  insert key new [] = (key, new) ∷ []
  insert key new ((k, v) ∷ d) = if k == key then (k, new) ∷ d else (k, v) ∷ insert key new d

  -- d.pop(k, None)
  unfoldable pub remove : K → Dict K V → Dict K V
  remove k [] = []
  remove k ((j, w) ∷ m) = if j == k then remove k m else (j, w) ∷ remove k m

  -- d.get(k)
  unfoldable pub lookup : K → Dict K V → Option V
  lookup key [] = none
  lookup key ((k, v) ∷ d) = if k == key then some v else lookup key d

  pub lookup-remove :
      (key other : K) (d : Dict K V)
      → lookup other (remove key d) ≡ (if key == other then none else lookup other d)
  unfolding lookup remove
  lookup-remove key other [] = ground arith
  lookup-remove key other ((k, v) ∷ d) = ground (
    arith,
    e.equal_iff k key,
    e.equal_iff k other,
    e.equal_iff key other,
    lookup-remove key other d,
  )

  pub lookup-insert :
      (key other : K) (new : V) (d : Dict K V)
      → lookup other (insert key new d) ≡ (if key == other then some new else lookup other d)
  unfolding lookup insert
  lookup-insert key other new [] = refl
  lookup-insert key other new ((k, v) ∷ d) = ground (
    arith,
    e.equal_iff k key,
    e.equal_iff k other,
    e.equal_iff key other,
    lookup-insert key other new d,
  )

-- d.keys(), d.values()
abbrev pub keys {ℓ κ} : {K : Type ℓ} {V : Type κ} → Dict K V → List K
keys = map (λ p. p.0)

abbrev pub values {ℓ κ} : {K : Type ℓ} {V : Type κ} → Dict K V → List V
values = map (λ p. p.1)
