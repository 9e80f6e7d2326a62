-- ===== src/Base/Equality.antt =====
-- Python's `==` on keys, as an interface, with its instances.
use Prim.Native.Nat.{ℕ}
use Prim.Native.String.{String}
use mathlib.Core.Path.{◌≡◌, refl}
use mathlib.Core.Logic.{◌↔◌}
use mathlib.Core.Bool.{Bool, true, false, ◌&&◌}
use mathlib.Core.List.{List, [], ◌∷◌}
use native.Mathlib.Omega.{arith}
use text.Mathlib.Text.{◌==◌ as str_eq}
use text.Mathlib.TextEquality.{eq_iff}
use pynchy.Base.Tests.{eqb, eqb_iff}

pub record Eq {ℓ} (A : Type ℓ) : Type ℓ where
  pub equal : A → A → Bool
  pub equal_iff : (a b : A) → (equal a b ≡ true) ↔ (a ≡ b)

instance abbrev pub ℕ-eq : Eq ℕ
ℕ-eq = record { equal = eqb; equal_iff = eqb_iff }

abbrev pub pair_equal {ℓ κ} : {A : Type ℓ} {B : Type κ} → Eq A → Eq B → A × B → A × B → Bool
pair_equal e f (a, b) (c, d) = e.equal a c && f.equal b d

pub pair_equal_iff {ℓ κ} :
    {A : Type ℓ} {B : Type κ} (e : Eq A) (f : Eq B) (p q : A × B)
    → (pair_equal e f p q ≡ true) ↔ (p ≡ q)
pair_equal_iff e f (a, b) (c, d) = ground (arith, e.equal_iff a c, f.equal_iff b d)

instance abbrev pub pair-eq {ℓ κ} : {A : Type ℓ} {B : Type κ} ⦃e : Eq A⦄ ⦃f : Eq B⦄ → Eq (A × B)
pair-eq ⦃e⦄ ⦃f⦄ = record { equal = pair_equal e f; equal_iff = pair_equal_iff e f }

abbrev pub list_equal {ℓ} : {A : Type ℓ} → Eq A → List A → List A → Bool
list_equal e [] [] = true
list_equal e [] (y ∷ ys) = false
list_equal e (x ∷ xs) [] = false
list_equal e (x ∷ xs) (y ∷ ys) = e.equal x y && list_equal e xs ys

pub list_equal_iff {ℓ} :
    {A : Type ℓ} (e : Eq A) (xs ys : List A) → (list_equal e xs ys ≡ true) ↔ (xs ≡ ys)
list_equal_iff e [] [] = (λ _. refl, λ _. refl)
list_equal_iff e [] (y ∷ ys) = (λ h. cc, λ h. cc)
list_equal_iff e (x ∷ xs) [] = (λ h. cc, λ h. cc)
list_equal_iff e (x ∷ xs) (y ∷ ys) = ground (arith, e.equal_iff x y, list_equal_iff e xs ys)

instance abbrev pub list-eq {ℓ} : {A : Type ℓ} ⦃e : Eq A⦄ → Eq (List A)
list-eq ⦃e⦄ = record { equal = list_equal e; equal_iff = list_equal_iff e }

instance abbrev pub String-eq : Eq String
String-eq = record { equal = str_eq; equal_iff = eq_iff }

infix 50 ◌==◌
abbrev pub ◌==◌ {ℓ} : {A : Type ℓ} ⦃e : Eq A⦄ → A → A → Bool
◌==◌ ⦃e⦄ = e.equal

module _ {ℓ} {A : Type ℓ} ⦃e : Eq A⦄ where
  pub equal_refl : (a : A) → (a == a) ≡ true
  equal_refl a = (e.equal_iff a a).1 refl

  pub equal_ne : (a b : A) → (a ≡ b → ⊥) → (a == b) ≡ false
  equal_ne a b h = ground (arith, e.equal_iff a b)
