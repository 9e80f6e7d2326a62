-- ===== src/Config/Reach.antt =====
-- Users that a list of entries grants, and what the walk of access.py has done for an entry.
use pynchy.Base.{
  Bool, Bool-cases, Dict, List, Option, Text, [], all, ap, arith, codes, contains, equal_refl,
  false, if◌then◌else◌, inl, inr, keep, length, list-eq, lookup, none, not, refl, some, subst, suc,
  sym, true, ℕ, ℕ-eq, ◌&&◌, ◌==◌, ◌∙◌, ◌∷◌, ◌≡◌, ◌≤◌, ◌⊎◌,
}
use pynchy.Config.Users.{add, add_some}

-- How many groups the walk has not seen.
abbrev pub unseen : Dict Text (List Text) → List Text → ℕ
unseen groups seen = length (keep (λ g. not (contains g.0 seen)) groups)

abbrev pub Within : List Text → List Text → Type 0
Within xs ys = (a : Text) → contains a xs ≡ true → contains a ys ≡ true

pub unseen-Within :
    (groups : Dict Text (List Text)) (s s' : List Text)
    → Within s s'
    → unseen groups s' ≤ unseen groups s
unseen-Within [] s s' w = omega arith
unseen-Within (g ∷ gs) s s' w = ground (arith, unseen-Within gs s s' w, w g.0)

pub grows : (x : Text) (xs : List Text) → Within xs (x ∷ xs)
grows x xs a h = ground (arith, h)

pub unseen-enter :
    (groups : Dict Text (List Text)) (g : Text) (s members : List Text)
    → contains g s ≡ false
    → lookup g groups ≡ some members
    → suc (unseen groups (g ∷ s)) ≤ unseen groups s
unfolding lookup
unseen-enter [] g s members n e = cc
unseen-enter ((k, v) ∷ gs) g s members n e = elim (Bool-cases (k == g)) [
  | inl y ↦
      let same : k ≡ g = (list-eq.equal_iff k g).0 y in
      let first : contains k s ≡ false = ap (λ x. contains {A = Text} x s) same ∙ n in
      let back : (g == k) ≡ true = (list-eq.equal_iff g k).1 (sym same) in
      let rest = unseen-Within gs s (g ∷ s) (grows g s) in ground (arith, first, back, rest)
  | inr other ↦
      let later = unseen-enter gs g s members n (ground (arith, e, other)) in
      ground (arith, later, list-eq.equal_iff g k, list-eq.equal_iff k g)
]

abbrev pub star : Text
star = codes "*"

abbrev pub is_group : Text → Bool
is_group e = not (e == star) && not (e == codes "owner") && not (contains b':' e)

abbrev pub owner_in : Option Text → List Text → Bool
owner_in none result = true
owner_in (some x) result = contains x result

-- What the walk has done for an entry.
abbrev pub handled : Option Text → List Text → List Text → Text → Bool
handled owner result seen e =
    if e == codes "owner"
    then owner_in owner result
    else if contains b':' e
    then contains e result
    else contains e seen

pub handled_mono :
    (owner : Option Text) (r s r' s' : List Text) (e : Text)
    → Within r r'
    → Within s s'
    → handled owner r s e ≡ true
    → handled owner r' s' e ≡ true
handled_mono none r s r' s' e wr ws h = ground (arith, wr e, ws e, h)
handled_mono (some x) r s r' s' e wr ws h = ground (arith, wr x, wr e, ws e, h)

pub all-handled_mono :
    (owner : Option Text) (r s r' s' : List Text) (es : List Text)
    → Within r r'
    → Within s s'
    → all (handled owner r s) es ≡ true
    → all (handled owner r' s') es ≡ true
all-handled_mono owner r s r' s' [] wr ws h = refl
all-handled_mono owner r s r' s' (e ∷ es) wr ws h =
    ground
      (arith, handled_mono owner r s r' s' e wr ws, all-handled_mono owner r s r' s' es wr ws, h)

pub Within-add : (x : Text) (r : List Text) → Within r (add x r)
Within-add x r a h = ground (arith, h)

pub contains-add : (x : Text) (r : List Text) → contains x (add x r) ≡ true
contains-add x r = elim (Bool-cases (contains x r)) [
  | inl y ↦ ground (arith, y)
  | inr n ↦ ground (arith, n, equal_refl x)
]

pub add-adds :
    (x a : Text) (r : List Text) → contains a (add x r) ≡ true → (contains a r ≡ true) ⊎ (x ≡ a)
add-adds x a r h = elim (Bool-cases (contains a r)) [
  | inl y ↦ inl y
  | inr n ↦ inr ((list-eq.equal_iff x a).0 (ground (arith, n, h)))
]

pub Within-add_some : (o : Option Text) (r : List Text) → Within r (add_some o r)
Within-add_some none r a h = h
Within-add_some (some x) r a h = Within-add x r a h

pub owner_in-add_some : (o : Option Text) (r : List Text) → owner_in o (add_some o r) ≡ true
owner_in-add_some none r = refl
owner_in-add_some (some x) r = contains-add x r

pub add_some-adds :
    (o : Option Text) (a : Text) (r : List Text)
    → contains a (add_some o r) ≡ true
    → (contains a r ≡ true) ⊎ (o ≡ some a)
add_some-adds none a r h = inl h
add_some-adds (some x) a r h = elim (add-adds x a r h) [ inl y ↦ inl y | inr e ↦ inr (ap some e) ]

pub first_then : {A B C : Type 0} → A ⊎ B → (A → C) → (B → C) → C
first_then (inl a) f g = f a
first_then (inr b) f g = g b

pub unsome {ℓ} : {A : Type ℓ} (a b : A) → some a ≡ some b → a ≡ b
unsome a b h = cc

pub clean-lookup :
    (groups : Dict Text (List Text)) (g : Text) (members : List Text)
    → all (λ p. not (contains star p.1)) groups ≡ true
    → lookup g groups ≡ some members
    → contains star members ≡ false
unfolding lookup
clean-lookup [] g members c l = cc
clean-lookup ((k, v) ∷ gs) g members c l = elim (Bool-cases (k == g)) [
  | inl y ↦
      let same = unsome v members (ground (arith, y, l)) in
      subst (λ x. contains {A = Text} star x ≡ false) same (ground (arith, c))
  | inr n ↦ clean-lookup gs g members (ground (arith, c)) (ground (arith, n, l))
]

pub unseen-none : (groups : Dict Text (List Text)) → unseen groups [] ≤ length groups
unseen-none [] = omega arith
unseen-none (g ∷ gs) = ground (arith, unseen-none gs)

-- No group has the star among its members.
abbrev pub clean : Dict Text (List Text) → Bool
clean groups = all (λ g. not (contains star g.1)) groups

module _ (groups : Dict Text (List Text)) (owner : Option Text) where
  -- The users that a list of entries grants: the ids in it, the owner, and what the members of a
  -- group in it grant.
  pub data Granted : List Text → Text → Type 0 where
    named :
        {entries : List Text} {u : Text}
        → contains u entries ≡ true
        → contains b':' u ≡ true
        → Granted entries u
    owned :
        {entries : List Text} {u : Text}
        → contains (codes "owner") entries ≡ true
        → owner ≡ some u
        → Granted entries u
    through :
        {entries : List Text} {u : Text} (g : Text) (members : List Text)
        → contains g entries ≡ true
        → is_group g ≡ true
        → lookup g groups ≡ some members
        → Granted members u
        → Granted entries u

  pub Granted-Within :
      {es es' : List Text} {u : Text} → Within es es' → Granted es u → Granted es' u
  Granted-Within w (named m l) = named (w _ m) l
  Granted-Within w (owned m e) = owned (w _ m) e
  Granted-Within w (through g ms m i e d) = through g ms (w g m) i e d
