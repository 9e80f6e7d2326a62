-- ===== src/Config/MergeLaws.antt =====
-- What merge.py makes of the three tiers, field by field.
use pynchy.Base.{
  Bool-cases, List, Option, Text, [], ap, append_assoc, append_nil, arith, contains,
  contains-append, distinct, distinct_snoc, if_cases, if◌then◌else◌, inl, inr, list-eq, none,
  or_assoc, or_else, refl, some, sym, true, ℕ-eq, ◌++◌, ◌==◌, ◌||◌, ◌∙◌, ◌∷◌, ◌≡◌,
}
use pynchy.Config.Merge.{
  Field, unset, set, Tier, deduplicate_from, deduplicate, values_of, resolve_union, keep_winner,
  find_winner, resolve_override,
}

-- The values that tiers set a field to, in the order of the tiers.
abbrev pub settings_of {ℓ} : {A : Type ℓ} → (Tier → Field A) → List (Option Tier) → List (Option A)
settings_of field [] = []
settings_of field (none ∷ tiers) = settings_of field tiers
settings_of field (some tier ∷ tiers) = elim (field tier) [
  | unset ↦ settings_of field tiers
  | set v ↦ v ∷ settings_of field tiers
]

abbrev pub first_or {ℓ} : {A : Type ℓ} → A → List A → A
first_or d [] = d
first_or d (x ∷ xs) = x

find_winner-found {ℓ} :
    {A : Type ℓ} (field : Tier → Field A) (v : Option A) (tiers : List (Option Tier))
    → find_winner field (some v) tiers ≡ some v
unfolding find_winner
find_winner-found field v [] = refl
find_winner-found field v (none ∷ tiers) = find_winner-found field v tiers
find_winner-found field v (some t ∷ tiers) = find_winner-found field v tiers

find_winner-first {ℓ} :
    {A : Type ℓ} (field : Tier → Field A) (d : Option A) (tiers : List (Option Tier))
    → or_else (find_winner field none tiers) d ≡ first_or d (settings_of field tiers)
unfolding find_winner
find_winner-first field d [] = refl
find_winner-first field d (none ∷ tiers) = find_winner-first field d tiers
find_winner-first {A = A} field d (some t ∷ tiers) = go (field t) (find_winner-first field d tiers)
  where
    go :
        (f : Field A)
        → or_else (find_winner field none tiers) d ≡ first_or d (settings_of field tiers)
        → or_else (find_winner field (keep_winner none f) tiers) d
          ≡ first_or d
              (elim f [ unset ↦ settings_of field tiers | set v ↦ v ∷ settings_of field tiers ])
    go unset ih = ih
    go (set v) ih = ap (λ o. or_else o d) (find_winner-found field v tiers)

-- A field that tiers override has the value of the most specific tier that sets it: the sandbox,
-- then the profile, then the universal one; a tier that sets it to no value counts. If none does,
-- it has the default.
pub resolve_override_exact {ℓ} :
    {A : Type ℓ} (field : Tier → Field A) (default : Option A) (universal profile : Option Tier)
    (sandbox : Tier)
    → resolve_override field default universal profile sandbox
      ≡ first_or default (settings_of field (some sandbox ∷ profile ∷ universal ∷ []))
unfolding resolve_override
resolve_override_exact field default universal profile sandbox =
    find_winner-first field default (some sandbox ∷ profile ∷ universal ∷ [])

deduplicate_from-append :
    (r xs ys : List Text)
    → deduplicate_from r (xs ++ ys) ≡ deduplicate_from (deduplicate_from r xs) ys
unfolding deduplicate_from
deduplicate_from-append r [] ys = refl
deduplicate_from-append r (x ∷ xs) ys =
    deduplicate_from-append (if contains x r then r else r ++ x ∷ []) xs ys

distinct-deduplicate_from :
    (r xs : List Text) → distinct r ≡ true → distinct (deduplicate_from r xs) ≡ true
unfolding deduplicate_from
distinct-deduplicate_from r [] h = h
distinct-deduplicate_from r (x ∷ xs) h =
    distinct-deduplicate_from (if contains x r then r else r ++ x ∷ []) xs (
      if_cases (λ l. distinct {A = Text} l ≡ true) (contains x r) (λ y. h)
        (λ n. distinct_snoc x r h n))

contains-added :
    (a x : Text) (r : List Text)
    → contains a (if contains x r then r else r ++ x ∷ []) ≡ (contains a r || (x == a))
contains-added a x r = elim (Bool-cases (contains x r)) [
  | inl y ↦ elim (Bool-cases (x == a)) [
    | inl e ↦
        let same = ap (λ b. contains {A = Text} b r) ((list-eq.equal_iff x a).0 e) in
        ground (arith, y, e, same)
    | inr n ↦ ground (arith, y, n)
  ]
  | inr n ↦ ground (arith, n, contains-append a r (x ∷ []))
]

contains-deduplicate_from :
    (a : Text) (r xs : List Text)
    → contains a (deduplicate_from r xs) ≡ (contains a r || contains a xs)
unfolding deduplicate_from
contains-deduplicate_from a r [] = ground arith
contains-deduplicate_from a r (x ∷ xs) =
    let ih = contains-deduplicate_from a (if contains x r then r else r ++ x ∷ []) xs in
    let added = contains-added a x r in
    ih ∙ ap (λ b. b || contains a xs) added ∙ or_assoc (contains a r) (x == a) (contains a xs)

starts-deduplicate_from :
    (r xs : List Text) → (rest : List Text) × (deduplicate_from r xs ≡ r ++ rest)
unfolding deduplicate_from
starts-deduplicate_from r [] = ([], sym (append_nil r))
starts-deduplicate_from r (x ∷ xs) = elim (Bool-cases (contains x r)) [
  | inl y ↦
      let (rest, e) = starts-deduplicate_from r xs in
      (rest, ap (λ b. deduplicate_from (if b then r else r ++ x ∷ []) xs) y ∙ e)
  | inr n ↦
      let (rest, e) = starts-deduplicate_from (r ++ x ∷ []) xs in
      (
        x ∷ rest,
        ap (λ b. deduplicate_from (if b then r else r ++ x ∷ []) xs) n
            ∙ e
            ∙ append_assoc r (x ∷ []) rest,
      )
]

-- A field that is merged over the tiers lists no value twice, exactly the values that some tier
-- lists, and first those of the universal tier, in their order.
pub resolve_union_exact :
    (field : Tier → Option (List Text)) (universal profile : Option Tier) (sandbox : Tier)
    → let merged = resolve_union field universal profile sandbox in
      (distinct merged ≡ true)
      × ((a : Text)
          → contains a merged ≡ (
              contains a (values_of field universal)
              || contains a (values_of field profile)
              || contains a (values_of field (some sandbox))))
      × ((rest : List Text) × (merged ≡ deduplicate (values_of field universal) ++ rest))
unfolding resolve_union
resolve_union_exact field universal profile sandbox =
    let u = values_of field universal in
    let p = values_of field profile in
    let s = values_of field (some sandbox) in
    let (rest, e) = starts-deduplicate_from (deduplicate_from [] u) (p ++ s) in
    (
      distinct-deduplicate_from [] (u ++ (p ++ s)) refl,
      λ a.
          contains-deduplicate_from a [] (u ++ (p ++ s))
          ∙ contains-append a u (p ++ s)
          ∙ ap (λ b. contains a u || b) (contains-append a p s)
          ∙ sym (or_assoc (contains a u) (contains a p) (contains a s)),
      (rest, deduplicate_from-append [] u (p ++ s) ∙ e),
    )
