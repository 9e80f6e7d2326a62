-- ===== src/Security/Registry.antt =====
-- Laws of the registry of gate.py.
use pynchy.Base.{
  Bool, List, String, String-eq, [], all, ap, arith, equal_refl, false, if_cases, if◌then◌else◌,
  insert, ltb, pair-eq, refl, some, true, ℕ, ℕ-eq, ◌++◌, ◌==◌, ◌∷◌, ◌≡◌,
}
use pynchy.Security.Policy.{WorkspaceSecurity, SecurityPolicy, new_policy}
use pynchy.Security.Gate.{Registry, create_gate, matches, latest_from, get_gate_for_group, latest}

-- Every timestamp of the list is below `n`.
abbrev pub all_before : ℕ → List (ℕ × SecurityPolicy) → Bool
all_before n xs = all (λ x. ltb x.0 n) xs

latest_from_newest :
    (ts : ℕ) (p : SecurityPolicy) (best : ℕ × SecurityPolicy) (xs : List (ℕ × SecurityPolicy))
    → ltb best.0 ts ≡ true
    → all_before ts xs ≡ true
    → latest_from best (xs ++ (ts, p) ∷ []) ≡ (ts, p)
unfolding latest_from
latest_from_newest ts p best [] b h = ap (λ c. if c then (ts, p) else best) b
latest_from_newest ts p best (x ∷ xs) b h =
    latest_from_newest ts p (if ltb best.0 x.0 then x else best) xs
      (if_cases (λ (y : ℕ × SecurityPolicy). ltb y.0 ts ≡ true) (ltb best.0 x.0) (λ _. ground arith)
        (λ _. b))
      (ground arith)

-- A key with a newer timestamp is new to the registry, and stands last among the group's.
matches-insert_newest :
    (group : String) (ts : ℕ) (p : SecurityPolicy) (gates : Registry)
    → all_before ts (matches group gates) ≡ true
    → matches group (insert (group, ts) p gates) ≡ matches group gates ++ (ts, p) ∷ []
unfolding matches insert
matches-insert_newest group ts p [] h = ground (arith, equal_refl group)
matches-insert_newest group ts p ((k, q) ∷ gates) h =
    ground (
      arith,
      matches-insert_newest group ts p gates,
      String-eq.equal_iff k.0 group,
      equal_refl group,
    )

matches-insert_other :
    (group other : String) (ts : ℕ) (p : SecurityPolicy) (gates : Registry)
    → (group == other) ≡ false
    → matches other (insert (group, ts) p gates) ≡ matches other gates
unfolding matches insert
matches-insert_other group other ts p [] h = ground arith
matches-insert_other group other ts p ((k, q) ∷ gates) h = ground (
  arith,
  matches-insert_other group other ts p gates,
  String-eq.equal_iff k.0 group,
  String-eq.equal_iff k.0 other,
)

-- A gate that is created with a timestamp later than those of the group's gates is the one that
-- the handlers, which know only the group, then find: a policy with no taint. The gates of every
-- other group are found as before.
pub get_gate_for_group-create_gate :
    (group : String) (ts : ℕ) (security : WorkspaceSecurity) (gates : Registry)
    → all_before ts (matches group gates) ≡ true
    → (get_gate_for_group group (create_gate group ts security gates).0
        ≡ some (new_policy security))
      × ((other : String)
          → (group == other) ≡ false
          → get_gate_for_group other (create_gate group ts security gates).0
            ≡ get_gate_for_group other gates)
unfolding get_gate_for_group create_gate
get_gate_for_group-create_gate group ts security gates h = (
  rw (matches-insert_newest group ts (new_policy security) gates h)
      (newest (matches group gates) h),
  λ other ne. rw (matches-insert_other group other ts (new_policy security) gates ne) refl,
)
  where
    newest :
        (xs : List (ℕ × SecurityPolicy))
        → all_before ts xs ≡ true
        → latest (xs ++ (ts, new_policy security) ∷ []) ≡ some (new_policy security)
    newest [] b = refl
    newest (x ∷ xs) b =
        ap (λ y. some y.1)
          (latest_from_newest ts (new_policy security) x xs (ground arith) (ground arith))
