-- ===== src/Config/Walk.antt =====
-- The walk of `_resolve_into` (access.py), and what it leaves behind.
use pynchy.Base.{
  Bool-cases, Dict, List, Option, Text, [], all, ap, arith, codes, contains, equal_refl, false,
  if_cases, inl, inr, list-eq, lookup, none, refl, some, subst, suc, sym, true, zero, ℕ, ℕ-eq, ◌==◌,
  ◌∙◌, ◌∷◌, ◌≡◌, ◌≤◌, ◌⊎◌,
}
use pynchy.Config.Users.{
  add, add_some, Visit, going, returned, exhausted, Resolution, resumed, enter, visit,
  resolve_entries, resolve_into,
}
use pynchy.Config.Reach.{
  unseen, Within, unseen-Within, grows, unseen-enter, star, is_group, handled, all-handled_mono,
  Within-add, contains-add, add-adds, Within-add_some, owner_in-add_some, add_some-adds, first_then,
  unsome, clean-lookup, Granted, named, owned, through, clean, Granted-Within,
}

module _ (groups : Dict Text (List Text)) (owner : Option Text) where
  -- What a walk over the entries, from `result` and `seen`, leaves behind.
  pub record Walked (entries r s r' s' : List Text) : Type 0 where
    pub more_users : Within r r'
    pub more_seen : Within s s'
    pub complete : contains star entries ≡ false → all (handled owner r' s') entries ≡ true
    pub closed :
        clean groups ≡ true
        → (g : Text) (members : List Text) → contains g s' ≡ true
        → contains g s ≡ false
        → lookup g groups ≡ some members
        → all (handled owner r' s') members ≡ true
    pub sound :
        (u : Text) → contains u r' ≡ true → (contains u r ≡ true) ⊎ Granted groups owner entries u

  returned-Walked : (e : Text) (es r s : List Text) → (e == star) ≡ true → Walked (e ∷ es) r s r s
  returned-Walked e es r s h = record {
    more_users = λ a m. m;
    more_seen = λ a m. m;
    complete = λ n. ground (arith, n, h);
    closed = λ c g ms y n l. ground (arith, y, n);
    sound = λ u m. inl m;
  }

  nothing-Walked : (r s : List Text) → Walked [] r s r s
  nothing-Walked r s = record {
    more_users = λ a m. m;
    more_seen = λ a m. m;
    complete = λ n. refl;
    closed = λ c g ms y n l. ground (arith, y, n);
    sound = λ u m. inl m;
  }

  in_front : (e : Text) (es : List Text) → Within (e ∷ []) (e ∷ es)
  in_front e es a m = ground (arith, m)

  then-Walked :
      (e : Text) (es r s r1 s1 r' s' : List Text)
      → Walked (e ∷ []) r s r1 s1
      → Walked es r1 s1 r' s'
      → Walked (e ∷ es) r s r' s'
  then-Walked e es r s r1 s1 r' s' w v = record {
    more_users = λ a m. v.more_users a (w.more_users a m);
    more_seen = λ a m. v.more_seen a (w.more_seen a m);
    complete = λ n.
        let one =
          all-handled_mono owner r1 s1 r' s' (e ∷ []) v.more_users v.more_seen
            (w.complete (ground (arith, n))) in
        let rest = v.complete (ground (arith, n)) in ground (arith, one, rest);
    closed = λ c g ms y n l. elim (Bool-cases (contains g s1)) [
      | inl m ↦
          all-handled_mono owner r1 s1 r' s' ms v.more_users v.more_seen (w.closed c g ms m n l)
      | inr k ↦ v.closed c g ms y k l
    ];
    sound = λ u m.
        first_then (v.sound u m)
          (λ k.
            first_then (w.sound u k) inl (λ d. inr (Granted-Within groups owner (in_front e es) d)))
          (λ d. inr (Granted-Within groups owner (grows e es) d));
  }

  -- `inner` gets to the end of every list from which fewer than `n` groups are unseen.
  abbrev pub Ends : (List Text → List Text → List Text → Resolution) → ℕ → Type 0
  Ends inner n =
      (es r s : List Text)
      → suc (unseen groups s) ≤ n
      → (r' : List Text) × (s' : List Text) × (inner es r s ≡ some (r', s')) × Walked es r s r' s'

  -- Either the entry is the star and the loop returns, or the loop goes on.
  abbrev Visited : Visit → Text → List Text → List Text → Type 0
  Visited v e r s =
      ((v ≡ returned) × ((e == star) ≡ true))
      ⊎ ((r' : List Text) × (s' : List Text) × (v ≡ going r' s') × Walked (e ∷ []) r s r' s')

  skip-Walked :
      (e : Text) (r s r' : List Text)
      → Within r r'
      → handled owner r' s e ≡ true
      → ((u : Text)
          → contains u r' ≡ true
          → (contains u r ≡ true) ⊎ Granted groups owner (e ∷ []) u)
      → Walked (e ∷ []) r s r' s
  skip-Walked e r s r' w h sound = record {
    more_users = w;
    more_seen = λ a m. m;
    complete = λ n. ground (arith, h);
    closed = λ c g ms y n l. ground (arith, y, n);
    sound = sound;
  }

  owner-Walked :
      (e : Text) (r s : List Text)
      → (e == codes "owner") ≡ true
      → Walked (e ∷ []) r s (add_some owner r) s
  owner-Walked e r s y =
      skip-Walked e r s (add_some owner r) (Within-add_some owner r)
        (ground (arith, y, owner_in-add_some owner r))
        (λ u m. first_then (add_some-adds owner u r m) inl (λ o. inr (owned (ground (arith, y)) o)))

  literal-Walked :
      (e : Text) (r s : List Text)
      → (e == codes "owner") ≡ false
      → contains b':' e ≡ true
      → Walked (e ∷ []) r s (add e r) s
  literal-Walked e r s n y =
      skip-Walked e r s (add e r) (Within-add e r) (ground (arith, n, y, contains-add e r)) (λ u m.
        first_then (add-adds e u r m) inl (λ o.
          inr (subst (Granted groups owner (e ∷ [])) o (named (ground (arith, equal_refl e)) y))))

  seen-Walked :
      (e : Text) (r s : List Text)
      → (e == codes "owner") ≡ false
      → contains b':' e ≡ false
      → contains e s ≡ true
      → Walked (e ∷ []) r s r s
  seen-Walked e r s n p y = skip-Walked e r s r (λ a m. m) (ground (arith, n, p, y)) (λ u m. inl m)

  group-Walked :
      (e : Text) (r s r' s' members : List Text)
      → is_group e ≡ true
      → lookup e groups ≡ some members
      → Walked members r (e ∷ s) r' s'
      → Walked (e ∷ []) r s r' s'
  group-Walked e r s r' s' members group l w = record {
    more_users = w.more_users;
    more_seen = λ a m. w.more_seen a (grows e s a m);
    complete = λ n. ground (arith, group, w.more_seen e (ground (arith, equal_refl e)));
    closed = λ c g ms y n k. elim (Bool-cases (e == g)) [
      | inl same ↦
          let path = (list-eq.equal_iff e g).0 same in
          subst (λ x. all (handled owner r' s') x ≡ true)
            (unsome members ms (sym l ∙ ap (λ x. lookup x groups) path ∙ k))
            (w.complete (clean-lookup groups e members c l))
      | inr other ↦ w.closed c g ms y (ground (arith, n, other)) k
    ];
    sound = λ u m.
        first_then (w.sound u m) inl
          (λ d. inr (through e members (ground (arith, equal_refl e)) group l d));
  }

  absent-Walked :
      (e : Text) (r s : List Text)
      → is_group e ≡ true
      → lookup e groups ≡ none
      → Walked (e ∷ []) r s r (e ∷ s)
  absent-Walked e r s group l = record {
    more_users = λ a m. m;
    more_seen = grows e s;
    complete = λ n. ground (arith, group, equal_refl e);
    closed = λ c g ms y n k.
        let same = (list-eq.equal_iff e g).0 (ground (arith, y, n)) in cc (l, k, same);
    sound = λ u m. inl m;
  }

  enter-Visited :
      (inner : List Text → List Text → List Text → Resolution) (n : ℕ) (e : Text) (r s : List Text)
      (found : Option (List Text))
      → Ends inner n
      → unseen groups s ≤ n
      → is_group e ≡ true
      → contains e s ≡ false
      → lookup e groups ≡ found
      → Visited (enter groups owner inner found r (e ∷ s)) e r s
  enter-Visited inner n e r s none ends bound group new l =
      inr (r, e ∷ s, refl, absent-Walked e r s group l)
  enter-Visited inner n e r s (some members) ends bound group new l =
      let (r', s', done, w) =
        ends members r (e ∷ s) (omega (arith, unseen-enter groups e s members new l, bound)) in
      inr (r', s', ap resumed done, group-Walked e r s r' s' members group l w)

  visit-Visited :
      (inner : List Text → List Text → List Text → Resolution) (n : ℕ) (e : Text) (r s : List Text)
      → Ends inner n
      → unseen groups s ≤ n
      → Visited (visit groups owner inner e r s) e r s
  unfolding visit
  visit-Visited inner n e r s ends bound =
      if_cases (λ v. Visited v e r s) (e == star) (λ y. inl (refl, y))
        (λ not_star.
          if_cases (λ v. Visited v e r s) (e == codes "owner")
            (λ y. inr (add_some owner r, s, refl, owner-Walked e r s y))
            (λ not_owner.
              if_cases (λ v. Visited v e r s) (contains b':' e)
                (λ y. inr (add e r, s, refl, literal-Walked e r s not_owner y))
                (λ plain.
                  if_cases (λ v. Visited v e r s) (contains e s)
                    (λ y. inr (r, s, refl, seen-Walked e r s not_owner plain y))
                    (λ new.
                      enter-Visited inner n e r s (lookup e groups) ends bound
                        (ground (arith, not_star, not_owner, plain)) new refl))))

  resolve_entries-Ends :
      (inner : List Text → List Text → List Text → Resolution) (n : ℕ) (es r s : List Text)
      → Ends inner n
      → unseen groups s ≤ n
      → (r' : List Text) × (s' : List Text) × (resolve_entries groups owner inner es r s
          ≡ some (r', s'))
        × Walked es r s r' s'
  unfolding resolve_entries
  resolve_entries-Ends inner n [] r s ends bound = (r, s, refl, nothing-Walked r s)
  resolve_entries-Ends inner n (e ∷ es) r s ends bound =
      elim (visit-Visited inner n e r s ends bound) [
        | inl (v, y) ↦ (r, s, ap (after es r s) v, returned-Walked e es r s y)
        | inr (r1, s1, v, w) ↦
            let fewer = unseen-Within groups s s1 w.more_seen in
            let (r', s', done, w') =
              resolve_entries-Ends inner n es r1 s1 ends (omega (arith, fewer, bound)) in
            (r', s', ap (after es r s) v ∙ done, then-Walked e es r s r1 s1 r' s' w w')
      ]
    where
      after : List Text → List Text → List Text → Visit → Resolution
      after es r s v = elim v [
        | going r1 s1 ↦ resolve_entries groups owner inner es r1 s1
        | returned ↦ some (r, s)
        | exhausted ↦ none
      ]

  pub resolve_into-Ends : (n : ℕ) → Ends (resolve_into groups owner n) n
  unfolding resolve_into
  resolve_into-Ends zero es r s bound = ground (arith, bound)
  resolve_into-Ends (suc n) es r s bound =
      resolve_entries-Ends (resolve_into groups owner n) n es r s (resolve_into-Ends n)
        (omega (arith, bound))
