-- ===== src/Config/UserLaws.antt =====
-- Whose messages access.py lets through, by what the configuration grants.
use pynchy.Base.{
  Bool, Bool-cases, Dict, List, Option, Text, [], all, ap, arith, codes, contains, false,
  if◌then◌else◌, inl, inr, is_empty, length, list-eq, none, refl, some, subst, suc, sym, true, ℕ,
  ℕ-eq, ◌&&◌, ◌++◌, ◌==◌, ◌∙◌, ◌∷◌, ◌≡◌, ◌≤◌,
}
use pynchy.Config.Users.{
  qualified_in, users_of, resolve_into, resolve_owner, resolve_allowed_users, is_user_allowed,
}
use pynchy.Config.Refs.{channel_platform_from_name}
use pynchy.Config.Reach.{
  unseen, unseen-Within, unseen-none, star, handled, owner_in, first_then, Granted, named, owned,
  through, clean,
}
use pynchy.Config.Walk.{Walked, resolve_into-Ends}

unseen-length : (groups : Dict Text (List Text)) (s : List Text) → unseen groups s ≤ length groups
unseen-length groups s = omega (arith, unseen-none groups, unseen-Within groups [] s (λ a h. cc))

-- A fuel above the number of groups is enough: from any list of entries, and whatever was seen and
-- found before, the resolution returns, and it forgets nothing that was found or seen.
pub resolve_into_ends :
    (groups : Dict Text (List Text)) (owner : Option Text) (fuel : ℕ)
    (entries result seen : List Text)
    → suc (length groups) ≤ fuel
    → (result' : List Text) × (seen' : List Text) × (resolve_into groups owner fuel entries result
          seen
        ≡ some (result', seen'))
      × ((u : Text) → contains u result ≡ true → contains u result' ≡ true)
      × ((g : Text) → contains g seen ≡ true → contains g seen' ≡ true)
resolve_into_ends groups owner fuel entries result seen enough =
    let (r, s, done, w) =
      resolve_into-Ends groups owner fuel entries result seen
        (omega (arith, enough, unseen-length groups seen)) in
    (r, s, done, w.more_users, w.more_seen)

all-contains :
    (p : Text → Bool) (xs : List Text) (x : Text)
    → all p xs ≡ true
    → contains x xs ≡ true
    → p x ≡ true
all-contains p [] x h m = cc
all-contains p (y ∷ ys) x h m = elim (Bool-cases (y == x)) [
  | inl e ↦ subst (λ z. p z ≡ true) ((list-eq.equal_iff y x).0 e) (ground (arith, h))
  | inr n ↦ all-contains p ys x (ground (arith, h)) (ground (arith, m, n))
]

no_owner : (u : Text) → contains b':' u ≡ true → (u == codes "owner") ≡ false
no_owner u l = elim (Bool-cases (u == codes "owner")) [
  | inl y ↦
      let path = ap (λ x. contains {A = ℕ} b':' x) ((list-eq.equal_iff u (codes "owner")).0 y) in
      cc (l, path)
  | inr n ↦ n
]

module _ (groups : Dict Text (List Text)) (owner : Option Text) where
  Granted-found :
      {raw es r s : List Text} {u : Text}
      → Walked groups owner raw [] [] r s
      → clean groups ≡ true
      → all (handled owner r s) es ≡ true
      → Granted groups owner es u
      → contains u r ≡ true
  Granted-found {es = es} {r = r} {s = s} {u = u} w c h (named m l) =
      let h' = all-contains (handled owner r s) es u h m in ground (arith, h', l, no_owner u l)
  Granted-found {es = es} {r = r} {s = s} {u = u} w c h (owned m e) =
      let h' = all-contains (handled owner r s) es (codes "owner") h m in
      subst (λ o. owner_in o r ≡ true) e h'
  Granted-found {es = es} {r = r} {s = s} {u = u} w c h (through g members m i l d) =
      let h' = all-contains (handled owner r s) es g h m in
      let known : contains g s ≡ true = ground (arith, h', i) in
      Granted-found w c (w.closed c g members known refl l) d

-- If the list does not have the star, the allowed users are a set, the resolution of which ends;
-- every user in it is granted by the list; and every user that is granted by the list is in it, if
-- no group that the configuration declares has the star.
pub resolve_allowed_users_exact :
    (raw : List Text) (groups : Dict Text (List Text)) (owner_slack channel : Option Text)
    → contains star raw ≡ false
    → let owner = resolve_owner owner_slack channel in
      (users : List Text) × (resolve_allowed_users raw groups owner_slack channel ≡ some users)
      × ((u : Text) → contains u users ≡ true → Granted groups owner raw u)
      × (clean groups ≡ true → (u : Text) → Granted groups owner raw u → contains u users ≡ true)
unfolding resolve_allowed_users
resolve_allowed_users_exact raw groups owner_slack channel n =
    let owner = resolve_owner owner_slack channel in
    let (r, s, done, w) =
      resolve_into-Ends groups owner (suc (length groups)) raw [] []
        (omega (arith, unseen-none groups)) in
    (
      r,
      ap
            (λ b.
              if b
              then none
              else some (users_of (resolve_into groups owner (suc (length groups)) raw [] [])))
            n
          ∙ ap (λ o. some (users_of o)) done,
      λ u m. first_then (w.sound u m) (λ e. cc) (λ d. d),
      λ c u d. Granted-found groups owner w c (w.complete n) d,
    )

-- Whose message the configuration lets through: the owner's own, where the list grants the id
-- `whatsapp:owner`; the sender's, where it grants the id with the channel's platform before it; and
-- the sender's, where it grants the id as it is.
pub data Permitted (granted : Text → Type 0) (channel : Option Text) (sender : Text)
    (is_from_me : Bool) : Type 0 where
  own :
      is_from_me ≡ true
      → granted (codes "whatsapp:owner")
      → Permitted granted channel sender is_from_me
  qualified :
      (platform : Text)
      → channel_platform_from_name channel ≡ some platform
      → is_empty platform ≡ false
      → granted (platform ++ b':' ∷ sender)
      → Permitted granted channel sender is_from_me
  plain : granted sender → Permitted granted channel sender is_from_me

allowed-Permitted :
    (users : List Text) (channel : Option Text) (sender : Text) (is_from_me : Bool)
    → is_user_allowed sender channel (some users) is_from_me ≡ true
    → Permitted (λ u. contains u users ≡ true) channel sender is_from_me
unfolding is_user_allowed
allowed-Permitted users channel sender is_from_me h = elim (Bool-cases (contains sender users)) [
  | inl y ↦ plain y
  | inr n ↦ elim (Bool-cases (is_from_me && contains (codes "whatsapp:owner") users)) [
    | inl y ↦ own (ground (arith, y)) (ground (arith, y))
    | inr k ↦ by_platform (channel_platform_from_name channel) refl (ground (arith, h, n, k))
  ]
]
  where
    by_platform :
        (platform : Option Text)
        → channel_platform_from_name channel ≡ platform
        → qualified_in platform sender users ≡ true
        → Permitted (λ u. contains u users ≡ true) channel sender is_from_me
    by_platform none e q = cc
    by_platform (some p) e q = qualified p e (ground (arith, q)) (ground (arith, q))

Permitted-allowed :
    (users : List Text) (channel : Option Text) (sender : Text) (is_from_me : Bool)
    → Permitted (λ u. contains u users ≡ true) channel sender is_from_me
    → is_user_allowed sender channel (some users) is_from_me ≡ true
unfolding is_user_allowed
Permitted-allowed users channel sender is_from_me (own y g) = ground (arith, y, g)
Permitted-allowed users channel sender is_from_me (qualified platform e full g) =
    let found = ap (λ p. qualified_in p sender users) e in ground (arith, found, full, g)
Permitted-allowed users channel sender is_from_me (plain g) = ground (arith, g)

Permitted-map :
    {P Q : Text → Type 0} (channel : Option Text) (sender : Text) (is_from_me : Bool)
    → ((u : Text) → P u → Q u)
    → Permitted P channel sender is_from_me
    → Permitted Q channel sender is_from_me
Permitted-map channel sender is_from_me f (own y g) = own y (f _ g)
Permitted-map channel sender is_from_me f (qualified p e full g) = qualified p e full (f _ g)
Permitted-map channel sender is_from_me f (plain g) = plain (f _ g)

-- If the list does not have the star, a message is let through only if it is the owner's own and
-- the list grants `whatsapp:owner`, or the list grants its sender's id, as it is or with the
-- channel's platform before it; and every such message is let through, if no group that the
-- configuration declares has the star.
pub is_user_allowed_exact :
    (raw : List Text) (groups : Dict Text (List Text)) (owner_slack channel : Option Text)
    (sender : Text) (is_from_me : Bool)
    → contains star raw ≡ false
    → let granted = Granted groups (resolve_owner owner_slack channel) raw in
      let allowed =
        is_user_allowed sender channel
          (resolve_allowed_users raw groups owner_slack channel)
          is_from_me in
      (allowed ≡ true → Permitted granted channel sender is_from_me)
      × (clean groups ≡ true → Permitted granted channel sender is_from_me → allowed ≡ true)
is_user_allowed_exact raw groups owner_slack channel sender is_from_me n =
    let (users, e, sound, complete) =
      resolve_allowed_users_exact raw groups owner_slack channel n in
    let same = ap (λ a. is_user_allowed sender channel a is_from_me) e in
    (
      λ h.
          Permitted-map channel sender is_from_me sound
            (allowed-Permitted users channel sender is_from_me (sym same ∙ h)),
      λ c p.
          same
          ∙ Permitted-allowed users channel sender is_from_me
              (Permitted-map channel sender is_from_me (complete c) p),
    )
