-- ===== src/Chat/GroupLaws.antt =====
-- The new messages by chat, as the loop of inbound.py groups them.
use pynchy.Base.{
  Bool, Bool-cases, Dict, List, String, String-eq, [], any, ap, append_assoc, append_nil, arith,
  contains, contains-append, distinct, distinct_snoc, equal_refl, false, if_cases, if◌then◌else◌,
  inl, inr, insert, keep, keys, lookup, lookup-insert, or_else, refl, sym, true, ◌++◌, ◌==◌, ◌||◌,
  ◌∙◌, ◌∷◌, ◌≡◌,
}
use pynchy.Chat.Messages.{Message}
use pynchy.Chat.Loop.{group_by_chat}

keys-insert :
    {A : Type 0} (k : String) (v : A) (d : Dict String A)
    → keys (insert k v d) ≡ (if contains k (keys d) then keys d else keys d ++ k ∷ [])
unfolding insert
keys-insert k v [] = refl
keys-insert k v ((j, x) ∷ d) = ground (arith, keys-insert k v d)

contains-add :
    (jid k : String) (ks : List String) (b : Bool)
    → (contains jid (if contains k ks then ks else ks ++ k ∷ []) || b)
      ≡ (contains jid ks || ((k == jid) || b))
contains-add jid k ks b = elim (Bool-cases (contains k ks)) [
  | inl y ↦ elim (Bool-cases (k == jid)) [
    | inl e ↦
        let there = ap (λ x. contains x ks) (sym ((String-eq.equal_iff k jid).0 e)) ∙ y in
        ground (arith, y, e, there)
    | inr n ↦ ground (arith, y, n)
  ]
  | inr n ↦ ground (arith, n, contains-append jid ks (k ∷ []))
]

-- The chats that messages are grouped under are those that had some before and theirs.
pub contains-group_by_chat :
    (jid : String) (chats : Dict String (List Message)) (ms : List Message)
    → contains jid (keys (group_by_chat chats ms))
      ≡ (contains jid (keys chats) || any (λ m. m.chat_jid == jid) ms)
unfolding group_by_chat
contains-group_by_chat jid chats [] = ground arith
contains-group_by_chat jid chats (m ∷ ms) =
    let next = or_else (lookup m.chat_jid chats) [] ++ m ∷ [] in
    contains-group_by_chat jid (insert m.chat_jid next chats) ms
    ∙ ap (λ ks. contains jid ks || any (λ n. n.chat_jid == jid) ms)
        (keys-insert m.chat_jid next chats)
    ∙ contains-add jid m.chat_jid (keys chats) (any (λ n. n.chat_jid == jid) ms)

pub distinct-group_by_chat :
    (chats : Dict String (List Message)) (ms : List Message)
    → distinct (keys chats) ≡ true
    → distinct (keys (group_by_chat chats ms)) ≡ true
unfolding group_by_chat
distinct-group_by_chat chats [] h = h
distinct-group_by_chat chats (m ∷ ms) h =
    let next = or_else (lookup m.chat_jid chats) [] ++ m ∷ [] in
    distinct-group_by_chat (insert m.chat_jid next chats) ms (
      ap (λ (ks : List String). distinct ks) (keys-insert m.chat_jid next chats)
      ∙ if_cases (λ (ks : List String). distinct ks ≡ true) (contains m.chat_jid (keys chats))
          (λ y. h) (λ n. distinct_snoc m.chat_jid (keys chats) h n))

group_by_chat_exact :
    (jid : String) (chats : Dict String (List Message)) (ms : List Message)
    → or_else (lookup jid (group_by_chat chats ms)) []
      ≡ or_else (lookup jid chats) [] ++ keep (λ m. m.chat_jid == jid) ms
unfolding group_by_chat
group_by_chat_exact jid chats [] = sym (append_nil (or_else (lookup jid chats) []))
group_by_chat_exact jid chats (m ∷ ms) =
    let before = or_else (lookup m.chat_jid chats) [] in
    let next = insert m.chat_jid (before ++ m ∷ []) chats in
    group_by_chat_exact jid next ms
    ∙ ap (λ o. or_else o [] ++ keep (λ m. m.chat_jid == jid) ms)
        (lookup-insert m.chat_jid jid (before ++ m ∷ []) chats)
    ∙ elim (Bool-cases (m.chat_jid == jid)) [
      | inl y ↦
          let ks = keep (λ n. n.chat_jid == jid) ms in
          let same =
            ap (λ g. or_else (lookup g chats) [] ++ m ∷ ks)
              ((String-eq.equal_iff m.chat_jid jid).0 y) in
          rw y (append_assoc before (m ∷ []) ks ∙ same)
      | inr n ↦ rw n refl
    ]

-- Each chat stands with its messages of the list.
abbrev pub IsGrouped : List Message → Dict String (List Message) → Type 0
IsGrouped found [] = Unit {0}
IsGrouped found ((jid, ms) ∷ chats) =
    (ms ≡ keep (λ m. m.chat_jid == jid) found) × IsGrouped found chats

looked_up-IsGrouped :
    (found : List Message) (chats : Dict String (List Message))
    → distinct (keys chats) ≡ true
    → ((jid : String)
        → contains jid (keys chats) ≡ true
        → or_else (lookup jid chats) [] ≡ keep (λ m. m.chat_jid == jid) found)
    → IsGrouped found chats
unfolding lookup
looked_up-IsGrouped found [] d h = tt
looked_up-IsGrouped found ((jid, ms) ∷ chats) d h =
    let here = h jid (ground (arith, equal_refl jid)) in
    let there : or_else (lookup jid ((jid, ms) ∷ chats)) [] ≡ ms = rw (equal_refl jid) refl in
    (
      sym there ∙ here,
      looked_up-IsGrouped found chats (ground (arith, d)) (λ other c.
          let apart : (jid == other) ≡ false =
            ground (arith, d, c, (String-eq.equal_iff jid other).0) in
          let passed : or_else (lookup other ((jid, ms) ∷ chats)) []
              ≡ or_else (lookup other chats) [] =
            rw apart refl in
          sym passed ∙ h other (ground (arith, c))),
    )

pub group_by_chat-IsGrouped : (found : List Message) → IsGrouped found (group_by_chat [] found)
unfolding lookup
group_by_chat-IsGrouped found =
    looked_up-IsGrouped found (group_by_chat [] found) (distinct-group_by_chat [] found refl)
      (λ jid c. group_by_chat_exact jid [] found)
