-- ===== src/Config/RefLaws.antt =====
-- Printing and parsing the references of refs.py.
use pynchy.Base.{
  Bool, Bool-cases, List, Text, [], all, ap, arith, codes, contains, eqb, false, inl, inr, is_empty,
  list-eq, not, refl, some, some_unless, subst, sym, true, ℕ, ℕ-eq, ◌&&◌, ◌++◌, ◌==◌, ◌||◌, ◌↔◌,
  ◌∙◌, ◌∷◌, ◌≡◌,
}
use pynchy.Config.Refs.{
  ChatRef, cons_head, split_dots, join_dots, chat_of, connection_of, parse_chat_ref,
  parse_connection_ref, connection_ref_from_parts,
}

-- A part of a reference: not empty, and without a dot.
abbrev pub is_part : Text → Bool
is_part t = not (is_empty t) && not (contains b'.' t)

abbrev pub chat_ref_text : ChatRef → Text
chat_ref_text r = join_dots (codes "connection" ∷ r.platform ∷ r.name ∷ codes "chat" ∷ r.chat ∷ [])

no_dot : Text → Bool
no_dot t = not (contains b'.' t)

split-append :
    (a b : Text) → contains b'.' a ≡ false → split_dots (a ++ b'.' ∷ b) ≡ a ∷ split_dots b
unfolding split_dots
split-append [] b h = refl
split-append (c ∷ a) b h = ground (arith, split-append a b (ground arith))

split-plain : (t : Text) → contains b'.' t ≡ false → split_dots t ≡ t ∷ []
unfolding split_dots
split-plain [] h = refl
split-plain (c ∷ t) h = ground (arith, split-plain t (ground (arith, h)))

join-cons_head : (c : ℕ) (ss : List Text) → join_dots (cons_head c ss) ≡ c ∷ join_dots ss
join-cons_head c [] = refl
join-cons_head c (s ∷ []) = refl
join-cons_head c (s ∷ t ∷ ss) = refl

split-cons : (t : Text) → (s : Text) × (ss : List Text) × (split_dots t ≡ s ∷ ss)
unfolding split_dots
split-cons [] = ([], [], refl)
split-cons (c ∷ t) =
    let (s, ss, e) = split-cons t in
    elim (Bool-cases (eqb c b'.')) [
      | inl y ↦ ([], split_dots t, ground (arith, y))
      | inr n ↦ (c ∷ s, ss, ground (arith, n, e))
    ]

join-dot : (t : Text) → join_dots ([] ∷ split_dots t) ≡ b'.' ∷ join_dots (split_dots t)
join-dot t =
    let (s, ss, e) = split-cons t in
    ap (λ x. join_dots ([] ∷ x)) e ∙ ap (λ x. b'.' ∷ join_dots x) (sym e)

join-split : (t : Text) → join_dots (split_dots t) ≡ t
unfolding split_dots
join-split [] = refl
join-split (c ∷ t) = ground (arith, join-split t, join-dot t, join-cons_head c (split_dots t))

split-no_dot : (t : Text) → all no_dot (split_dots t) ≡ true
unfolding split_dots no_dot
split-no_dot [] = refl
split-no_dot (c ∷ t) = let (s, ss, e) = split-cons t in ground (arith, e, split-no_dot t)

equal_text : (s t : Text) → (s == t) ≡ true → s ≡ t
equal_text s t h = (list-eq.equal_iff s t).0 h

unsome {ℓ} : {A : Type ℓ} (a b : A) → some a ≡ some b → a ≡ b
unsome a b h = cc

-- What the parts of a text have in common with the reference they are read as.
abbrev FitsChat : List Text → ChatRef → Type 0
FitsChat parts ref =
    (join_dots parts ≡ chat_ref_text ref)
    × (all no_dot parts ≡ true → no_dot ref.platform ≡ true)
    × (all no_dot parts ≡ true → no_dot ref.name ≡ true)
    × (is_empty ref.platform ≡ false)
    × (is_empty ref.name ≡ false)
    × (is_empty ref.chat ≡ false)

parts-FitsChat :
    (a p n b x : Text) (rest : List Text)
    → (not (a == codes "connection") || not (b == codes "chat")) ≡ false
    → (is_empty p || is_empty n || is_empty (join_dots (x ∷ rest))) ≡ false
    → FitsChat
        (a ∷ p ∷ n ∷ b ∷ x ∷ rest)
        (record { platform = p; name = n; chat = join_dots (x ∷ rest) })
parts-FitsChat a p n b x rest named full =
    let connection = equal_text a (codes "connection") (by_and named).0 in
    let chat = equal_text b (codes "chat") (by_and named).1 in
    (
      ap (λ y. join_dots (y ∷ p ∷ n ∷ b ∷ x ∷ rest)) connection
          ∙ ap (λ y. join_dots (codes "connection" ∷ p ∷ n ∷ y ∷ x ∷ rest)) chat,
      λ h. ground (arith, h),
      λ h. ground (arith, h),
      ground (arith, full),
      ground (arith, full),
      ground (arith, full),
    )
  where
    by_and : {a b : Bool} → (not a || not b) ≡ false → (a ≡ true) × (b ≡ true)
    by_and h = ground arith

chat_of-FitsChat :
    (parts : List Text) (ref : ChatRef) → chat_of parts ≡ some ref → FitsChat parts ref
chat_of-FitsChat [] ref h = cc
chat_of-FitsChat (a ∷ []) ref h = cc
chat_of-FitsChat (a ∷ p ∷ []) ref h = cc
chat_of-FitsChat (a ∷ p ∷ n ∷ []) ref h = cc
chat_of-FitsChat (a ∷ p ∷ n ∷ b ∷ []) ref h = cc
chat_of-FitsChat (a ∷ p ∷ n ∷ b ∷ x ∷ rest) ref h =
    let first = some_unless (not (a == codes "connection") || not (b == codes "chat")) _ ref h in
    let second =
      some_unless (is_empty p || is_empty n || is_empty (join_dots (x ∷ rest))) _ ref first.1 in
    subst (FitsChat (a ∷ p ∷ n ∷ b ∷ x ∷ rest)) (unsome _ _ second.1)
      (parts-FitsChat a p n b x rest first.0 second.0)

chat_of-back :
    (ref : ChatRef)
    → is_empty ref.platform ≡ false
    → is_empty ref.name ≡ false
    → is_empty ref.chat ≡ false
    → chat_of (codes "connection" ∷ ref.platform ∷ ref.name ∷ codes "chat" ∷ split_dots ref.chat)
      ≡ some ref
chat_of-back ref p n c =
    let (s, ss, e) = split-cons ref.chat in
    ap (λ x. chat_of (codes "connection" ∷ ref.platform ∷ ref.name ∷ codes "chat" ∷ x)) e
    ∙ ground (arith, e, join-split ref.chat)

split-four :
    (p n c : Text)
    → contains b'.' p ≡ false
    → contains b'.' n ≡ false
    → split_dots (join_dots (codes "connection" ∷ p ∷ n ∷ codes "chat" ∷ c ∷ []))
      ≡ codes "connection" ∷ p ∷ n ∷ codes "chat" ∷ split_dots c
split-four p n c hp hn =
    split-append (codes "connection") (join_dots (p ∷ n ∷ codes "chat" ∷ c ∷ [])) refl
    ∙ ap (λ x. codes "connection" ∷ x)
        (split-append p (join_dots (n ∷ codes "chat" ∷ c ∷ [])) hp
          ∙ ap (λ x. p ∷ x)
              (split-append n (join_dots (codes "chat" ∷ c ∷ [])) hn
                ∙ ap (λ x. n ∷ x) (split-append (codes "chat") c refl)))

-- A text is parsed as a chat of a connection exactly if it is the text that the reference is
-- written as, its platform and its name are not empty and have no dot, and its chat is not empty.
pub parse_chat_ref_exact :
    (text : Text) (ref : ChatRef)
    → (parse_chat_ref (some text) ≡ some ref) ↔ (
        (text ≡ chat_ref_text ref)
        × (is_part ref.platform ≡ true)
        × (is_part ref.name ≡ true)
        × (is_empty ref.chat ≡ false))
unfolding parse_chat_ref no_dot
parse_chat_ref_exact text ref = (there, back)
  where
    there :
        parse_chat_ref (some text) ≡ some ref
        → (text ≡ chat_ref_text ref)
          × (is_part ref.platform ≡ true)
          × (is_part ref.name ≡ true)
          × (is_empty ref.chat ≡ false)
    there h =
        let parts = some_unless (is_empty text) _ ref h in
        let f = chat_of-FitsChat (split_dots text) ref parts.1 in
        let plain = f.1 (split-no_dot text) in
        let plainer = f.2 (split-no_dot text) in
        (sym (join-split text) ∙ f.0, ground (arith, plain, f.3), ground (arith, plainer, f.4), f.5)

    back :
        (text ≡ chat_ref_text ref)
          × (is_part ref.platform ≡ true)
          × (is_part ref.name ≡ true)
          × (is_empty ref.chat ≡ false)
        → parse_chat_ref (some text) ≡ some ref
    back (e, p, n, c) =
        ap (λ x. parse_chat_ref (some x)) e
        ∙ ap chat_of
            (split-four ref.platform ref.name ref.chat (ground (arith, p)) (ground (arith, n)))
        ∙ chat_of-back ref (ground (arith, p)) (ground (arith, n)) c

-- The connection that owns a parsed chat, written and parsed again, is the chat's connection.
pub parse_connection_ref-of_chat :
    (text : Text) (ref : ChatRef)
    → parse_chat_ref (some text) ≡ some ref
    → parse_connection_ref (some (connection_ref_from_parts ref.platform ref.name))
      ≡ some (record { platform = ref.platform; name = ref.name })
unfolding parse_connection_ref
parse_connection_ref-of_chat text ref h =
    let (e, p, n, c) = (parse_chat_ref_exact text ref).0 h in go ref.platform ref.name p n
  where
    go :
        (p n : Text)
        → is_part p ≡ true
        → is_part n ≡ true
        → connection_of (split_dots (connection_ref_from_parts p n))
          ≡ some (record { platform = p; name = n })
    go p n hp hn =
        ap connection_of (
          split-append (codes "connection") (p ++ b'.' ∷ n) refl
          ∙ ap (λ x. codes "connection" ∷ x) (split-append p n (ground (arith, hp))))
        ∙ ap (λ x. connection_of (codes "connection" ∷ p ∷ x)) (split-plain n (ground (arith, hn)))
        ∙ ground (arith, hp, hn)
