-- ===== src/Chat/ReconcileLaws.antt =====
-- The inbound walk of reconciler.py over a page of messages.
use pynchy.Base.{
  Bool, Bool-cases, List, Option, String, String-eq, Text, [], all, any, ap, arith, equal_refl,
  false, if_cases, if◌then◌else◌, inl, inr, keep, list-eq, none, not, pair-eq, refl, some, sym,
  true, ℕ-eq, ◌==◌, ◌||◌, ◌∙◌, ◌∷◌, ◌≡◌,
}
use pynchy.Delivery.Fresh.{any-append, all-append}
use pynchy.Delivery.Cursors.{text_lt, later}
use pynchy.Delivery.CursorLaws.{text_lt_trans, text_lt_irrefl, later-forward}
use pynchy.Queue.State.{Settings as QueueSettings}
use pynchy.Chat.Messages.{
  is_row, Message, Messages, store_message, store_message_direct, message_exists,
}
use pynchy.Chat.Reconcile.{Walk, taken, to_chat, walk_message, walk_inbound}

abbrev is_taken : Option Bool → Bool
is_taken none = false
is_taken (some b) = b

other_row :
    (id jid : String) (m r : Message)
    → is_row id jid m ≡ false
    → is_row id jid r ≡ true
    → is_row m.id m.chat_jid r ≡ false
other_row id jid m r n y =
    let same_id : r.id ≡ id = (String-eq.equal_iff r.id id).0 (ground (arith, y)) in
    let same_jid : r.chat_jid ≡ jid = (String-eq.equal_iff r.chat_jid jid).0 (ground (arith, y)) in
    elim (Bool-cases (is_row m.id m.chat_jid r)) [
      | inr f ↦ f
      | inl t ↦
          let to_id : r.id ≡ m.id = (String-eq.equal_iff r.id m.id).0 (ground (arith, t)) in
          let to_jid : r.chat_jid ≡ m.chat_jid =
            (String-eq.equal_iff r.chat_jid m.chat_jid).0 (ground (arith, t)) in
          let here : (m.id == id) ≡ true =
            ap (λ x. m.id == x) (sym same_id ∙ to_id) ∙ equal_refl m.id in
          let there : (m.chat_jid == jid) ≡ true =
            ap (λ x. m.chat_jid == x) (sym same_jid ∙ to_jid) ∙ equal_refl m.chat_jid in
          absurd (ground (arith, n, here, there))
    ]

any-keep_others :
    (id jid : String) (m : Message) (table : Messages)
    → is_row id jid m ≡ false
    → any (is_row id jid) (keep (λ r. not (is_row m.id m.chat_jid r)) table)
      ≡ any (is_row id jid) table
any-keep_others id jid m [] n = refl
any-keep_others id jid m (r ∷ table) n = elim (Bool-cases (is_row id jid r)) [
  | inl y ↦ ground (arith, y, other_row id jid m r n y, any-keep_others id jid m table n)
  | inr f ↦ elim (Bool-cases (is_row m.id m.chat_jid r)) [
    | inl g ↦ ground (arith, f, g, any-keep_others id jid m table n)
    | inr g ↦ ground (arith, f, g, any-keep_others id jid m table n)
  ]
]

exists-store :
    (id jid : String) (m : Message) (type : String) (table : Messages)
    → message_exists id jid table ≡ true
    → message_exists id jid (store_message m type table) ≡ true
unfolding message_exists store_message store_message_direct
exists-store id jid m type table h =
    any-append (is_row id jid) (keep (λ r. not (is_row m.id m.chat_jid r)) table)
      (record m { message_type = type } ∷ [])
    ∙ elim (Bool-cases (is_row id jid m)) [
      | inl y ↦ ground (arith, y)
      | inr n ↦ ground (arith, n, h, any-keep_others id jid m table n)
    ]

stored-exists :
    (m : Message) (type : String) (table : Messages)
    → message_exists m.id m.chat_jid (store_message m type table) ≡ true
unfolding message_exists store_message store_message_direct
stored-exists m type table =
    any-append (is_row m.id m.chat_jid) (keep (λ r. not (is_row m.id m.chat_jid r)) table)
      (record m { message_type = type } ∷ [])
    ∙ ground (arith, equal_refl m.id, equal_refl m.chat_jid)

later_at_least : (t v : Text) → text_lt (later t v) v ≡ false
later_at_least t v = elim (Bool-cases (text_lt t v)) [
  | inl y ↦ ap (λ b. text_lt (if b then v else t) v) y ∙ text_lt_irrefl v
  | inr n ↦ ap (λ b. text_lt (if b then v else t) v) n ∙ n
]

module _ (cfg : QueueSettings) (jid : String) (allow : Message → Option Bool) where
  -- A message of the page that is stored, unless its sender is not allowed.
  abbrev pub is_safe : Messages → Message → Bool
  is_safe table m = message_exists m.id jid table || not (is_taken (allow (to_chat jid m)))

  abbrev pub is_welcome : Message → Bool
  is_welcome m = is_taken (allow m)

  taken-exists :
      (id : String) (m : Message) (o : Option Bool) (w : Walk)
      → message_exists id jid w.messages ≡ true
      → message_exists id jid (taken cfg jid m o w).messages ≡ true
  taken-exists id m none w h = h
  taken-exists id m (some true) w h = exists-store id jid m "user" w.messages h
  taken-exists id m (some false) w h = h

  walk-exists :
      (id : String) (m : Message) (w : Walk)
      → message_exists id jid w.messages ≡ true
      → message_exists id jid (walk_message cfg jid allow m w).messages ≡ true
  unfolding walk_message
  walk-exists id m w h =
      if_cases {A = Walk} (λ x. message_exists id jid x.messages ≡ true)
        (message_exists m.id jid w.messages) (λ y. h)
        (λ n. taken-exists id (to_chat jid m) (allow (to_chat jid m)) w h)

  taken-is_safe :
      (m : Message) (o : Option Bool) (w : Walk)
      → (taken cfg jid (to_chat jid m) o w).raised ≡ false
      → (message_exists m.id jid (taken cfg jid (to_chat jid m) o w).messages || not (is_taken o))
        ≡ true
  taken-is_safe m none w fine = cc
  taken-is_safe m (some true) w fine =
      ap (λ b. b || false) (stored-exists (to_chat jid m) "user" w.messages)
  taken-is_safe m (some false) w fine = ground arith

  walk-is_safe :
      (m : Message) (w : Walk)
      → (walk_message cfg jid allow m w).raised ≡ false
      → is_safe (walk_message cfg jid allow m w).messages m ≡ true
  unfolding walk_message
  walk-is_safe m w =
      if_cases {A = Walk} (λ x. x.raised ≡ false → is_safe x.messages m ≡ true)
        (message_exists m.id jid w.messages)
        (λ y fine. ap (λ b. b || not (is_taken (allow (to_chat jid m)))) y)
        (λ n fine. taken-is_safe m (allow (to_chat jid m)) w fine)

  all_still :
      (ms : List Message) (w : Walk)
      → (id : String) → message_exists id jid w.messages ≡ true
      → message_exists id jid (walk_inbound cfg jid allow ms w).messages ≡ true
  unfolding walk_inbound
  all_still [] w id h = h
  all_still (m ∷ ms) w id h =
      let after = walk_message cfg jid allow m w in
      if_cases {A = Walk} (λ x. message_exists id jid x.messages ≡ true) after.raised
        (λ y. walk-exists id m w h) (λ n. all_still ms after id (walk-exists id m w h))

  safe_still :
      (ms : List Message) (w : Walk) (m : Message)
      → is_safe w.messages m ≡ true
      → is_safe (walk_inbound cfg jid allow ms w).messages m ≡ true
  safe_still ms w m h = elim (Bool-cases (message_exists m.id jid w.messages)) [
    | inl y ↦ ap (λ b. b || not (is_taken (allow (to_chat jid m)))) (all_still ms w m.id y)
    | inr n ↦ ground (arith, h, n)
  ]

  taken-cursor :
      (m : Message) (o : Option Bool) (w : Walk)
      → (taken cfg jid m o w).raised ≡ false
      → (taken cfg jid m o w).cursor ≡ later w.cursor m.timestamp
  taken-cursor m none w fine = cc
  taken-cursor m (some true) w fine = refl
  taken-cursor m (some false) w fine = refl

  walk-cursor :
      (m : Message) (w : Walk)
      → (walk_message cfg jid allow m w).raised ≡ false
      → (walk_message cfg jid allow m w).cursor ≡ later w.cursor m.timestamp
  unfolding walk_message
  walk-cursor m w =
      if_cases {A = Walk} (λ x. x.raised ≡ false → x.cursor ≡ later w.cursor m.timestamp)
        (message_exists m.id jid w.messages) (λ y fine. refl)
        (λ n fine. taken-cursor (to_chat jid m) (allow (to_chat jid m)) w fine)

  taken-is_welcome :
      (m : Message) (o : Option Bool) (w : Walk)
      → allow m ≡ o
      → all is_welcome w.recovered ≡ true
      → all is_welcome (taken cfg jid m o w).recovered ≡ true
  taken-is_welcome m none w e h = h
  taken-is_welcome m (some true) w e h =
      all-append is_welcome w.recovered (m ∷ []) ∙ ground (arith, h, e)
  taken-is_welcome m (some false) w e h = h

  walk-is_welcome :
      (m : Message) (w : Walk)
      → all is_welcome w.recovered ≡ true
      → all is_welcome (walk_message cfg jid allow m w).recovered ≡ true
  unfolding walk_message
  walk-is_welcome m w h =
      if_cases {A = Walk} (λ x. all is_welcome x.recovered ≡ true)
        (message_exists m.id jid w.messages) (λ y. h)
        (λ n. taken-is_welcome (to_chat jid m) (allow (to_chat jid m)) w refl h)

  -- A walk over `ms`, from `w` to `after`: every message is stored or not allowed, none is after the
  -- cursor, the cursor has not moved back, and what was recovered is allowed.
  pub record IsWalk (ms : List Message) (w after : Walk) : Type 0 where
    pub stored : all (is_safe after.messages) ms ≡ true
    pub passed : all (λ m. not (text_lt after.cursor m.timestamp)) ms ≡ true
    pub forward : text_lt after.cursor w.cursor ≡ false
    pub welcome : all is_welcome after.recovered ≡ true

  -- If no exception ends the walk over a page, then every message of the page is in the table unless
  -- its sender is not allowed, the cursor is at or after all of them and not before where it was, and
  -- nothing was recovered from a sender who is not allowed. Nothing such was recovered before.
  pub walk_inbound-IsWalk :
      (ms : List Message) (w : Walk)
      → all is_welcome w.recovered ≡ true
      → (walk_inbound cfg jid allow ms w).raised ≡ false
      → IsWalk ms w (walk_inbound cfg jid allow ms w)
  unfolding walk_inbound
  walk_inbound-IsWalk [] w h = λ fine. record {
    stored = refl;
    passed = refl;
    forward = text_lt_irrefl w.cursor;
    welcome = h;
  }
  walk_inbound-IsWalk (m ∷ ms) w h =
      let after = walk_message cfg jid allow m w in
      elim (Bool-cases after.raised) [
        | inl y ↦ rw y (λ fine. absurd (ground (arith, y, fine)))
        | inr n ↦ rw n (λ fine.
            let rest = walk_inbound-IsWalk ms after (walk-is_welcome m w h) fine in
            let final = walk_inbound cfg jid allow ms after in
            let moved : after.cursor ≡ later w.cursor m.timestamp = walk-cursor m w n in
            let not_before =
              ap (λ t. text_lt t w.cursor) moved ∙ later-forward w.cursor m.timestamp in
            let not_before_m =
              ap (λ t. text_lt t m.timestamp) moved ∙ later_at_least w.cursor m.timestamp in
            let here : text_lt final.cursor m.timestamp ≡ false =
              text_lt_trans m.timestamp after.cursor final.cursor not_before_m rest.forward in
            let safe : is_safe final.messages m ≡ true =
              safe_still ms after m (walk-is_safe m w n) in
            record {
              stored = ground (arith, safe, rest.stored);
              passed = ground (arith, here, rest.passed);
              forward = text_lt_trans w.cursor after.cursor final.cursor not_before rest.forward;
              welcome = rest.welcome;
            })
      ]
