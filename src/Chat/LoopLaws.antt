-- ===== src/Chat/LoopLaws.antt =====
-- One turn of the loop over new messages of inbound.py.
use pynchy.Base.{
  Bool, Bool-cases, Dict, List, Option, String, String-eq, Text, [], all, all-sort_by, any, ap,
  arith, contains, distinct, false, if_cases, if◌then◌else◌, inl, inr, keep, keys, last, lookup,
  none, not, refl, some, sort_by, sym, true, ◌&&◌, ◌++◌, ◌==◌, ◌∙◌, ◌∷◌, ◌≡◌,
}
use pynchy.Delivery.Cursors.{text_lt, later}
use pynchy.Delivery.CursorLaws.{text_lt_irrefl, text_lt_trans, later-forward}
use pynchy.Queue.State.{GroupQueue}
use pynchy.Queue.State.{Settings as QueueSettings}
use pynchy.Queue.Invariant.{IsValid}
use pynchy.Security.Classify.{Unicode}
use pynchy.Config.Access.{Settings}
use pynchy.Chat.Messages.{Message, Messages, by_time, latest, get_new_messages}
use pynchy.Chat.Commands.{Words}
use pynchy.Chat.Pipeline.{Group, Pipe}
use pynchy.Chat.Inbound.{route_incoming_group, Env}
use pynchy.Chat.Routed.{later-reaches}
use pynchy.Chat.RouteLaws.{route_incoming_group-IsRouted}
use pynchy.Chat.GroupLaws.{
  IsGrouped, group_by_chat-IsGrouped, distinct-group_by_chat, contains-group_by_chat,
}
use pynchy.Chat.Hands.{Hands, done, hand, pass}
use pynchy.Chat.Loop.{
  round, Round, group_by_chat, is_raised, route_known, route_groups, route_found, poll_messages,
}

latest-forward : (t : Text) (ms : List Message) → text_lt (latest t ms) t ≡ false
latest-forward t [] = text_lt_irrefl t
latest-forward t (m ∷ ms) =
    let next = later t m.timestamp in
    text_lt_trans t next (latest next ms) (later-forward t m.timestamp) (latest-forward next ms)

latest-reaches :
    (t : Text) (ms : List Message) → all (λ m. not (text_lt (latest t ms) m.timestamp)) ms ≡ true
latest-reaches t [] = refl
latest-reaches t (m ∷ ms) =
    let next = later t m.timestamp in
    let here =
      text_lt_trans m.timestamp next (latest next ms) (later-reaches t m.timestamp)
        (latest-forward next ms) in
    ground (arith, here, latest-reaches next ms)

-- `get_new_messages` of the table's rows, before they are sorted.
abbrev is_new : List String → Text → Message → Bool
is_new jids last m = (text_lt last m.timestamp && contains m.chat_jid jids) && not m.is_from_me

none_new :
    (jids : List String) (last t : Text) (table : Messages)
    → text_lt t last ≡ false
    → all (λ m. not (text_lt t m.timestamp)) (keep (is_new jids last) table) ≡ true
    → keep (is_new jids t) table ≡ []
none_new jids last t [] h k = refl
none_new jids last t (m ∷ ms) h k = elim (Bool-cases (text_lt last m.timestamp)) [
  | inl y ↦ ground (arith, none_new jids last t ms h, k, y)
  | inr n ↦ ground (arith, none_new jids last t ms h, k, n, text_lt_trans m.timestamp last t n h)
]

seen_once :
    (jids : List String) (last : Text) (table : Messages)
    → let t = (get_new_messages jids last table).1 in get_new_messages jids t table ≡ ([], t)
unfolding get_new_messages
seen_once [] last table = refl
seen_once (j ∷ jids) last table =
    let rows = keep (is_new (j ∷ jids) last) table in
    let t = latest last (sort_by by_time rows) in
    let reaches =
      sym (all-sort_by by_time (λ m. not (text_lt t m.timestamp)) rows)
      ∙ latest-reaches last (sort_by by_time rows) in
    let quiet =
      none_new (j ∷ jids) last t table (latest-forward last (sort_by by_time rows)) reaches in
    ap (λ (ms : List Message). (sort_by by_time ms, latest t (sort_by by_time ms))) quiet

module _ (u : Unicode) (w : Words) (s : Settings) (cfg : QueueSettings) (env : Env) where
  known-IsValid :
      (jid : String) (ms : List Message) (p : Pipe) (q : GroupQueue) (o : Option Group)
      → IsValid cfg q
      → IsValid cfg (route_known u w s cfg env jid ms p q o).queue
  known-IsValid jid ms p q none v = v
  known-IsValid jid ms p q (some g) v =
      (route_incoming_group-IsRouted cfg jid p q u w s env g ms).valid v

  groups-IsValid :
      (chats : Dict String (List Message)) (p : Pipe) (q : GroupQueue)
      → IsValid cfg q
      → IsValid cfg (route_groups u w s cfg env chats p q).queue
  unfolding route_groups
  groups-IsValid [] p q v = v
  groups-IsValid ((jid, ms) ∷ chats) p q v =
      let r = route_known u w s cfg env jid ms p q (lookup jid p.workspaces) in
      let here = known-IsValid jid ms p q (lookup jid p.workspaces) v in
      if_cases {A = Round} (λ x. IsValid cfg x.queue) (is_raised r.routed) (λ y. here)
        (λ n. groups-IsValid chats r.pipe r.queue here)

  found-IsValid :
      (saves : Bool) (ms : List Message) (p : Pipe) (q : GroupQueue)
      → IsValid cfg q
      → IsValid cfg (route_found u w s cfg env saves ms p q).queue
  found-IsValid saves [] p q v = v
  found-IsValid true (m ∷ ms) p q v = groups-IsValid (group_by_chat [] (m ∷ ms)) p q v
  found-IsValid false (m ∷ ms) p q v = v

  -- What the loop does at one chat.
  abbrev turn :
      String → List Message → Dict String (List Message) → Pipe → GroupQueue → Option Group → Round
  turn jid ms chats p q o =
      let r = route_known u w s cfg env jid ms p q o in
      let rest = route_groups u w s cfg env chats r.pipe r.queue in
      if is_raised r.routed
      then round r.pipe r.queue r.sent true
      else record rest { sent = r.sent ++ rest.sent }

  known-Hands :
      (found : List Message) (jid : String) (ms : List Message) (chats : Dict String (List Message))
      (p : Pipe) (q : GroupQueue)
      → ms ≡ keep (λ m. m.chat_jid == jid) found
      → ((p' : Pipe) (q' : GroupQueue)
          → (route_groups u w s cfg env chats p' q').raised ≡ false
          → Hands u w s cfg env found (keys chats) p' q' (route_groups u w s cfg env chats p' q'))
      → (o : Option Group) → lookup jid p.workspaces ≡ o
      → (turn jid ms chats p q o).raised ≡ false
      → Hands u w s cfg env found (jid ∷ keys chats) p q (turn jid ms chats p q o)
  known-Hands found jid ms chats p q e rest none l h = pass l (rest p q h)
  known-Hands found jid ms chats p q e rest (some g) l h =
      let r = route_incoming_group u w s cfg env jid g ms p q in
      elim (Bool-cases (is_raised r.routed)) [
        | inl y ↦ absurd (ground (arith, y, h))
        | inr n ↦
            let calm : (route_groups u w s cfg env chats r.pipe r.queue).raised ≡ false =
              ground (arith, n, h) in
            rw n (hand g ms l e n (rest r.pipe r.queue calm))
      ]

  groups-Hands :
      (found : List Message) (chats : Dict String (List Message)) (p : Pipe) (q : GroupQueue)
      → IsGrouped found chats
      → (route_groups u w s cfg env chats p q).raised ≡ false
      → Hands u w s cfg env found (keys chats) p q (route_groups u w s cfg env chats p q)
  unfolding route_groups
  groups-Hands found [] p q g h = done
  groups-Hands found ((jid, ms) ∷ chats) p q (e, g) h =
      let rest : (p' : Pipe) (q' : GroupQueue)
          → (route_groups u w s cfg env chats p' q').raised ≡ false
          → Hands u w s cfg env found (keys chats) p' q' (route_groups u w s cfg env chats p' q') =
        λ p' q' k. groups-Hands found chats p' q' g k in
      known-Hands found jid ms chats p q e rest (lookup jid p.workspaces) refl h

  found-Hands :
      (found : List Message) (p : Pipe) (q : GroupQueue)
      → (route_found u w s cfg env true found p q).raised ≡ false
      → Hands u w s cfg env found
          (keys (group_by_chat [] found))
          p
          q
          (route_found u w s cfg env true found p q)
  unfolding group_by_chat
  found-Hands [] p q h = done
  found-Hands (m ∷ ms) p q h =
      groups-Hands (m ∷ ms) (group_by_chat [] (m ∷ ms)) p q (group_by_chat-IsGrouped (m ∷ ms)) h

  -- A poll that no exception ends goes through the chats that have new messages, each once: it
  -- routes a known group's with all of them, in order, from the state that the chat before has
  -- left. Then none of the messages is new any more, and a valid queue is still valid.
  pub poll_messages_once :
      (last_timestamp : Text) (p : Pipe) (q : GroupQueue)
      → let r = poll_messages u w s cfg env true last_timestamp p q in
        let found = (get_new_messages (keys p.workspaces) last_timestamp p.messages).0 in
        r.1.raised ≡ false
        → IsValid cfg q
        → (jids : List String) × (distinct jids ≡ true)
          × ((jid : String) → contains jid jids ≡ any (λ m. m.chat_jid == jid) found)
          × Hands u w s cfg env found jids p q r.1
          × (get_new_messages (keys p.workspaces) r.0 p.messages ≡ ([], r.0))
          × IsValid cfg r.1.queue
  unfolding poll_messages
  poll_messages_once last_timestamp p q h v =
      let found = (get_new_messages (keys p.workspaces) last_timestamp p.messages).0 in
      (
        keys (group_by_chat [] found),
        distinct-group_by_chat [] found refl,
        λ jid. contains-group_by_chat jid [] found,
        found-Hands found p q h,
        seen_once (keys p.workspaces) last_timestamp p.messages,
        found-IsValid true found p q v,
      )
