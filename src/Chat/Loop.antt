-- ===== src/Chat/Loop.antt =====
-- src/pynchy/host/orchestrator/messaging/inbound.py: one turn of the loop over new messages.
use pynchy.Base.{
  Bool, Dict, List, Option, String, String-eq, Text, [], false, if◌then◌else◌, insert, keys, lookup,
  none, or_else, some, true, ◌++◌, ◌∷◌,
}
use pynchy.Security.Classify.{Unicode}
use pynchy.Config.Access.{Settings}
use pynchy.Queue.State.{GroupQueue}
use pynchy.Queue.State.{Settings as QueueSettings}
use pynchy.Chat.Messages.{Message, get_new_messages}
use pynchy.Chat.Commands.{Words}
use pynchy.Chat.Pipeline.{Group, Pipe}
use pynchy.Chat.Inbound.{
  Env, Routed, skipped, commanded, piped, queued, Sent, Way, way, route_incoming_group,
}

-- `messages_by_group`
unfoldable pub group_by_chat :
    Dict String (List Message) → List Message → Dict String (List Message)
unfolding insert lookup
group_by_chat chats [] = chats
group_by_chat chats (m ∷ ms) =
    group_by_chat (insert m.chat_jid (or_else (lookup m.chat_jid chats) [] ++ m ∷ []) chats) ms

abbrev pub is_raised : Routed → Bool
is_raised Routed.raised = true
is_raised skipped = false
is_raised commanded = false
is_raised piped = false
is_raised queued = false

abbrev pub route_known :
    Unicode
    → Words
    → Settings
    → QueueSettings
    → Env
    → String
    → List Message
    → Pipe
    → GroupQueue
    → Option Group
    → Way
route_known u w s cfg env jid ms p q none = way p q [] skipped
route_known u w s cfg env jid ms p q (some g) = route_incoming_group u w s cfg env jid g ms p q

-- What a turn of the loop leaves; `raised` is whether an exception has ended it.
pub record Round : Type 0 where
  pub pipe : Pipe
  pub queue : GroupQueue
  pub sent : List Sent
  pub raised : Bool

abbrev pub round : Pipe → GroupQueue → List Sent → Bool → Round
round p q es b = record { pipe = p; queue = q; sent = es; raised = b }

-- The loop over the chats, which an exception ends.
unfoldable pub route_groups :
    Unicode
    → Words
    → Settings
    → QueueSettings
    → Env
    → Dict String (List Message)
    → Pipe
    → GroupQueue
    → Round
unfolding route_incoming_group lookup
route_groups u w s cfg env [] p q = round p q [] false
route_groups u w s cfg env ((jid, ms) ∷ chats) p q =
    let r = route_known u w s cfg env jid ms p q (lookup jid p.workspaces) in
    let rest = route_groups u w s cfg env chats r.pipe r.queue in
    if is_raised r.routed
    then round r.pipe r.queue r.sent true
    else record rest { sent = r.sent ++ rest.sent }

abbrev pub route_found :
    Unicode
    → Words
    → Settings
    → QueueSettings
    → Env
    → (saves : Bool) → List Message
    → Pipe
    → GroupQueue
    → Round
route_found u w s cfg env saves [] p q = round p q [] false
route_found u w s cfg env saves (m ∷ ms) p q =
    if saves then route_groups u w s cfg env (group_by_chat [] (m ∷ ms)) p q else round p q [] true

-- One turn of `start_message_loop`, with `last_timestamp`; the time is the last one if nothing is
-- new. `saves` is whether `save_state` succeeds.
unfoldable pub poll_messages :
    Unicode
    → Words
    → Settings
    → QueueSettings
    → Env
    → (saves : Bool) → (last_timestamp : Text) → Pipe
    → GroupQueue
    → Text × Round
unfolding get_new_messages route_groups group_by_chat
poll_messages u w s cfg env saves last_timestamp p q =
    let found = get_new_messages (keys p.workspaces) last_timestamp p.messages in
    (found.1, route_found u w s cfg env saves found.0 p q)
