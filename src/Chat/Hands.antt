-- ===== src/Chat/Hands.antt =====
-- A turn of the loop over new messages, as the sequence of its calls.
use pynchy.Base.{List, String, String-eq, [], false, keep, lookup, none, some, ◌++◌, ◌==◌, ◌∷◌, ◌≡◌}
use pynchy.Queue.State.{GroupQueue}
use pynchy.Queue.State.{Settings as QueueSettings}
use pynchy.Security.Classify.{Unicode}
use pynchy.Config.Access.{Settings}
use pynchy.Chat.Messages.{Message}
use pynchy.Chat.Commands.{Words}
use pynchy.Chat.Pipeline.{Group, Pipe}
use pynchy.Chat.Inbound.{route_incoming_group, Env}
use pynchy.Chat.Loop.{Round, round, is_raised}

-- The chats are gone through one by one, each from the state that the one before has left: a chat of
-- a known group is routed with its messages among `found`, all of them and in order; no call raises.
pub data Hands (u : Unicode) (w : Words) (s : Settings) (cfg : QueueSettings) (env : Env)
    (found : List Message) : List String → Pipe → GroupQueue → Round → Type 0 where
  done : {p : Pipe} {q : GroupQueue} → Hands u w s cfg env found [] p q (round p q [] false)
  hand :
      {jid : String} {jids : List String} {p : Pipe} {q : GroupQueue} {rest : Round}
      → (g : Group) (ms : List Message) → lookup jid p.workspaces ≡ some g
      → ms ≡ keep (λ m. m.chat_jid == jid) found
      → is_raised (route_incoming_group u w s cfg env jid g ms p q).routed ≡ false
      → Hands u w s cfg env found jids
          (route_incoming_group u w s cfg env jid g ms p q).pipe
          (route_incoming_group u w s cfg env jid g ms p q).queue
          rest
      → Hands u w s cfg env found (jid ∷ jids) p q (record rest {
        sent = (route_incoming_group u w s cfg env jid g ms p q).sent ++ rest.sent;
      })
  pass :
      {jid : String} {jids : List String} {p : Pipe} {q : GroupQueue} {rest : Round}
      → lookup jid p.workspaces ≡ none
      → Hands u w s cfg env found jids p q rest
      → Hands u w s cfg env found (jid ∷ jids) p q rest
