-- ===== src/Chat/Inbound.antt =====
-- src/pynchy/host/orchestrator/messaging/inbound.py: where a chat's new messages go, to a container
-- that runs, to a scheduled task's, or to a new run.
use pynchy.Base.{
  Bool, List, Option, String, String-eq, Text, [], all, any, codes, concat, drop, false,
  if◌then◌else◌, is_prefix, join, last, lookup, map, none, not, some, strip, take, true, ◌&&◌, ◌==◌,
  ◌||◌, ◌∷◌,
}
use pynchy.Security.Classify.{Unicode, lowercase}
use pynchy.Config.Access.{
  Settings, Message as Sender, resolve_channel_config, filter_allowed_messages,
}
use pynchy.Queue.State.{GroupQueue}
use pynchy.Queue.State.{Settings as QueueSettings}
use pynchy.Queue.Enqueue.{enqueue_message_check}
use pynchy.Queue.Containers.{is_active_task, send_message, clear_pending_tasks}
use pynchy.Chat.Messages.{Message, get_messages_since}
use pynchy.Chat.Commands.{match_trigger, Words, is_any_magic_command}
use pynchy.Chat.Pipeline.{
  unseen, Group, Pipe, Effect, intercept_special_command, mark_dispatched, is_text, triggered,
}

-- What routing meets: the channels with the chats that they own, how a text of code points is
-- handed to the queue, and whether the container's input file can be written.
pub record Env : Type 0 where
  pub channels : List (String × (String → Bool))
  pub text_of : Text → String
  pub written : String → Bool

-- What became of the messages: left, an exception, a command, in a container's hands, or the queue
-- is to run them.
pub data Routed : Type 0 where
  skipped raised commanded piped queued : Routed

-- The calls other than the queue's. A reaction is left out; `interrupt` starts `stop_active_process`
-- in the background.
pub data Sent : Type 0 where
  command : Effect → Sent
  forwarded : Text → Sent
  add_todo : (folder : String) → Text → Sent
  interrupt : Sent

pub record Way : Type 0 where
  pub pipe : Pipe
  pub queue : GroupQueue
  pub sent : List Sent
  pub routed : Routed

abbrev pub way : Pipe → GroupQueue → List Sent → Routed → Way
way p q es r = record { pipe = p; queue = q; sent = es; routed = r }

abbrev pub channel_of : String → List (String × (String → Bool)) → Option Text
channel_of jid [] = none
channel_of jid ((name, owns) ∷ chs) = if owns jid then some (codes name) else channel_of jid chs

abbrev with_kept : Message → Option (List Sender) → Option (List Message) → Option (List Message)
with_kept m none rest = none
with_kept m (some []) rest = rest
with_kept m (some (x ∷ xs)) none = none
with_kept m (some (x ∷ xs)) (some ms) = some (m ∷ ms)

-- `filter_allowed_messages`, which looks at each message by itself.
unfoldable pub kept_messages : Settings → Group → Option Text → List Message → Option (List Message)
unfolding filter_allowed_messages
kept_messages s g channel [] = some []
kept_messages s g channel (m ∷ ms) =
    let sender : Sender = record { sender = codes m.sender; is_from_me = m.is_from_me } in
    with_kept m (filter_allowed_messages s g.is_admin (codes g.folder) channel (sender ∷ []))
      (kept_messages s g channel ms)

abbrev pub starts_with : Unicode → String → Text → Bool
starts_with u word t = is_prefix (codes word) (lowercase u t)

-- `text[:500]` of what is forwarded.
abbrev pub shown : Text → Text
shown t = take 500 t

abbrev pub formatted : (Text → String) → List Message → String
formatted text_of ms =
    join "\n" (map (λ m. concat (m.sender_name ∷ ": " ∷ text_of m.content ∷ [])) ms)

abbrev pub todo_notice : String → String
todo_notice item =
    concat
      ("[System notice — no response needed] User added a todo item to your list: " ∷ item ∷ [])

unfoldable pub handle_message_during_task :
    Unicode
    → QueueSettings
    → Env
    → String
    → Group
    → (formatted : String) → (last_content : Text) → Pipe
    → GroupQueue
    → Way
unfolding send_message enqueue_message_check clear_pending_tasks is_prefix
handle_message_during_task u cfg env jid g text content p q =
    let item = drop 5 content in
    let notice = todo_notice (env.text_of item) in
    if starts_with u "btw " content
    then way p (enqueue_message_check cfg jid (send_message (env.written jid) jid text q).0)
        (forwarded (shown content) ∷ []) queued
    else if starts_with u "todo " content
    then way p (enqueue_message_check cfg jid (send_message (env.written jid) jid notice q).0)
        (add_todo g.folder item ∷ []) queued
    else way p (enqueue_message_check cfg jid (clear_pending_tasks jid q)) (interrupt ∷ []) queued

-- `sent` is what `send_message` did; `through` the last message's time.
abbrev pub to_container :
    Unicode
    → QueueSettings
    → String
    → (last_content through : Text) → Pipe
    → GroupQueue × Bool
    → Way
to_container u cfg jid content through p (q, true) =
    if starts_with u "btw " content
    then way p (enqueue_message_check cfg jid q) (forwarded (shown content) ∷ []) queued
    else way (mark_dispatched jid through p) q [] piped
to_container u cfg jid content through p (q, false) =
    way p (enqueue_message_check cfg jid q) [] queued

unfoldable pub route_to_agent :
    Unicode
    → QueueSettings
    → Env
    → String
    → Group
    → Message
    → List Message
    → Pipe
    → GroupQueue
    → Way
unfolding handle_message_during_task is_active_task send_message enqueue_message_check
    mark_dispatched strip is_prefix
route_to_agent u cfg env jid g m ms p q =
    let content = strip (last m ms).content in
    let text = formatted env.text_of (m ∷ ms) in
    let active = is_active_task jid q in
    if active.1
    then handle_message_during_task u cfg env jid g text content p active.0
    else to_container u cfg jid content (last m ms).timestamp p
        (send_message (env.written jid) jid text active.0)

abbrev pub after_command :
    Unicode
    → QueueSettings
    → Env
    → String
    → Group
    → Message
    → List Message
    → GroupQueue
    → Pipe × List Effect × Bool
    → Way
after_command u cfg env jid g m ms q (p, es, true) = way p q (map command es) commanded
after_command u cfg env jid g m ms q (p, es, false) = route_to_agent u cfg env jid g m ms p q

abbrev pub route_pending :
    Unicode → Words → QueueSettings → Env → String → Group → Pipe → GroupQueue → List Message → Way
route_pending u w cfg env jid g p q [] = way p q [] skipped
route_pending u w cfg env jid g p q (m ∷ ms) =
    let active = is_active_task jid q in
    if not active.1 && all (λ n. n.sender == "system_notice") (m ∷ ms)
    then way p active.0 [] skipped
    else after_command u cfg env jid g m ms active.0
        (intercept_special_command u w jid (last m ms) p)

abbrev pub route_kept :
    Unicode
    → Words
    → QueueSettings
    → Env
    → String
    → Group
    → (needs_trigger : Bool) → Pipe
    → GroupQueue
    → Option (List Message)
    → Way
route_kept u w cfg env jid g needs p q none = way p q [] raised
route_kept u w cfg env jid g needs p q (some []) = way p q [] skipped
route_kept u w cfg env jid g needs p q (some (n ∷ ns)) =
    if (needs && not (any (triggered u w) (n ∷ ns)))
      && not (is_any_magic_command u w (strip (last n ns).content))
    then way p q [] skipped
    else route_pending u w cfg env jid g p q (unseen jid p)

unfoldable pub route_incoming_group :
    Unicode
    → Words
    → Settings
    → QueueSettings
    → Env
    → String
    → Group
    → List Message
    → Pipe
    → GroupQueue
    → Way
unfolding resolve_channel_config kept_messages route_to_agent is_active_task
    intercept_special_command is_any_magic_command match_trigger strip lookup get_messages_since
route_incoming_group u w s cfg env jid g ms p q =
    let resolved = resolve_channel_config s (codes g.folder) in
    if is_text resolved.access "read" || is_text resolved.access "write"
    then way p q [] skipped
    else route_kept u w cfg env jid g (not g.is_admin && is_text resolved.trigger "mention") p q
        (kept_messages s g (channel_of jid env.channels) ms)
