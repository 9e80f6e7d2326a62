-- ===== src/Chat/Reconcile.antt =====
-- src/pynchy/host/orchestrator/messaging/reconciler.py: what a channel has that the host has not seen,
-- and what the host has that a channel was not sent.
use pynchy.Base.{
  Bool, Dict, List, Option, String, String-eq, Text, [], codes, false, if◌then◌else◌, insert,
  is_empty, list-eq, lookup, ltb, map, none, not, or_else, pair-eq, some, true, ℕ, ℕ-eq, ◌&&◌, ◌++◌,
  ◌-◌, ◌==◌, ◌∷◌,
}
use pynchy.Delivery.Cursors.{
  Key, Table, later, get_channel_cursor, advance_cursors_atomic, prune_stale_cursors,
}
use pynchy.Delivery.Outbound.{LedgerRow, Ledger, get_pending_outbound, retry_outbound}
use pynchy.Queue.State.{GroupQueue}
use pynchy.Queue.State.{Settings as QueueSettings}
use pynchy.Queue.Enqueue.{enqueue_message_check}
use pynchy.Config.Access.{
  Settings, Message as Sender, resolve_workspace_connection_name, filter_allowed_messages,
}
use pynchy.Chat.Messages.{Message, Messages, store_message, message_exists}

-- A channel: its name, the chats it owns, what it answers to a fetch (the messages and the
-- high-water mark, or an exception), and what comes of sending (nothing, or an exception's text).
pub record Channel : Type 0 where
  pub name : String
  pub owns_jid : String → Bool
  pub fetch_inbound_since : String → Text → Option (List Message × Text)
  pub send_message : LedgerRow → Option String

-- A chat of `deps.workspaces`.
pub record Workspace : Type 0 where
  pub jid : String
  pub folder : String
  pub is_admin : Bool

-- `recovered` are the messages that were ingested, in order; `raised` is whether an exception has
-- ended the round.
pub record Walk : Type 0 where
  pub messages : Messages
  pub queue : GroupQueue
  pub recovered : List Message
  pub cursor : Text
  pub raised : Bool

-- The state that the reconciler reads and writes.
pub record State : Type 0 where
  pub cursors : Table
  pub ledger : Ledger
  pub walk : Walk
  pub last_reconciled : Dict (String × String) ℕ

-- `_ingest_user_message`, as far as the tables and the queue go.
abbrev pub ingest : QueueSettings → String → Message → Walk → Walk
ingest cfg jid m w = record w {
  messages = store_message m "user" w.messages;
  queue = enqueue_message_check cfg jid w.queue;
  recovered = w.recovered ++ m ∷ [];
}

abbrev pub see : Message → Walk → Walk
see m w = record w { cursor = later w.cursor m.timestamp }

-- Whether the sender is allowed, or an exception.
abbrev pub taken : QueueSettings → String → Message → Option Bool → Walk → Walk
taken cfg jid m none w = record w { raised = true }
taken cfg jid m (some true) w = see m (ingest cfg jid m w)
taken cfg jid m (some false) w = see m w

abbrev pub to_chat : String → Message → Message
to_chat jid m = record m { chat_jid = jid }

unfoldable pub walk_message :
    QueueSettings → String → (Message → Option Bool) → Message → Walk → Walk
unfolding store_message message_exists enqueue_message_check
walk_message cfg jid allow m w =
    if message_exists m.id jid w.messages
    then see m w
    else taken cfg jid (to_chat jid m) (allow (to_chat jid m)) w

unfoldable pub walk_inbound :
    QueueSettings → String → (Message → Option Bool) → List Message → Walk → Walk
unfolding walk_message
walk_inbound cfg jid allow [] w = w
walk_inbound cfg jid allow (m ∷ ms) w =
    let after = walk_message cfg jid allow m w in
    let rest = walk_inbound cfg jid allow ms after in if after.raised then after else rest

-- 30 seconds, 24 hours, and 2000-01-01, in microseconds.
abbrev reconcile_cooldown : ℕ
reconcile_cooldown = 30000000

abbrev initial_lookback : ℕ
initial_lookback = 86400000000

abbrev epoch : ℕ
epoch = 946684800000000

abbrev any_kept : Option (List Sender) → Option Bool
any_kept none = none
any_kept (some []) = some false
any_kept (some (m ∷ ms)) = some true

abbrev pub is_allowed : Settings → Workspace → Channel → Message → Option Bool
is_allowed s ws ch m =
    let sender : Sender = record { sender = codes m.sender; is_from_me = m.is_from_me } in
    any_kept
      (filter_allowed_messages s ws.is_admin (codes ws.folder) (some (codes ch.name)) (sender ∷ []))

abbrev changed : Text → Text → Option Text
changed old new = if new == old then none else some new

abbrev key_of : Channel → Workspace → String → Key
key_of ch ws direction = ((ch.name, ws.jid), direction)

-- The rest of a turn, once the page was walked.
abbrev settle_pair : Channel → Workspace → ℕ → Text → State → Walk → State
settle_pair ch ws now inbound_cursor st w =
    let outbound_cursor = get_channel_cursor (key_of ch ws "outbound") st.cursors in
    let pending = get_pending_outbound ch.name ws.jid st.ledger in
    let retried = retry_outbound ch.name ch.send_message pending st.ledger outbound_cursor in
    if w.raised then record st { walk = w } else record {
      cursors =
          advance_cursors_atomic ch.name ws.jid (changed inbound_cursor w.cursor)
            (changed outbound_cursor retried.1) st.cursors;
      ledger = retried.0;
      walk = w;
      last_reconciled = insert (ch.name, ws.jid) now st.last_reconciled;
    }

abbrev with_page :
    QueueSettings
    → Settings
    → Channel
    → Workspace
    → ℕ
    → Text
    → State
    → Option (List Message × Text)
    → State
with_page cfg s ch ws now inbound_cursor st none = st
with_page cfg s ch ws now inbound_cursor st (some (messages, high_water_mark)) =
    settle_pair ch ws now inbound_cursor st (
      walk_inbound cfg ws.jid (is_allowed s ws ch) messages
        (record st.walk { cursor = later inbound_cursor high_water_mark }))

abbrev is_other : Option Text → String → Bool
is_other none name = false
is_other (some e) name = not (is_empty e) && not (e == codes name)

abbrev or_lookback : (ℕ → Text) → ℕ → Text → Text
or_lookback iso now t = if is_empty t then iso (now - initial_lookback) else t

-- One turn of the two loops.
unfoldable pub reconcile_pair :
    QueueSettings → Settings → (iso : ℕ → Text) → (now : ℕ) → Channel → Workspace → State → State
unfolding resolve_workspace_connection_name filter_allowed_messages walk_inbound lookup insert
    get_channel_cursor advance_cursors_atomic get_pending_outbound retry_outbound
reconcile_pair cfg s iso now ch ws st =
    let last = or_else (lookup (ch.name, ws.jid) st.last_reconciled) epoch in
    let cursor = or_lookback iso now (get_channel_cursor (key_of ch ws "inbound") st.cursors) in
    if is_other (resolve_workspace_connection_name s (codes ws.folder)) ch.name
    then st
    else if not (ch.owns_jid ws.jid)
    then st
    else if ltb (now - last) reconcile_cooldown
    then st
    else with_page cfg s ch ws now cursor st (ch.fetch_inbound_since ws.jid cursor)

abbrev reconcile_channel :
    QueueSettings → Settings → (ℕ → Text) → ℕ → Channel → List Workspace → State → State
reconcile_channel cfg s iso now ch [] st = st
reconcile_channel cfg s iso now ch (ws ∷ rest) st =
    let after = reconcile_pair cfg s iso now ch ws st in
    let more = reconcile_channel cfg s iso now ch rest after in
    if after.walk.raised then after else more

abbrev reconcile_channels :
    QueueSettings → Settings → (ℕ → Text) → ℕ → List Workspace → List Channel → State → State
reconcile_channels cfg s iso now wss [] st = st
reconcile_channels cfg s iso now wss (ch ∷ chs) st =
    let after = reconcile_channel cfg s iso now ch wss st in
    let more = reconcile_channels cfg s iso now wss chs after in
    if after.walk.raised then after else more

unfoldable pub reconcile_all_channels :
    QueueSettings
    → Settings
    → (iso : ℕ → Text) → (now : ℕ) → List Workspace
    → List Channel
    → State
    → State
unfolding reconcile_pair prune_stale_cursors
reconcile_all_channels cfg s iso now wss chs st =
    let after = reconcile_channels cfg s iso now wss chs st in
    if after.walk.raised
    then after
    else record after { cursors = (prune_stale_cursors (map (λ c. c.name) chs) after.cursors).0 }
