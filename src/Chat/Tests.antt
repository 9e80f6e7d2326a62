-- ===== src/Chat/Tests.antt =====
-- The chats' pipeline at concrete inputs.
use pynchy.Base.{
  Bool, List, Option, String, String-eq, Text, [], codes, false, list-eq, map, none, refl, some,
  true, ℕ-eq, ◌==◌, ◌∷◌, ◌≡◌,
}
use pynchy.Security.Classify.{ascii}
use pynchy.Config.Access.{Settings, empty_tier}
use pynchy.Chat.Messages.{Message, get_chat_history}
use pynchy.Chat.Commands.{Words, is_context_reset, is_approval_command}
use pynchy.Chat.Pipeline.{
  Happening, ResetFile, ended, Turn, Pipe, Effect, returned, process_group_messages,
}
use pynchy.Chat.PipelineLaws.{waiting}
use pynchy.Queue.State.{new_queue, Settings as QueueSettings}
use pynchy.Chat.Reconcile.{Walk, walk_inbound}
use pynchy.Chat.ReconcileLaws.{IsWalk, walk_inbound-IsWalk}

abbrev pub some_words : Words
some_words = record {
  names = codes "pynchy" ∷ codes "ghost" ∷ [];
  reset_verbs = codes "reset" ∷ codes "clear" ∷ [];
  reset_nouns = codes "context" ∷ codes "chat" ∷ [];
  reset_aliases = codes "c" ∷ [];
  end_verbs = codes "end" ∷ [];
  end_nouns = codes "session" ∷ [];
  end_aliases = codes "done" ∷ [];
  redeploy_verbs = codes "deploy" ∷ [];
  redeploy_aliases = codes "r" ∷ [];
}

reset_either_order : is_context_reset ascii some_words (codes "@Pynchy  chat RESET ") ≡ true
unfolding is_context_reset
reset_either_order = refl

other_name : is_context_reset ascii some_words (codes "@pynchyc c") ≡ false
unfolding is_context_reset
other_name = refl

approve_words :
    is_approval_command ascii some_words (codes "@ghost Approve A7")
    ≡ some (codes "approve", codes "a7")
unfolding is_approval_command
approve_words = refl

abbrev pub message_of : String → Text → Text → Message
message_of id content timestamp = record {
  id = id;
  chat_jid = "tui:1";
  sender = "alice";
  sender_name = "Alice";
  content = content;
  timestamp = timestamp;
  is_from_me = false;
  message_type = "user";
}

history_newest_last :
    map
      (λ m. m.id)
      (get_chat_history "tui:1" none 2 (
        message_of "m3" [] (3 ∷ [])
        ∷ message_of "m1" [] (1 ∷ [])
        ∷ message_of "m2" [] (2 ∷ [])
        ∷ []))
    ≡ "m2" ∷ "m3" ∷ []
unfolding get_chat_history
history_newest_last = refl

abbrev pub no_settings : Settings
no_settings = record {
  workspaces = [];
  sandbox_profiles = [];
  sandbox_universal = empty_tier;
  slack = [];
  whatsapp = [];
  user_groups = [];
  owner_slack = none;
}

abbrev pub two_waiting : Pipe
two_waiting = record {
  workspaces = ("tui:1", record { folder = "main"; is_admin = true }) ∷ [];
  cursors = [];
  dispatched = [];
  messages =
      message_of "m2" (codes "pending") (2 ∷ []) ∷ message_of "m1" (codes "hello") (1 ∷ []) ∷ [];
}

abbrev quiet_turn : Turn
quiet_turn = record {
  reset_file = ResetFile.missing;
  handoff = ended "success";
  outputs = record { sent = true; is_error = false } ∷ [];
  ending = ended "success";
  during_handoff = [];
  during = [];
  saves = true;
}

-- While the agent runs, a question and then a command are stored and routed.
abbrev busy_turn : Turn
busy_turn = record quiet_turn {
  during =
      Happening.stored (message_of "m3" (codes "and this?") (3 ∷ []))
      ∷ Happening.piped
      ∷ Happening.stored (message_of "m4" (codes "pending") (4 ∷ []))
      ∷ Happening.commanded
      ∷ [];
}

abbrev pub one_waiting : Pipe
one_waiting = record two_waiting { messages = message_of "m1" (codes "hello") (1 ∷ []) ∷ [] }

-- The run's end moves the cursor back before the command that was taken meanwhile, so that the
-- command waits again.
command_waits_again :
    let r = process_group_messages ascii some_words no_settings busy_turn "tui:1" one_waiting in
    map (λ m. m.id) (waiting "tui:1" r.0) ≡ "m4" ∷ []
unfolding process_group_messages
command_waits_again = refl

-- A command that comes last is all that a turn sees: the agent is not run on the message before it,
-- and that message waits no more.
command_hides_message :
    let r = process_group_messages ascii some_words no_settings quiet_turn "tui:1" two_waiting in
    (r.1 ≡ Effect.pending_query ∷ []) × (waiting "tui:1" r.0 ≡ [])
unfolding process_group_messages
command_hides_message = (refl, refl)

-- An error with no output leaves the message waiting.
error_keeps :
    let turn = record quiet_turn { outputs = []; ending = ended "error" } in
    let r = process_group_messages ascii some_words no_settings turn "tui:1" one_waiting in
    (r.2 ≡ returned false) × (map (λ m. m.id) (waiting "tui:1" r.0) ≡ "m1" ∷ [])
unfolding process_group_messages
error_keeps = (refl, refl)

abbrev queue_settings : QueueSettings
queue_settings = record { max_concurrent = 2; max_retries = 3; base_retry_seconds = 5 }

abbrev walk_start : Walk
walk_start = record {
  messages = message_of "m1" (codes "hello") (1 ∷ []) ∷ [];
  queue = new_queue;
  recovered = [];
  cursor = [];
  raised = false;
}

abbrev alice_only : Message → Option Bool
alice_only m = some (m.sender == "alice")

abbrev page : List Message
page =
    message_of "m1" (codes "hello") (1 ∷ [])
    ∷ record (message_of "m3" (codes "buy") (3 ∷ [])) { sender = "mallory" }
    ∷ message_of "m2" (codes "news") (2 ∷ [])
    ∷ []

walk_inbound-IsWalk_example :
    IsWalk queue_settings "tui:1" alice_only page walk_start
      (walk_inbound queue_settings "tui:1" alice_only page walk_start)
unfolding walk_inbound
walk_inbound-IsWalk_example =
    walk_inbound-IsWalk queue_settings "tui:1" alice_only page walk_start refl refl

page_recovered :
    let w = walk_inbound queue_settings "tui:1" alice_only page walk_start in
    (map (λ m. m.id) w.recovered ≡ "m2" ∷ []) × (w.cursor ≡ 3 ∷ [])
unfolding walk_inbound
page_recovered = (refl, refl)
