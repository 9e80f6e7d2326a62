-- ===== src/Chat/RouteTests.antt =====
-- Routing at concrete inputs.
use pynchy.Base.{
  List, String, String-eq, [], any, codes, contains, distinct, refl, true, ◌==◌, ◌∷◌, ◌≡◌,
}
use pynchy.Security.Classify.{ascii}
use pynchy.Queue.State.{group, get_group, GroupQueue, Settings as QueueSettings}
use pynchy.Queue.Event.{set_callback, task, run}
use pynchy.Queue.Invariant.{IsValid}
use pynchy.Chat.Messages.{Message, get_new_messages}
use pynchy.Chat.Pipeline.{unseen, Group}
use pynchy.Chat.Tests.{some_words, no_settings, message_of, two_waiting, one_waiting}
use pynchy.Chat.Inbound.{Env, queued, commanded, interrupt, route_incoming_group}
use pynchy.Chat.Routed.{is_awaited}
use pynchy.Queue.Runs.{run-IsValid}
use pynchy.Chat.Hands.{Hands}
use pynchy.Chat.Loop.{poll_messages}
use pynchy.Chat.LoopLaws.{poll_messages_once}

abbrev settings : QueueSettings
settings = record { max_concurrent = 2; max_retries = 2; base_retry_seconds = 5 }

abbrev env : Env
env = record { channels = ("tui", λ jid. true) ∷ []; text_of = λ t. "text"; written = λ jid. true }

abbrev admin : Group
admin = record { folder = "main"; is_admin = true }

abbrev new_messages : List Message
new_messages = message_of "m1" (codes "hello") (1 ∷ []) ∷ []

abbrev idle_queue : GroupQueue
idle_queue = run settings (set_callback ∷ [])

abbrev busy_queue : GroupQueue
busy_queue = run settings (set_callback ∷ task "tui:1" "t" 7 ∷ [])

-- An idle chat's message starts a run.
idle_starts :
    let r =
      route_incoming_group ascii some_words no_settings settings env "tui:1" admin new_messages
        one_waiting idle_queue in
    (r.routed ≡ queued) × (is_awaited "tui:1" r.queue ≡ true)
unfolding route_incoming_group run group get_group
idle_starts = (refl, refl)

-- A message during a scheduled task interrupts it.
task_interrupted :
    let r =
      route_incoming_group ascii some_words no_settings settings env "tui:1" admin new_messages
        one_waiting busy_queue in
    (r.routed ≡ queued) × (r.sent ≡ interrupt ∷ [])
unfolding route_incoming_group run group get_group
task_interrupted = (refl, refl)

-- A command's message is not run.
command_taken :
    let r =
      route_incoming_group ascii some_words no_settings settings env "tui:1" admin new_messages
        two_waiting idle_queue in
    (r.routed ≡ commanded) × (unseen "tui:1" r.pipe ≡ [])
unfolding route_incoming_group run group get_group
command_taken = (refl, refl)

poll_messages_once_example :
    let r =
      poll_messages ascii some_words no_settings settings env true [] two_waiting idle_queue in
    let found = (get_new_messages ("tui:1" ∷ []) [] two_waiting.messages).0 in
    (jids : List String) × (distinct jids ≡ true)
    × ((jid : String) → contains jid jids ≡ any (λ m. m.chat_jid == jid) found)
    × Hands ascii some_words no_settings settings env found jids two_waiting idle_queue r.1
    × (get_new_messages ("tui:1" ∷ []) r.0 two_waiting.messages ≡ ([], r.0))
    × IsValid settings r.1.queue
unfolding poll_messages run group get_group
poll_messages_once_example =
    poll_messages_once ascii some_words no_settings settings env [] two_waiting idle_queue refl
      (run-IsValid settings (set_callback ∷ []))
