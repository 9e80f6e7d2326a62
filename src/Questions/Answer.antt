-- ===== src/Questions/Answer.antt =====
-- src/pynchy/host/orchestrator/messaging/ask_user_handler.py: where a user's answer goes.
use pynchy.Base.{Bool, Dict, List, Option, String, [], if◌then◌else◌, none, some, ◌&&◌, ◌∷◌}
use pynchy.Questions.Files.{Question, Store, find_pending_question, resolve_pending_question}

abbrev pub Answer : Type 0
Answer = Dict String String

-- A response file for the container that waits, or a message that starts it anew with the question
-- and the answer; the message's text is left out.
pub data Delivery : Type 0 where
  respond : (group request_id : String) → Answer → Delivery
  enqueue_message : (chat_jid : String) → Question → Answer → Delivery

-- `alive` is whether the group has a session that lives, `written` whether its file can be written.
abbrev pub deliver :
    (alive : String → Bool) → (written : Bool) → String → Answer → Question → Delivery
deliver alive written id answer q =
    if alive q.source_group && written
    then respond q.source_group id answer
    else enqueue_message q.chat_jid q answer

abbrev pub on_found :
    (alive : String → Bool)
    → (written : Bool) → String
    → Answer
    → Store
    → Option Question
    → Store × List Delivery
on_found alive written id answer store none = (store, [])
on_found alive written id answer store (some q) =
    (resolve_pending_question id q.source_group store, deliver alive written id answer q ∷ [])

unfoldable pub handle_ask_user_answer :
    (alive : String → Bool)
    → (written : Bool) → (request_id : String) → Answer
    → Store
    → Store × List Delivery
unfolding find_pending_question resolve_pending_question
handle_ask_user_answer alive written id answer store =
    on_found alive written id answer store (find_pending_question id store)
