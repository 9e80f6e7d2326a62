-- ===== src/Chat/Pipeline.antt =====
-- src/pynchy/host/orchestrator/messaging/pipeline.py: from the messages that a chat has waiting to the
-- agent's run and the chat's cursor.
use pynchy.Base.{
  Bool, Dict, List, Option, String, String-eq, Text, [], all, any, codes, false, if◌then◌else◌,
  insert, is_empty, keep, last, list-eq, lookup, none, not, or_else, remove, some, strip, true,
  ℕ-eq, ◌&&◌, ◌++◌, ◌==◌, ◌||◌, ◌∷◌,
}
use pynchy.Delivery.Cursors.{later}
use pynchy.Security.Classify.{Unicode}
use pynchy.Config.Access.{Settings, ChannelConfig, resolve_channel_config}
use pynchy.Chat.Messages.{Message, Messages, get_messages_since, store_message_direct}
use pynchy.Chat.Commands.{
  Words, match_trigger, is_context_reset, is_end_session, is_redeploy, is_approval_command,
  is_pending_query,
}

pub record Group : Type 0 where
  pub folder : String
  pub is_admin : Bool

-- `reset_prompt.json`
pub data ResetFile : Type 0 where
  missing unreadable : ResetFile
  holds : (message : Text) → (needs_dirty_check : Bool) → ResetFile

-- How an agent's run ends: `run_agent`'s answer, or an exception.
pub data RunEnd : Type 0 where
  ended : String → RunEnd
  failed : RunEnd

-- An output of the agent: whether it was sent to the user, and whether its status is "error".
pub record Output : Type 0 where
  pub sent : Bool
  pub is_error : Bool

-- What other coroutines do to the chat while the call waits for an agent: a message is stored, or
-- the routing loop (inbound.py) takes all that is new to the chat, as a command or for the
-- container.
pub data Happening : Type 0 where
  stored : Message → Happening
  commanded piped : Happening

-- What one call meets. `handoff` and `ending` are the ends of the two runs, and the two lists are
-- what happens while these run; `saves` is whether `save_state` succeeds at the end of the call (a
-- save after a command is taken to succeed). Between the call's other steps nothing happens.
pub record Turn : Type 0 where
  pub reset_file : ResetFile
  pub handoff : RunEnd
  pub outputs : List Output
  pub ending : RunEnd
  pub during_handoff : List Happening
  pub during : List Happening
  pub saves : Bool

-- `last_agent_timestamp`, `_dispatched_through`, and the tables.
pub record Pipe : Type 0 where
  pub workspaces : Dict String Group
  pub cursors : Dict String Text
  pub dispatched : Dict String Text
  pub messages : Messages

pub data Effect : Type 0 where
  context_reset end_session redeploy : Effect
  approval : Text → Text → Effect
  pending_query : Effect
  direct_command : Text → Effect
  run_handoff : Text → Effect
  write_dirty_check : Effect
  run_agent : List Message → Effect
  error_notice : Effect
  merge_worktree : Effect

-- The call's answer, or an exception that leaves it.
pub data Outcome : Type 0 where
  returned : Bool → Outcome
  raises : Outcome

abbrev pub cursor_of : String → Pipe → Text
cursor_of jid p = or_else (lookup jid p.cursors) []

abbrev pub set_cursor : String → Text → Pipe → Pipe
set_cursor jid t p = record p { cursors = insert jid t p.cursors }

abbrev pub after_bang : Text → Option Text
after_bang [] = none
after_bang (c ∷ t) = if (c == b'!') && not (is_empty t) then some t else none

-- What a message's content asks for, in the order of the tests. The two teardowns advance the
-- cursor themselves (`_teardown_group` of session_handler.py), so every branch sets it to the
-- message's time.
abbrev pub other_command : Option (Text × Text) → Bool → Option Text → Option Effect
other_command (some (action, short_id)) pending bang = some (approval action short_id)
other_command none true bang = some pending_query
other_command none false none = none
other_command none false (some command) = some (direct_command command)

unfoldable pub special_command : Unicode → Words → Text → Option Effect
unfolding is_context_reset is_end_session is_redeploy is_approval_command is_pending_query
special_command u w content =
    if is_context_reset u w content
    then some context_reset
    else if is_end_session u w content
    then some end_session
    else if is_redeploy u w content
    then some redeploy
    else other_command (is_approval_command u w content) (is_pending_query u w content)
        (after_bang content)

abbrev pub intercepted : String → Message → Pipe → Option Effect → Pipe × List Effect × Bool
intercepted jid m p none = (p, [], false)
intercepted jid m p (some e) = (set_cursor jid m.timestamp p, e ∷ [], true)

unfoldable pub intercept_special_command :
    Unicode → Words → String → Message → Pipe → Pipe × List Effect × Bool
unfolding special_command strip insert
intercept_special_command u w jid m p = intercepted jid m p (special_command u w (strip m.content))

abbrev pub run_ok : RunEnd → Outcome
run_ok (ended r) = returned (not (r == "error"))
run_ok failed = raises

abbrev pub dirty_check : Bool → RunEnd → List Effect
dirty_check needs_check (ended r) = if needs_check then write_dirty_check ∷ [] else []
dirty_check needs_check failed = []

-- `_advance_cursor`: a failed save undoes the move and raises.
unfoldable pub advance_cursor : Bool → String → Text → Text → Pipe → Pipe × Bool
unfolding insert
advance_cursor saves jid new previous p =
    if saves then (set_cursor jid new p, true) else (set_cursor jid previous p, false)

unfoldable pub mark_dispatched : String → Text → Pipe → Pipe
unfolding insert
mark_dispatched jid t p = record p { dispatched = insert jid t p.dispatched }

abbrev pub was_sent : Turn → Bool
was_sent turn = any (λ o. o.sent) turn.outputs

abbrev pub had_error : Turn → Bool
had_error turn = any (λ o. o.is_error) turn.outputs

-- The furthest of the processed cursor and the dispatched one, which the routing loop starts from.
abbrev pub furthest : String → Pipe → Text
furthest jid p = later (cursor_of jid p) (or_else (lookup jid p.dispatched) [])

abbrev pub unseen : String → Pipe → List Message
unseen jid p = get_messages_since jid (furthest jid p) p.messages

abbrev pub through_last : (Text → Pipe) → Pipe → List Message → Pipe
through_last move p [] = p
through_last move p (m ∷ ms) = move (last m ms).timestamp

unfoldable pub happen : String → Happening → Pipe → Pipe
unfolding store_message_direct get_messages_since mark_dispatched insert lookup
happen jid (stored m) p = record p { messages = store_message_direct m p.messages }
happen jid commanded p = through_last (λ t. set_cursor jid t p) p (unseen jid p)
happen jid piped p = through_last (λ t. mark_dispatched jid t p) p (unseen jid p)

unfoldable pub happen_all : String → List Happening → Pipe → Pipe
unfolding happen
happen_all jid [] p = p
happen_all jid (h ∷ hs) p = happen_all jid hs (happen jid h p)

abbrev pub advanced : Pipe × Bool → List Effect → Pipe × List Effect × Outcome
advanced (p, true) effects = (p, effects, returned true)
advanced (p, false) effects = (p, [], raises)

-- The part after the agent's run; `through` is the last message's time.
abbrev pub after_run :
    Turn → String → (through previous : Text) → RunEnd → Pipe → Pipe × List Effect × Outcome
after_run turn jid through previous failed p = (p, [], raises)
after_run turn jid through previous (ended answer) p =
    let final = later through (or_else (lookup jid p.dispatched) through) in
    let q = record p { dispatched = remove jid p.dispatched } in
    if (answer == "error") || had_error turn
    then (if was_sent turn
        then advanced (advance_cursor turn.saves jid final previous q) []
        else (q, error_notice ∷ [], returned false))
    else advanced (advance_cursor turn.saves jid final previous q) (merge_worktree ∷ [])

abbrev pub with_effects : List Effect → Pipe × List Effect × Outcome → Pipe × List Effect × Outcome
with_effects es (p, fs, o) = (p, es ++ fs, o)

-- `format_messages_for_sdk`
abbrev pub for_sdk : List Message → List Message
for_sdk ms = keep (λ m. not (m.message_type == "host")) ms

-- The state, the effects, and the answer if the file was handled.
unfoldable pub handle_reset_handoff :
    Turn → String → ResetFile → Pipe → Pipe × List Effect × Option Outcome
unfolding happen_all
handle_reset_handoff turn jid missing p = (p, [], none)
handle_reset_handoff turn jid unreadable p = (p, [], none)
handle_reset_handoff turn jid (holds message needs_check) p =
    if is_empty message then (p, [], some (returned true)) else (
      happen_all jid turn.during_handoff p,
      run_handoff message ∷ dirty_check needs_check turn.handoff,
      some (run_ok turn.handoff),
    )

unfoldable pub run_messages :
    Turn → String → Message → List Message → Pipe → Pipe × List Effect × Outcome
unfolding advance_cursor mark_dispatched happen_all lookup remove
run_messages turn jid m ms p =
    let through = (last m ms).timestamp in
    with_effects (run_agent (for_sdk (m ∷ ms)) ∷ []) (
      after_run turn jid through (cursor_of jid p) turn.ending
        (happen_all jid turn.during (mark_dispatched jid through p)))

abbrev pub is_text : Option Text → String → Bool
is_text none s = false
is_text (some t) s = t == codes s

abbrev pub triggered : Unicode → Words → Message → Bool
triggered u w m = elim (match_trigger u w.names (strip m.content)) [ none ↦ false | some t ↦ true ]

-- The checks between the commands and the run.
abbrev pub is_activated : Unicode → Words → Group → ChannelConfig → List Message → Bool
is_activated u w g resolved ms =
    not ((not g.is_admin && is_text resolved.trigger "mention") && not (any (triggered u w) ms))
    && not (is_text resolved.access "read")

abbrev pub after_intercept :
    Unicode
    → Words
    → Settings
    → Turn
    → String
    → Group
    → Message
    → List Message
    → Pipe × List Effect × Bool
    → Pipe × List Effect × Outcome
after_intercept u w s turn jid g m ms (p, es, true) = (p, es, returned true)
after_intercept u w s turn jid g m ms (p, es, false) =
    if is_activated u w g (resolve_channel_config s (codes g.folder)) (m ∷ ms)
    then run_messages turn jid m ms p
    else (p, [], returned true)

abbrev pub for_missed :
    Unicode
    → Words
    → Settings
    → Turn
    → String
    → Group
    → List Message
    → Pipe
    → Pipe × List Effect × Outcome
for_missed u w s turn jid g [] p = (p, [], returned true)
for_missed u w s turn jid g (m ∷ ms) p =
    if all (λ n. n.sender == "system_notice") (m ∷ ms)
    then (p, [], returned true)
    else after_intercept u w s turn jid g m ms (intercept_special_command u w jid (last m ms) p)

abbrev pub after_handoff :
    Unicode
    → Words
    → Settings
    → Turn
    → String
    → Group
    → Pipe × List Effect × Option Outcome
    → Pipe × List Effect × Outcome
after_handoff u w s turn jid g (p, es, some raises) = (p, es, raises)
after_handoff u w s turn jid g (p, es, some (returned false)) = (p, es, returned false)
after_handoff u w s turn jid g (p, es, some (returned true)) =
    with_effects es
      (for_missed u w s turn jid g (get_messages_since jid (cursor_of jid p) p.messages) p)
after_handoff u w s turn jid g (p, es, none) =
    with_effects es
      (for_missed u w s turn jid g (get_messages_since jid (cursor_of jid p) p.messages) p)

abbrev pub for_group :
    Unicode → Words → Settings → Turn → String → Pipe → Option Group → Pipe × List Effect × Outcome
for_group u w s turn jid p none = (p, [], returned true)
for_group u w s turn jid p (some g) =
    after_handoff u w s turn jid g (handle_reset_handoff turn jid turn.reset_file p)

unfoldable pub process_group_messages :
    Unicode → Words → Settings → Turn → String → Pipe → Pipe × List Effect × Outcome
unfolding handle_reset_handoff intercept_special_command run_messages match_trigger strip lookup
    resolve_channel_config get_messages_since
process_group_messages u w s turn jid p = for_group u w s turn jid p (lookup jid p.workspaces)
