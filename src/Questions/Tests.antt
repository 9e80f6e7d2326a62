-- ===== src/Questions/Tests.antt =====
-- Questions at concrete inputs.
use pynchy.Base.{
  List, Option, String, String-eq, [], false, map, none, refl, some, true, ◌==◌, ◌∷◌, ◌≡◌,
}
use pynchy.Approvals.Files.{File}
use pynchy.Questions.Files.{
  Asked, Question, Store, new_question, create_pending_question, find_pending_question,
  find_pending_for_jid, update_message_id, sweep_expired_questions,
}
use pynchy.Questions.Answer.{Answer, deliver, respond, handle_ask_user_answer}
use pynchy.Questions.AnswerLaws.{handle_ask_user_answer_once}

abbrev asked : List Asked
asked = record { question = "Which auth strategy?"; options = "JWT" ∷ "OAuth" ∷ [] } ∷ []

abbrev answer : Answer
answer = ("answer", "JWT") ∷ []

abbrev one_pending : Store
one_pending =
    (
      "ops",
      ("broken", File.unreadable)
          ∷ ("q1", File.holds (new_question "q1" "ops" "tui:2" "tui" "s1" asked none 0))
          ∷ [],
    )
    ∷ []

handle_ask_user_answer_once_example :
    let store = create_pending_question "q2" "main" "tui:1" "tui" "s2" asked none 5 one_pending in
    let q = new_question "q2" "main" "tui:1" "tui" "s2" asked none 5 in
    let r = handle_ask_user_answer (λ g. true) false "q2" answer store in
    (r.1 ≡ deliver (λ g. true) false "q2" answer q ∷ [])
    × (find_pending_question "q2" r.0 ≡ none)
    × ((again : Answer) → handle_ask_user_answer (λ g. true) false "q2" again r.0 ≡ (r.0, []))
    × ((other : String)
        → ("q2" == other) ≡ false
        → find_pending_question other r.0 ≡ find_pending_question other one_pending)
unfolding find_pending_question
handle_ask_user_answer_once_example =
    handle_ask_user_answer_once "q2" "main" "tui:1" "tui" "s2" asked none 5 one_pending refl refl
      (λ g. true) false answer

-- A living container is answered by a file.
answered_by_file :
    (handle_ask_user_answer (λ g. true) true "q1" answer one_pending).1
    ≡ respond "ops" "q1" answer ∷ []
unfolding handle_ask_user_answer
answered_by_file = refl

abbrev map_message_id : Option Question → Option String
map_message_id none = none
map_message_id (some q) = q.message_id

widget_noted :
    map_message_id (find_pending_for_jid "tui:2" (update_message_id "q1" "ops" "m7" one_pending))
    ≡ some "m7"
unfolding find_pending_for_jid update_message_id
widget_noted = refl

-- After the timeout the question is answered with an error; a file that cannot be read stays.
swept_after_timeout :
    let r = sweep_expired_questions 1800000001 one_pending in
    (map (λ e. e.1.request_id) r.1 ≡ "q1" ∷ [])
    × (r.0 ≡ ("ops", ("broken", File.unreadable) ∷ []) ∷ [])
unfolding sweep_expired_questions
swept_after_timeout = (refl, refl)

kept_at_timeout : (sweep_expired_questions 1800000000 one_pending).0 ≡ one_pending
unfolding sweep_expired_questions
kept_at_timeout = refl
