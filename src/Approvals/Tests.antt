-- ===== src/Approvals/Tests.antt =====
-- The approval gate at concrete inputs.
use pynchy.Base.{
  String, String-eq, [], codes, list-eq, lookup, map, none, refl, some, sort_by, true, ℕ, ℕ-eq,
  ◌++◌, ◌∷◌, ◌≡◌,
}
use pynchy.Approvals.Files.{
  text, other, RequestData, Pending, Decision, unreadable, holds, Folder, Store, Effect, folder_of,
}
use pynchy.Approvals.Pending.{
  generate_short_id, create_pending_approval, find_pending_by_short_id,
  format_approval_notification, by_time,
}
use pynchy.Approvals.Commands.{handle_approval_command, handle_pending_query}
use pynchy.Approvals.Decide.{Env, returned, process_approval_decision, execute_service_approval}
use pynchy.Approvals.Sweep.{sweep_expired_approvals}
use pynchy.Approvals.DecideLaws.{
  Ruling, ruling, is_due, answers_due, answered, executions, one_if,
  process_approval_decision_answers,
}
use pynchy.Approvals.SweepLaws.{
  expired_store, swept_store, is_clean_store, named, request_in, sweep_expired_approvals_exact,
}
use pynchy.Approvals.FlowLaws.{approval_flow}

abbrev mail_env : Env
mail_env = record {
  handlers = "send_mail" ∷ [];
  run = λ tool d. returned 7;
  dispatch = some (λ d group. none);
}

abbrev mail_data : RequestData
mail_data =
    ("type", text (codes "service:send_mail"))
    ∷ ("to", text (codes "a@b"))
    ∷ ("count", other (codes "3"))
    ∷ ("_cop", text (codes "x"))
    ∷ []

abbrev pending_of : String → String → ℕ → Pending
pending_of id short time = record {
  request_id = id;
  short_id = short;
  tool_name = "send_mail";
  source_group = "main";
  chat_jid = "tui:1";
  request_data = mail_data;
  handler_type = "service";
  timestamp = time;
}

abbrev approve_r1 : Decision
approve_r1 = record {
  request_id = some "r1";
  approved = true;
  decided_by = "alice";
  decided_at = 9;
}

-- One readable request, one file that is no JSON, a decision on the first and an orphan.
abbrev main_folder : Folder
main_folder = record {
  pending = ("r1", holds (pending_of "r1" "a1" 5)) ∷ ("r2", unreadable) ∷ [];
  decisions = ("r1", holds approve_r1) ∷ ("r9", unreadable) ∷ [];
}

abbrev two_groups : Store
two_groups = ("errors", main_folder) ∷ ("main", main_folder) ∷ []

notification :
    format_approval_notification "send_mail" mail_data "a1"
    ≡ 128272 ∷ codes " Approval required\n\nAction: send_mail\nDetails:\n  to: a@b\n  count: 3\n\n"
      ++ 8594 ∷ codes " approve a1  /  deny a1"
unfolding format_approval_notification
notification = refl

pending_query : handle_pending_query two_groups ≡ "Pending approvals:\n\n  • send_mail (a1) — main"
unfolding handle_pending_query
pending_query = refl

short_id_skips : generate_short_id ("a1" ∷ "b2" ∷ []) "xyz" main_folder ≡ "b2"
unfolding generate_short_id
short_id_skips = refl

sorted_by_time :
    sort_by by_time (pending_of "x" "xx" 3 ∷ pending_of "y" "yy" 1 ∷ pending_of "z" "zz" 3 ∷ [])
    ≡ pending_of "y" "yy" 1 ∷ pending_of "x" "xx" 3 ∷ pending_of "z" "zz" 3 ∷ []
sorted_by_time = refl

unknown_id :
    handle_approval_command "approve" "q9" "alice" 9 two_groups
    ≡ (two_groups, "No pending approval found for ID: q9")
unfolding handle_approval_command
unknown_id = refl

-- The tool "Bash", which no plugin serves.
bash_gone :
    execute_service_approval mail_env [] "main" "r1" "Bash"
    ≡ Effect.respond_error "main" "r1" "Approved but tool 'Bash' is no longer available" ∷ []
unfolding execute_service_approval
bash_gone = refl

process_approval_decision_answers_example :
    let es = (process_approval_decision mail_env "r1" "main" main_folder []).2 in
    (executions es ≡ one_if (is_due mail_env (ruling "r1" main_folder)))
    × (answered es ≡ answers_due mail_env "main" (ruling "r1" main_folder))
process_approval_decision_answers_example =
    process_approval_decision_answers mail_env "r1" "main" main_folder []

approved_runs : executions (process_approval_decision mail_env "r1" "main" main_folder []).2 ≡ 1
unfolding process_approval_decision
approved_runs = refl

sweep_expired_approvals_exact_example :
    let r = sweep_expired_approvals 300000006 two_groups in
    let expired = expired_store 300000006 two_groups in
    (answered r.1 ≡ map named expired)
    × (r.2 ≡ map request_in expired)
    × (r.0 ≡ swept_store 300000006 two_groups)
    × (is_clean_store 300000006 r.0 ≡ true)
sweep_expired_approvals_exact_example = sweep_expired_approvals_exact 300000006 two_groups

expired_answers : answered (sweep_expired_approvals 300000006 two_groups).1 ≡ ("main", "r1") ∷ []
unfolding sweep_expired_approvals
expired_answers = refl

-- Five minutes are not more than five minutes.
not_yet : answered (sweep_expired_approvals 300000005 two_groups).1 ≡ []
unfolding sweep_expired_approvals
not_yet = refl

abbrev mail_short : String
mail_short = generate_short_id ("a1" ∷ "c3" ∷ []) "xyz" main_folder

mail_unknown : find_pending_by_short_id mail_short two_groups ≡ none
unfolding find_pending_by_short_id generate_short_id
mail_unknown = refl

abbrev mail_created : Store × String
mail_created =
    create_pending_approval "r3" "send_mail" "main" "tui:1" mail_data "service" 8 ("a1" ∷ "c3" ∷ [])
      "xyz" two_groups

abbrev mail_decided : Store
mail_decided = (handle_approval_command "approve" mail_created.1 "alice" 9 mail_created.0).0

abbrev mail_request : Pending
mail_request = record {
  request_id = "r3";
  short_id = mail_short;
  tool_name = "send_mail";
  source_group = "main";
  chat_jid = "tui:1";
  request_data = mail_data;
  handler_type = "service";
  timestamp = 8;
}

abbrev mail_given : Ruling
mail_given = record { id = "r3"; approved = true; request = mail_request }

approval_flow_example :
    let r = process_approval_decision mail_env "r3" "main" (folder_of "main" mail_decided) [] in
    (find_pending_by_short_id mail_created.1 mail_created.0 ≡ some mail_request)
    × (executions r.2 ≡ one_if (is_due mail_env (some mail_given)))
    × (answered r.2 ≡ answers_due mail_env "main" (some mail_given))
    × (lookup "r3" r.0.pending ≡ none)
    × (lookup "r3" r.0.decisions ≡ none)
unfolding lookup
approval_flow_example =
    approval_flow "r3" "send_mail" "main" "tui:1" mail_data "service" 8 ("a1" ∷ "c3" ∷ []) "xyz"
      two_groups "approve" "alice" 9 mail_unknown refl mail_env [] refl

mail_short-c3 : mail_short ≡ "c3"
unfolding generate_short_id
mail_short-c3 = refl
