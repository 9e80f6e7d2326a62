-- ===== src/Approvals/Commands.antt =====
-- The chat's commands on approvals (src/pynchy/host/orchestrator/messaging/approval_handler.py): the
-- store after each, and what the chat is told.
use pynchy.Base.{
  List, Option, String, String-eq, [], concat, if◌then◌else◌, insert, join, list-eq, lookup, map,
  none, some, ℕ, ℕ-eq, ◌==◌, ◌∷◌,
}
use pynchy.Approvals.Files.{Pending, Decision, holds, Store, folder_of}
use pynchy.Approvals.Pending.{find_pending_by_short_id, list_pending_approvals}

abbrev pub write_decision : String → Decision → String → Store → Store
write_decision group d request_id store =
    let folder = folder_of group store in
    insert group (record folder { decisions = insert request_id (holds d) folder.decisions }) store

abbrev pub decide_found :
    (action short sender : String) → ℕ → Store → Option Pending → Store × String
decide_found action short sender now store none =
    (store, concat ("No pending approval found for ID: " ∷ short ∷ []))
decide_found action short sender now store (some p) =
    let approved = action == "approve" in
    let d : Decision = record {
      request_id = some p.request_id;
      approved = approved;
      decided_by = sender;
      decided_at = now;
    } in
    (
      write_decision p.source_group d p.request_id store,
      concat (
          "✅ "
          ∷ (if approved then "Approved" else "Denied")
          ∷ ": "
          ∷ p.tool_name
          ∷ " ("
          ∷ short
          ∷ ")"
          ∷ []),
    )

unfoldable pub handle_approval_command :
    (action short_id sender : String) → (now : ℕ) → Store → Store × String
unfolding find_pending_by_short_id lookup insert
handle_approval_command action short sender now store =
    decide_found action short sender now store (find_pending_by_short_id short store)

abbrev pending_line : Pending → String
pending_line p = concat ("  • " ∷ p.tool_name ∷ " (" ∷ p.short_id ∷ ") — " ∷ p.source_group ∷ [])

abbrev pending_text : List Pending → String
pending_text [] = "No pending approvals."
pending_text (p ∷ ps) = join "\n" ("Pending approvals:\n" ∷ map pending_line (p ∷ ps))

unfoldable pub handle_pending_query : Store → String
unfolding list_pending_approvals
handle_pending_query store = pending_text (list_pending_approvals none store)
