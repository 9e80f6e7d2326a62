-- ===== src/Approvals/Decide.antt =====
-- What is done about a decision: src/pynchy/host/container_manager/ipc/handlers_approval.py.
use pynchy.Base.{
  Bool, List, Option, String, String-eq, [], codes, concat, contains, if◌then◌else◌, insert,
  list-eq, lookup, none, not, or_else, remove, some, true, ℕ, ℕ-eq, ◌++◌, ◌==◌, ◌∷◌,
}
use pynchy.Approvals.Files.{
  text, flag, RequestData, Pending, Decision, File, unreadable, holds, Folder, Futures, Effect,
  resolve_mcp_proxy_approval,
}
use pynchy.Security.Service.{truthy}

-- What a plugin's handler comes to: a response, or an exception's text.
pub data Outcome : Type 0 where
  returned : ℕ → Outcome
  failed : String → Outcome

-- The tools that plugins serve and what they do; the IPC dispatcher, if the caller has one: nothing
-- or an exception's text.
pub record Env : Type 0 where
  pub handlers : List String
  pub run : String → RequestData → Outcome
  pub dispatch : Option (RequestData → String → Option String)

abbrev pub answer : (group request_id : String) → Outcome → List Effect
answer group id (returned r) = Effect.respond group id r ∷ []
answer group id (failed e) =
    Effect.respond_error group id (concat ("Execution failed: " ∷ e ∷ [])) ∷ []

unfoldable pub execute_service_approval :
    Env → RequestData → (source_group request_id tool_name : String) → List Effect
unfolding insert
execute_service_approval env request_data group id tool =
    if not (contains tool env.handlers)
    then Effect.respond_error group id
        (concat ("Approved but tool '" ∷ tool ∷ "' is no longer available" ∷ []))
      ∷ []
    else let data_ = insert "source_group" (text (codes group)) request_data in
      Effect.run_handler tool data_ ∷ answer group id (env.run tool data_)

abbrev on_failure : (group request_id : String) → Option String → List Effect
on_failure group id none = []
on_failure group id (some e) =
    Effect.respond_error group id (concat ("Execution failed: " ∷ e ∷ [])) ∷ []

abbrev pub ipc_effects :
    RequestData
    → (group request_id : String) → Option (RequestData → String → Option String)
    → List Effect
ipc_effects data_ group id none =
    Effect.respond_error group id "Internal error: IPC approval missing deps" ∷ []
ipc_effects data_ group id (some dispatch) =
    Effect.dispatch_ipc data_ group ∷ on_failure group id (dispatch data_ group)

unfoldable pub execute_ipc_approval :
    Env → RequestData → (source_group request_id : String) → List Effect
unfolding insert
execute_ipc_approval env request_data group id =
    ipc_effects (insert "_cop_approved" (flag true) request_data) group id env.dispatch

abbrev verdict : Bool → String
verdict approved = if approved then "approved_by_user" else "denied_by_user"

-- A decision on a request that is pending.
unfoldable pub settle :
    Env → (group request_id : String) → Bool → Pending → Futures → Futures × List Effect
unfolding execute_service_approval execute_ipc_approval resolve_mcp_proxy_approval
settle env group id approved p futures =
    let event = Effect.audit group p.tool_name (verdict approved) id in
    if p.handler_type == "mcp_proxy"
    then (let r = resolve_mcp_proxy_approval id approved futures in (r.0, r.2 ++ event ∷ []))
    else (
      futures,
      if approved
          then (if p.handler_type == "ipc"
              then execute_ipc_approval env p.request_data group id
              else execute_service_approval env p.request_data group id p.tool_name)
            ++ event ∷ []
          else Effect.respond_error group id "Denied by user" ∷ event ∷ [],
    )

abbrev pub drop_decision : String → Folder → Folder
drop_decision file folder = record folder { decisions = remove file folder.decisions }

abbrev pub drop_both : (file request_id : String) → Folder → Folder
drop_both file id folder = record {
  pending = remove id folder.pending;
  decisions = remove file folder.decisions;
}

abbrev pub on_pending :
    Env
    → (file group request_id : String) → Bool
    → Folder
    → Futures
    → Option (File Pending)
    → Folder × Futures × List Effect
on_pending env file group id approved folder futures none = (drop_decision file folder, futures, [])
on_pending env file group id approved folder futures (some unreadable) =
    (drop_both file id folder, futures, [])
on_pending env file group id approved folder futures (some (holds p)) =
    let r = settle env group id approved p futures in (drop_both file id folder, r.0, r.1)

abbrev pub on_decision :
    Env
    → (file group : String) → Folder
    → Futures
    → Option (File Decision)
    → Folder × Futures × List Effect
on_decision env file group folder futures none = (drop_decision file folder, futures, [])
on_decision env file group folder futures (some unreadable) =
    (drop_decision file folder, futures, [])
on_decision env file group folder futures (some (holds d)) =
    if not (truthy d.request_id)
    then (drop_decision file folder, futures, [])
    else let id = or_else d.request_id "" in
      on_pending env file group id d.approved folder futures (lookup id folder.pending)

-- `file` is the stem of the decision file. One that is gone cannot be read.
unfoldable pub process_approval_decision :
    Env → (file group : String) → Folder → Futures → Folder × Futures × List Effect
unfolding settle lookup remove
process_approval_decision env file group folder futures =
    on_decision env file group folder futures (lookup file folder.decisions)
