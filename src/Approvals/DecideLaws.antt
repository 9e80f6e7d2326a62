-- ===== src/Approvals/DecideLaws.antt =====
-- What handlers_approval.py leaves behind, and what it answers.
use pynchy.Base.{
  Bool, Bool-cases, List, Option, Option-cases, String, String-eq, [], arith, codes, contains,
  false, if◌then◌else◌, inl, inr, insert, list-eq, lookup, none, not, or_else, refl, some, suc,
  true, ℕ, ℕ-eq, ◌&&◌, ◌++◌, ◌==◌, ◌||◌, ◌∷◌, ◌≡◌,
}
use pynchy.Approvals.Files.{
  text, flag, RequestData, Pending, Decision, File, unreadable, holds, Folder, Futures, Effect,
  resolve_mcp_proxy_approval, resolution, flag, text,
}
use pynchy.Approvals.Decide.{
  Env, Outcome, returned, failed, settle, process_approval_decision, on_decision, on_pending,
  execute_service_approval, execute_ipc_approval, answer, ipc_effects,
}
use pynchy.Security.Service.{truthy}

-- A decision that counts: the request's id, whether it is approved, and the request.
pub record Ruling : Type 0 where
  pub id : String
  pub approved : Bool
  pub request : Pending

abbrev pub ruling_on : String → Bool → Option (File Pending) → Option Ruling
ruling_on id approved none = none
ruling_on id approved (some unreadable) = none
ruling_on id approved (some (holds p)) = some (record { id = id; approved = approved; request = p })

abbrev pub ruling_of : Folder → Option (File Decision) → Option Ruling
ruling_of folder none = none
ruling_of folder (some unreadable) = none
ruling_of folder (some (holds d)) =
    if truthy d.request_id
    then ruling_on (or_else d.request_id "") d.approved
        (lookup (or_else d.request_id "") folder.pending)
    else none

-- The decision file can be read and names a request whose file can be read.
abbrev pub ruling : String → Folder → Option Ruling
ruling file folder = ruling_of folder (lookup file folder.decisions)

-- The request that a decision file names.
abbrev pub named_by : Option (File Decision) → String → Bool
named_by none id = false
named_by (some unreadable) id = false
named_by (some (holds d)) id = truthy d.request_id && (or_else d.request_id "" == id)

abbrev pub names : String → Folder → String → Bool
names file folder id = named_by (lookup file folder.decisions) id

-- The group and the request of each response file that is written.
abbrev pub answered : List Effect → List (String × String)
answered [] = []
answered (Effect.respond_error g r e ∷ es) = (g, r) ∷ answered es
answered (Effect.respond g r v ∷ es) = (g, r) ∷ answered es
answered (Effect.audit g t d r ∷ es) = answered es
answered (Effect.run_handler t d ∷ es) = answered es
answered (Effect.dispatch_ipc d g ∷ es) = answered es
answered (Effect.set_result r b ∷ es) = answered es

-- How often a handler is run.
abbrev pub executions : List Effect → ℕ
executions [] = 0
executions (Effect.respond_error g r e ∷ es) = executions es
executions (Effect.respond g r v ∷ es) = executions es
executions (Effect.audit g t d r ∷ es) = executions es
executions (Effect.run_handler t d ∷ es) = suc (executions es)
executions (Effect.dispatch_ipc d g ∷ es) = suc (executions es)
executions (Effect.set_result r b ∷ es) = executions es

abbrev has_dispatch : Option (RequestData → String → Option String) → Bool
has_dispatch none = false
has_dispatch (some d) = true

-- There is something to run: the caller's dispatcher, or a plugin's handler.
abbrev is_served : Env → Pending → Bool
is_served env p =
    if p.handler_type == "ipc" then has_dispatch env.dispatch else contains p.tool_name env.handlers

abbrev pub is_due : Env → Option Ruling → Bool
is_due env none = false
is_due env (some r) =
    r.approved && not (r.request.handler_type == "mcp_proxy") && is_served env r.request

-- Nothing or an exception, of the dispatcher if there is one.
abbrev is_quiet : Option (Option String) → Bool
is_quiet none = false
is_quiet (some none) = true
is_quiet (some (some e)) = false

abbrev dispatched :
    Option (RequestData → String → Option String) → RequestData → String → Option (Option String)
dispatched none d group = none
dispatched (some dispatch) d group = some (dispatch d group)

-- The dispatcher ends without an exception: its handler has written the response.
abbrev answers_itself : Env → String → Pending → Bool
answers_itself env group p =
    (p.handler_type == "ipc")
    && is_quiet (dispatched env.dispatch (insert "_cop_approved" (flag true) p.request_data) group)

abbrev pub answers_due : Env → String → Option Ruling → List (String × String)
answers_due env group none = []
answers_due env group (some r) =
    if (r.request.handler_type == "mcp_proxy") || (r.approved && answers_itself env group r.request)
    then []
    else (group, r.id) ∷ []

resolution_silent :
    (id : String) (approved : Bool) (o : Option Bool) (g t d r : String)
    → (executions ((resolution id approved o).1 ++ Effect.audit g t d r ∷ []) ≡ 0)
      × (answered ((resolution id approved o).1 ++ Effect.audit g t d r ∷ []) ≡ [])
resolution_silent id approved none g t d r = (refl, refl)
resolution_silent id approved (some false) g t d r = (refl, refl)
resolution_silent id approved (some true) g t d r = (refl, refl)

abbrev pub one_if : Bool → ℕ
one_if b = if b then 1 else 0

answer-answers :
    (o : Outcome) (group id g t d r : String)
    → (executions (answer group id o ++ Effect.audit g t d r ∷ []) ≡ 0)
      × (answered (answer group id o ++ Effect.audit g t d r ∷ []) ≡ (group, id) ∷ [])
answer-answers (returned v) group id g t d r = (refl, refl)
answer-answers (failed e) group id g t d r = (refl, refl)

service-answers :
    (env : Env) (data_ : RequestData) (group id tool g t d r : String)
    → let es = execute_service_approval env data_ group id tool ++ Effect.audit g t d r ∷ [] in
      (executions es ≡ one_if (contains tool env.handlers)) × (answered es ≡ (group, id) ∷ [])
unfolding execute_service_approval
service-answers env data_ group id tool g t d r = ground (
  arith,
  answer-answers (env.run tool (insert "source_group" (text (codes group)) data_)) group id g t d r,
)

ipc-answers :
    (o : Option (RequestData → String → Option String)) (data_ : RequestData)
    (group id g t d r : String)
    → let es = ipc_effects data_ group id o ++ Effect.audit g t d r ∷ [] in
      (executions es ≡ one_if (has_dispatch o))
      × (answered es ≡ (if is_quiet (dispatched o data_ group) then [] else (group, id) ∷ []))
ipc-answers none data_ group id g t d r = (refl, refl)
ipc-answers (some dispatch) data_ group id g t d r = elim (Option-cases (dispatch data_ group)) [
  | inl e ↦ ground (arith, e)
  | inr (x, e) ↦ ground (arith, e)
]

settle-answers :
    (env : Env) (group id : String) (approved : Bool) (p : Pending) (futures : Futures)
    → let r : Ruling = record { id = id; approved = approved; request = p } in
      let es = (settle env group id approved p futures).1 in
      (executions es ≡ one_if (is_due env (some r)))
      × (answered es ≡ answers_due env group (some r))
unfolding settle execute_ipc_approval resolve_mcp_proxy_approval
settle-answers env group id false p futures =
    ground
      (arith, resolution_silent id false (lookup id futures) group p.tool_name "denied_by_user" id)
settle-answers env group id true p futures = ground (
  arith,
  resolution_silent id true (lookup id futures) group p.tool_name "approved_by_user" id,
  ipc-answers env.dispatch (insert "_cop_approved" (flag true) p.request_data) group id group
      p.tool_name "approved_by_user" id,
  service-answers env p.request_data group id p.tool_name group p.tool_name "approved_by_user" id,
)

on_pending-answers :
    (env : Env) (file group id : String) (approved : Bool) (folder : Folder) (futures : Futures)
    (o : Option (File Pending))
    → let es = (on_pending env file group id approved folder futures o).2 in
      (executions es ≡ one_if (is_due env (ruling_on id approved o)))
      × (answered es ≡ answers_due env group (ruling_on id approved o))
on_pending-answers env file group id approved folder futures none = (refl, refl)
on_pending-answers env file group id approved folder futures (some unreadable) = (refl, refl)
on_pending-answers env file group id approved folder futures (some (holds p)) =
    settle-answers env group id approved p futures

on_decision-answers :
    (env : Env) (file group : String) (folder : Folder) (futures : Futures)
    (o : Option (File Decision))
    → let es = (on_decision env file group folder futures o).2 in
      (executions es ≡ one_if (is_due env (ruling_of folder o)))
      × (answered es ≡ answers_due env group (ruling_of folder o))
on_decision-answers env file group folder futures none = (refl, refl)
on_decision-answers env file group folder futures (some unreadable) = (refl, refl)
on_decision-answers env file group folder futures (some (holds d)) =
    elim (Bool-cases (truthy d.request_id)) [
      | inl y ↦ rw y (
          on_pending-answers env file group (or_else d.request_id "") d.approved folder futures
            (lookup (or_else d.request_id "") folder.pending))
      | inr n ↦ rw n (refl, refl)
    ]

-- A decision runs one handler if it approves a request that can be read, that the MCP proxy does not
-- wait for and that something serves; otherwise nothing. One response is written, to the request
-- that the decision names, unless there is no such request, the proxy waits for it, or the IPC
-- handler ended without an exception: then none.
pub process_approval_decision_answers :
    (env : Env) (file group : String) (folder : Folder) (futures : Futures)
    → let es = (process_approval_decision env file group folder futures).2 in
      (executions es ≡ one_if (is_due env (ruling file folder)))
      × (answered es ≡ answers_due env group (ruling file folder))
unfolding process_approval_decision
process_approval_decision_answers env file group folder futures =
    on_decision-answers env file group folder futures (lookup file folder.decisions)
