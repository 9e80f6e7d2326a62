-- ===== src/Security/ServiceLaws.antt =====
-- What a service request leads to, on every branch of handlers_service.py.
use pynchy.Base.{
  Bool, String, String-eq, any, arith, contains, false, if◌then◌else◌, keep, length, not, true,
  ◌&&◌, ◌||◌, ◌≡◌,
}
use pynchy.Security.Policy.{evaluate_write}
use pynchy.Security.Service.{
  Effect, respond_error, respond, create_pending, run_handler, Request, CopVerdict, Host, Answer,
  answered, raised, cop_gate, gate_of, dispatch, decide, truthy, handle_service_request,
}

abbrev pub is_run : Effect → Bool
is_run run_handler = true
is_run _ = false

-- A response, or a pending approval, which a person will turn into a response.
abbrev pub is_reply : Effect → Bool
is_reply (respond_error s) = true
is_reply (respond r) = true
is_reply (create_pending t) = true
is_reply _ = false

abbrev pub has_raised : Answer → Bool
has_raised raised = true
has_raised (answered r) = false

-- The tool's handler runs exactly if the request has an id, the tool is served, the policy allows
-- the write and asks for no person, and the tool is no script, or the request carries
-- `_cop_approved`, or the inspector does not flag it.
pub runs_exact :
    (host : Host) (group : String) (is_admin : Bool) (verdict : CopVerdict) (answer : Answer)
    (r : Request)
    → let d = evaluate_write r.tool_name r.detected (gate_of host group is_admin) in
      any is_run (handle_service_request host group is_admin verdict answer r) ≡ (
        truthy r.request_id
        && contains r.tool_name host.handlers
        && d.allowed
        && not d.needs_human
        && (r.cop_approved || not (contains r.tool_name host.scripts) || not verdict.flagged))
unfolding handle_service_request decide cop_gate dispatch
runs_exact host group is_admin verdict answer r = ground arith

-- A request with an id is answered by exactly one response file or one pending approval, except
-- where the tool's handler runs and raises: then by none. A request with no id is answered by none.
pub reply_once :
    (host : Host) (group : String) (is_admin : Bool) (verdict : CopVerdict) (answer : Answer)
    (r : Request)
    → let effects = handle_service_request host group is_admin verdict answer r in
      length (keep is_reply effects)
      ≡ (if truthy r.request_id && not (any is_run effects && has_raised answer) then 1 else 0)
unfolding handle_service_request decide cop_gate dispatch
reply_once host group is_admin verdict answer r = ground arith
