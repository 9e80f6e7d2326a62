-- ===== src/Security/Service.antt =====
-- src/pynchy/host/container_manager/ipc/handlers_service.py, and the gate of host-mutating
-- operations, src/pynchy/host/container_manager/security/cop_gate.py.
use pynchy.Base.{
  Bool, Dict, List, Option, String, String-eq, [], concat, contains, false, if◌then◌else◌, none,
  not, or_else, some, true, ℕ, ◌&&◌, ◌++◌, ◌==◌, ◌∷◌,
}
use pynchy.Security.Policy.{SecurityPolicy, PolicyDecision, new_policy, evaluate_write}
use pynchy.Security.Gate.{Registry, TomlSecurity, get_gate_for_group, resolve_security}

-- What a chat is told: an approval request (`format_approval_notification`), the inspector's
-- verdict, and that an operation was blocked for good.
pub data Notice : Type 0 where
  approval_request : Notice
  cop_pass : String → Notice
  cop_fail : String → String → Notice
  cop_blocked : String → String → Notice

-- What a request does, in order. A response is the file that unblocks the container. An audit
-- record of the policy has the two taints.
pub data Effect : Type 0 where
  audit : String → Option String → Option (Bool × Bool) → Effect
  respond_error : String → Effect
  respond : ℕ → Effect
  create_pending : String → Effect
  broadcast : Notice → Effect
  run_handler : Effect

-- `cop_approved` is the request's `_cop_approved` field; `detected` what the scan of the payload
-- finds. The type is "service:" followed by the tool's name.
pub record Request : Type 0 where
  pub tool_name : String
  pub request_id : Option String
  pub detected : List String
  pub cop_approved : Bool

-- The answer of the inspector, a language model.
pub record CopVerdict : Type 0 where
  pub flagged : Bool
  pub reason : String

-- What the host holds when a request arrives: the registry of gates, the configuration, the tools
-- that plugins serve, and which of them are scripts.
pub record Host : Type 0 where
  pub gates : Registry
  pub workspaces : Dict String (Option TomlSecurity)
  pub handlers : List String
  pub scripts : List String

-- The plugin's handler: its response, or an exception.
pub data Answer : Type 0 where
  answered : ℕ → Answer
  raised : Answer

abbrev pub truthy : Option String → Bool
truthy none = false
truthy (some s) = not (s == "")

unfoldable pub cop_gate : String → CopVerdict → Option String → List Effect × Bool
cop_gate operation verdict request_id =
    if not verdict.flagged
    then (
      audit "cop_allowed" (some verdict.reason) none ∷ broadcast (cop_pass operation) ∷ [],
      true,
    )
    else (
      audit "cop_flagged" (some verdict.reason) none
          ∷ broadcast (cop_fail operation verdict.reason)
          ∷ (if truthy request_id
              then create_pending "ipc" ∷ broadcast approval_request ∷ []
              else broadcast (cop_blocked operation verdict.reason) ∷ []),
      false,
    )

unfoldable pub gate_of : Host → String → Bool → SecurityPolicy
gate_of host group is_admin =
    or_else (get_gate_for_group group host.gates)
      (new_policy (resolve_security host.workspaces group is_admin))

abbrev respond_with : Answer → List Effect
respond_with (answered r) = respond r ∷ []
respond_with raised = []

abbrev taints : SecurityPolicy → Option (Bool × Bool)
taints p = some (p.corruption_tainted, p.secret_tainted)

unfoldable pub dispatch : SecurityPolicy → PolicyDecision → Answer → List Effect
dispatch p d answer = audit "allowed" d.reason (taints p) ∷ run_handler ∷ respond_with answer

abbrev pub after_cop : List Effect × Bool → List Effect → List Effect
after_cop (effects, allowed) rest = effects ++ (if allowed then rest else [])

abbrev reason_text : Option String → String
reason_text none = "None"
reason_text (some s) = s

unfoldable pub decide :
    Host → SecurityPolicy → PolicyDecision → CopVerdict → Answer → Request → List Effect
unfolding cop_gate dispatch
decide host p d verdict answer r =
    if not d.allowed
    then audit "blocked_forbidden" d.reason (taints p)
      ∷ respond_error (concat ("Policy denied: " ∷ reason_text d.reason ∷ []))
      ∷ []
    else if d.needs_human
    then create_pending "service"
      ∷ broadcast approval_request
      ∷ audit "approval_requested" d.reason (taints p)
      ∷ []
    else if not r.cop_approved && contains r.tool_name host.scripts
    then after_cop (cop_gate (concat ("script_mcp:" ∷ r.tool_name ∷ [])) verdict r.request_id)
        (dispatch p d answer)
    else dispatch p d answer

unfoldable pub handle_service_request :
    Host → String → Bool → CopVerdict → Answer → Request → List Effect
unfolding decide gate_of
handle_service_request host group is_admin verdict answer r =
    if not (truthy r.request_id)
    then []
    else if not (contains r.tool_name host.handlers)
    then respond_error (concat ("Unknown service tool: " ∷ r.tool_name ∷ [])) ∷ []
    else let p = gate_of host group is_admin in
      decide host p (evaluate_write r.tool_name r.detected p) verdict answer r
