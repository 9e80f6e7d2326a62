-- ===== src/Security/Bash.antt =====
-- The bash gate, from the tool's call to the decision: the container's hook
-- (src/pynchy/agent/agent_runner/src/agent_runner/security/bash_gate.py), the wire between the two
-- (agent_tools/_ipc_request.py) and the host's handler
-- (src/pynchy/host/container_manager/ipc/handlers_security.py, handlers_approval.py).
use pynchy.Base.{
  Bool, Dict, List, Option, String, String-eq, Text, [], false, if◌then◌else◌, list-eq, lookup,
  none, not, or_else, some, strip, take, true, ℕ-eq, ◌&&◌, ◌==◌, ◌||◌, ◌∷◌,
}
use pynchy.Security.Policy.{SecurityPolicy}
use pynchy.Security.Classify.{
  Unicode, lowercase, CommandClass, safe, network, unknown, is_network, has_network_pattern,
  first_word, classify_command,
}
use pynchy.Security.Service.{CopVerdict, truthy}

-- The value of a key in a response file: a text, or an object whose values are texts.
pub data Value : Type 0 where
  text : String → Value
  object : Dict String String → Value

abbrev pub Response : Type 0
Response = Dict String Value

-- `_is_network_command`. A stripped text has a first word exactly if it is not empty, and the empty
-- text is in no list.
unfoldable pub is_network_command : Unicode → Text → Bool
unfolding has_network_pattern is_network first_word strip
is_network_command u command =
    let cmd_lower = strip (lowercase u command) in
    has_network_pattern cmd_lower || is_network (first_word cmd_lower)

-- Why a command was not allowed: the trifecta, with the command's first 200 characters, or what the
-- inspector said.
pub data Reason : Type 0 where
  trifecta : Text → Reason
  inspector : String → Reason

pub data BashDecision : Type 0 where
  allow : BashDecision
  deny needs_human : Reason → BashDecision

-- `verdict.reason or "Cop flagged command"`
abbrev said : CopVerdict → Reason
said v = inspector (if v.reason == "" then "Cop flagged command" else v.reason)

unfoldable pub evaluate_bash_command : Unicode → SecurityPolicy → CopVerdict → Text → BashDecision
evaluate_bash_command u p verdict command =
    let both_tainted = p.corruption_tainted && p.secret_tainted in
    if not p.corruption_tainted && not p.secret_tainted
    then allow
    else if is_network_command u command
    then (if both_tainted
        then needs_human (trifecta (take 200 command))
        else if verdict.flagged
        then deny (said verdict)
        else allow)
    else if verdict.flagged
    then (if both_tainted then needs_human (said verdict) else deny (said verdict))
    else allow

pub data BashEffect : Type 0 where
  create_pending : BashEffect
  notify : BashEffect
  audit : String → Bool → Bool → Option Reason → BashEffect
  write_response : Response → BashEffect

abbrev reason_value : (Reason → String) → Reason → String × Value
reason_value show r = ("reason", text (show r))

-- The decision as the dict that is written; `show` is how a reason reads.
abbrev pub response_of : (Reason → String) → BashDecision → Response
response_of show allow = ("decision", text "allow") ∷ []
response_of show (deny r) = ("decision", text "deny") ∷ reason_value show r ∷ []
response_of show (needs_human r) = ("decision", text "needs_human") ∷ reason_value show r ∷ []

abbrev pub on_decision : (Reason → String) → SecurityPolicy → BashDecision → List BashEffect
on_decision show p allow =
    audit "allow" p.corruption_tainted p.secret_tainted none
    ∷ write_response (response_of show allow)
    ∷ []
on_decision show p (deny r) =
    audit "deny" p.corruption_tainted p.secret_tainted (some r)
    ∷ write_response (response_of show (deny r))
    ∷ []
on_decision show p (needs_human r) =
    create_pending
    ∷ notify
    ∷ audit "approval_requested" p.corruption_tainted p.secret_tainted (some r)
    ∷ []

-- `p` is the policy of the group's gate (see `gate_of`).
unfoldable pub handle_bash_security_check :
    Unicode
    → (Reason → String)
    → SecurityPolicy
    → CopVerdict
    → Option String
    → Text
    → List BashEffect
handle_bash_security_check u show p verdict request_id command =
    if not (truthy request_id)
    then []
    else on_decision show p (evaluate_bash_command u p verdict command)

-- The person's answer to a pending approval of the tool "Bash", which is of the type "service";
-- `expired` is the sweep's. `process_approval_decision` and `_execute_service_approval` look for a
-- plugin's handler of that name: the program's plugins serve none.
pub data Human : Type 0 where
  approved denied expired : Human

unfoldable pub approval_response : Human → Response
approval_response approved = ("error", text "Approved but tool 'Bash' is no longer available") ∷ []
approval_response denied = ("error", text "Denied by user") ∷ []
approval_response expired = ("error", text "Approval expired (no response within timeout)") ∷ []

-- The file that the container finds in the end, if any.
unfoldable pub final_response : Human → List BashEffect → Option Response
unfolding approval_response
final_response human [] = none
final_response human (create_pending ∷ es) = some (approval_response human)
final_response human (write_response r ∷ es) = some r
final_response human (notify ∷ es) = final_response human es
final_response human (audit d c s r ∷ es) = final_response human es

-- The text that `ipc_service_request` hands over: "Error: …", or the JSON of an object.
pub data Reply : Type 0 where
  error : Value → Reply
  json : Dict String String → Reply
  json_text : String → Reply

abbrev truthy_value : Option Value → Bool
truthy_value none = false
truthy_value (some (text s)) = not (s == "")
truthy_value (some (object [])) = false
truthy_value (some (object (k ∷ ks))) = true

abbrev reply_of : Option Value → Reply
reply_of none = json []
reply_of (some (text s)) = json_text s
reply_of (some (object o)) = json o

unfoldable pub read_response : Response → Reply
read_response r =
    if truthy_value (lookup "error" r)
    then error (or_else (lookup "error" r) (text ""))
    else reply_of (lookup "result" r)

unfoldable pub ipc_service_request : Option Response → Reply
unfolding read_response
ipc_service_request none = error (text "Request timed out waiting for host response")
ipc_service_request (some r) = read_response r

pub record HookDecision : Type 0 where
  pub allowed : Bool
  pub reason : Option String

abbrev pub pass : HookDecision
pass = record { allowed = true; reason = none }

-- A JSON text that is no object has no `get`: the hook raises.
unfoldable pub ipc_bash_check : Reply → Option HookDecision
ipc_bash_check (error v) = some pass
ipc_bash_check (json_text s) = none
ipc_bash_check (json data_) = some (
    if or_else (lookup "decision" data_) "allow" == "deny"
    then record { allowed = false; reason = lookup "reason" data_ }
    else pass)

abbrev is_safe : CommandClass → Bool
is_safe safe = true
is_safe network = false
is_safe unknown = false

abbrev is_blank : Text → Bool
is_blank [] = true
is_blank (c ∷ t) = false

-- `host` is what the host does with the command that the hook sends, up to the response file.
unfoldable pub bash_security_hook :
    Unicode → (Text → Option Response) → String → Text → Option HookDecision
bash_security_hook u host tool_name command =
    if not (tool_name == "Bash")
    then some pass
    else if is_blank (strip command)
    then some pass
    else if is_safe (classify_command u command)
    then some pass
    else ipc_bash_check (ipc_service_request (host command))

-- The host's part, for a request with an id.
unfoldable pub host_of :
    Unicode
    → (Reason → String)
    → SecurityPolicy
    → CopVerdict
    → Human
    → String
    → Text
    → Option Response
host_of u show p verdict human id command =
    final_response human (handle_bash_security_check u show p verdict (some id) command)
