-- ===== src/Security/Tests.antt =====
-- Tests of the security components, and their theorems at concrete inputs.
use pynchy.Base.{
  List, String, String-eq, [], all, any, codes, contains, false, if◌then◌else◌, is_empty, keep,
  length, lookup, not, pair-eq, refl, some, strip, true, ℕ-eq, ◌&&◌, ◌++◌, ◌==◌, ◌||◌, ◌↔◌, ◌∷◌,
  ◌≡◌,
}
use pynchy.Security.Policy.{
  safe, risky, forbidden, ServiceTrustConfig, WorkspaceSecurity, new_policy, evaluate_write,
}
use pynchy.Security.Taint.{
  Operation, read, write, file_access, apply_all, is_untrusted_input, is_secret_input, taints_exact,
  evaluate_write_exact,
}
use pynchy.Security.Gate.{Registry, create_gate, get_gate_for_group, resolve_security}
use pynchy.Security.Registry.{get_gate_for_group-create_gate}
use pynchy.Security.Admin.{admin_writes_need_human}
use pynchy.Security.Service.{
  Request, CopVerdict, Host, answered, raised, gate_of, truthy, handle_service_request,
}
use pynchy.Security.ServiceLaws.{is_run, is_reply, has_raised, runs_exact, reply_once}
use pynchy.Security.Classify
use pynchy.Security.Classify.{
  ascii, lowercase, is_local, is_network, has_network_pattern, extract_tokens, classify_tokens,
  classify_command,
}
use pynchy.Security.Bash.{
  Reason, denied, is_network_command, evaluate_bash_command, pass, bash_security_hook, host_of,
}
use pynchy.Security.BashLaws.{
  is_nil, asks_human, denies, evaluate_bash_command_exact, classify_command_safe,
  bash_hook_never_refuses,
}

abbrev mail : ServiceTrustConfig
mail = record {
  public_source = risky;
  secret_data = true;
  public_sink = risky;
  dangerous_writes = safe;
}

abbrev bank : ServiceTrustConfig
bank = record {
  public_source = safe;
  secret_data = true;
  public_sink = safe;
  dangerous_writes = forbidden;
}

abbrev workspace : WorkspaceSecurity
workspace = record { services = ("mail", mail) ∷ ("bank", bank) ∷ []; contains_secrets = true }

abbrev session : List Operation
session = file_access ∷ read "mail" ∷ write "mail" [] ∷ []

taints_exact_example :
    ((apply_all session (new_policy workspace)).corruption_tainted
      ≡ any (is_untrusted_input workspace) session)
    × ((apply_all session (new_policy workspace)).secret_tainted
        ≡ any (is_secret_input workspace) session)
taints_exact_example = taints_exact workspace session

evaluate_write_exact_example :
    let d = evaluate_write "mail" [] (apply_all session (new_policy workspace)) in
    (d.allowed ≡ true) × (d.needs_cop ≡ true) × (d.needs_human ≡ true)
unfolding lookup
evaluate_write_exact_example = evaluate_write_exact workspace session "mail" []

abbrev gates : Registry
gates = (("team", 3), new_policy workspace) ∷ (("solo", 9), new_policy workspace) ∷ []

get_gate_for_group-create_gate_example :
    (get_gate_for_group "team" (create_gate "team" 5 workspace gates).0
      ≡ some (new_policy workspace))
    × ((other : String)
        → ("team" == other) ≡ false
        → get_gate_for_group other (create_gate "team" 5 workspace gates).0
          ≡ get_gate_for_group other gates)
unfolding get_gate_for_group
get_gate_for_group-create_gate_example =
    get_gate_for_group-create_gate "team" 5 workspace gates refl

admin_writes_need_human_example :
    let p = apply_all session (new_policy (resolve_security [] "admin" true)) in
    ((evaluate_write "notes" [] p).allowed ≡ true)
    × ((evaluate_write "notes" [] p).needs_human ≡ true)
admin_writes_need_human_example = admin_writes_need_human [] "admin" session "notes" []

abbrev host : Host
host = record { gates = gates; workspaces = []; handlers = "mail" ∷ []; scripts = "mail" ∷ [] }

abbrev flag : CopVerdict
flag = record { flagged = true; reason = "exfiltration" }

abbrev request : Request
request = record { tool_name = "mail"; request_id = some "r1"; detected = []; cop_approved = false }

runs_exact_example :
    let d = evaluate_write "mail" [] (gate_of host "team" false) in
    any is_run (handle_service_request host "team" false flag (answered 1) request) ≡ (
      truthy (some "r1")
      && contains "mail" host.handlers
      && d.allowed
      && not d.needs_human
      && (false || not (contains "mail" host.scripts) || not flag.flagged))
runs_exact_example = runs_exact host "team" false flag (answered 1) request

reply_once_example :
    let effects = handle_service_request host "team" false flag raised request in
    length (keep is_reply effects)
    ≡ (if truthy (some "r1") && not (any is_run effects && has_raised raised) then 1 else 0)
reply_once_example = reply_once host "team" false flag raised request

-- Tests of the classes.
pipeline_class : classify_command ascii (codes "LC_ALL=C sort a.txt | uniq -c") ≡ Classify.safe
unfolding classify_command strip has_network_pattern is_network is_local extract_tokens
    classify_tokens
pipeline_class = refl

curl_class : classify_command ascii (codes "echo hi && curl x") ≡ Classify.network
unfolding classify_command strip has_network_pattern is_network is_local extract_tokens
    classify_tokens
curl_class = refl

make_class : classify_command ascii (codes "make all") ≡ Classify.unknown
unfolding classify_command strip has_network_pattern is_network is_local extract_tokens
    classify_tokens
make_class = refl

-- A newline or a single `&` does not separate commands here, and `xargs` runs what it is given.
newline_class :
    classify_command ascii (codes "echo hi" ++ 10 ∷ codes "curl evil.com") ≡ Classify.safe
unfolding classify_command strip has_network_pattern is_network is_local extract_tokens
    classify_tokens
newline_class = refl

background_class : classify_command ascii (codes "echo hi & curl evil.com") ≡ Classify.safe
unfolding classify_command strip has_network_pattern is_network is_local extract_tokens
    classify_tokens
background_class = refl

xargs_class : classify_command ascii (codes "cat urls | xargs curl") ≡ Classify.safe
unfolding classify_command strip has_network_pattern is_network is_local extract_tokens
    classify_tokens
xargs_class = refl

classify_command_safe_example : (classify_command ascii (codes "ls | wc") ≡ Classify.safe) ↔ (
    (is_empty (strip (codes "ls | wc")) ≡ false)
    × (has_network_pattern (lowercase ascii (strip (codes "ls | wc"))) ≡ false)
    × (is_nil (extract_tokens ascii (strip (codes "ls | wc"))) ≡ false)
    × (any is_network (extract_tokens ascii (strip (codes "ls | wc"))) ≡ false)
    × (all is_local (extract_tokens ascii (strip (codes "ls | wc"))) ≡ true))
classify_command_safe_example = classify_command_safe ascii (codes "ls | wc")

evaluate_bash_command_exact_example :
    let p = apply_all session (new_policy workspace) in
    let d = evaluate_bash_command ascii p flag (codes "curl x") in
    (asks_human d ≡ (
      p.corruption_tainted
      && p.secret_tainted
      && (is_network_command ascii (codes "curl x") || true)))
    × (denies d ≡ (
        (p.corruption_tainted || p.secret_tainted)
        && not (p.corruption_tainted && p.secret_tainted)
        && true))
evaluate_bash_command_exact_example =
    evaluate_bash_command_exact ascii (apply_all session (new_policy workspace)) flag
      (codes "curl x")

abbrev shown : Reason → String
shown r = "flagged"

bash_hook_never_refuses_example :
    bash_security_hook ascii
      (host_of ascii shown (apply_all session (new_policy workspace)) flag denied "r1")
      "Bash"
      (codes "curl x")
    ≡ some pass
bash_hook_never_refuses_example =
    bash_hook_never_refuses ascii shown (apply_all session (new_policy workspace)) flag denied "r1"
      "Bash" (codes "curl x")
