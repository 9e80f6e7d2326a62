-- ===== src/Security/BashLaws.antt =====
-- What the bash gate decides, and what comes of its decisions.
use pynchy.Base.{
  Bool, List, String, String-eq, Text, [], all, any, arith, false, if_cases, if◌then◌else◌,
  is_empty, list-eq, lookup, none, not, refl, some, strip, true, ℕ-eq, ◌&&◌, ◌||◌, ◌↔◌, ◌∷◌, ◌≡◌,
}
use pynchy.Security.Policy.{SecurityPolicy}
use pynchy.Security.Classify.{
  Unicode, CommandClass, safe, network, unknown, is_local, is_network, has_network_pattern,
  classify_nonempty, lowercase, extract_tokens, classify_tokens, classify_command,
}
use pynchy.Security.Service.{CopVerdict, truthy}
use pynchy.Security.Bash.{
  Reason, BashDecision, allow, deny, needs_human, on_decision, Human, approved, denied, expired,
  pass, is_network_command, evaluate_bash_command, handle_bash_security_check, final_response,
  ipc_service_request, ipc_bash_check, bash_security_hook, host_of,
}

abbrev pub is_nil {ℓ} : {A : Type ℓ} → List A → Bool
is_nil [] = true
is_nil (x ∷ xs) = false

abbrev pub asks_human : BashDecision → Bool
asks_human (needs_human r) = true
asks_human _ = false

abbrev pub denies : BashDecision → Bool
denies (deny r) = true
denies _ = false

-- The host's decision: without a taint every command is allowed. A person is asked exactly with
-- both taints and a network command or a flagged one; a command is denied exactly if it is flagged
-- with one taint; it is allowed in every other case.
pub evaluate_bash_command_exact :
    (u : Unicode) (p : SecurityPolicy) (verdict : CopVerdict) (command : Text)
    → let d = evaluate_bash_command u p verdict command in
      (asks_human d ≡ (
        p.corruption_tainted
        && p.secret_tainted
        && (is_network_command u command || verdict.flagged)))
      × (denies d ≡ (
          (p.corruption_tainted || p.secret_tainted)
          && not (p.corruption_tainted && p.secret_tainted)
          && verdict.flagged))
unfolding evaluate_bash_command
evaluate_bash_command_exact u p verdict command = ground arith

classify_tokens_exact :
    (b : Bool) (ts : List Text)
    → classify_tokens b ts
      ≡ (if any is_network ts then network else if not b && all is_local ts then safe else unknown)
unfolding classify_tokens
classify_tokens_exact b [] = ground arith
classify_tokens_exact b (t ∷ ts) = ground (arith, classify_tokens_exact (b || not (is_local t)) ts)

classify_nonempty_exact :
    (ts : List Text)
    → (classify_nonempty ts ≡ safe)
      ↔ ((is_nil ts ≡ false) × (any is_network ts ≡ false) × (all is_local ts ≡ true))
classify_nonempty_exact [] = (λ h. cc, λ h. cc)
classify_nonempty_exact (t ∷ ts) = ground (arith, classify_tokens_exact false (t ∷ ts))

branches_safe :
    (a b : Bool) (c : CommandClass)
    → ((if a then unknown else if b then network else c) ≡ safe)
      ↔ ((a ≡ false) × (b ≡ false) × (c ≡ safe))
branches_safe true b c = (λ h. cc, λ h. cc)
branches_safe false true c = (λ h. cc, λ h. cc)
branches_safe false false c = (λ h. (refl, refl, h), λ h. h.2)

-- The class SAFE, which the hook lets pass without asking the host: the command is not blank, has no
-- network pattern in its lower case, has a token, and each of its tokens is on the local list and
-- none on the network list.
pub classify_command_safe :
    (u : Unicode) (command : Text)
    → (classify_command u command ≡ safe) ↔ (
        (is_empty (strip command) ≡ false)
        × (has_network_pattern (lowercase u (strip command)) ≡ false)
        × (is_nil (extract_tokens u (strip command)) ≡ false)
        × (any is_network (extract_tokens u (strip command)) ≡ false)
        × (all is_local (extract_tokens u (strip command)) ≡ true))
unfolding classify_command
classify_command_safe u command =
    let h =
      branches_safe (is_empty (strip command)) (has_network_pattern (lowercase u (strip command)))
        (classify_nonempty (extract_tokens u (strip command))) in
    let k = classify_nonempty_exact (extract_tokens u (strip command)) in
    (
      λ e. let (a, b, c) = h.0 e in let (x, y, z) = k.0 c in (a, b, x, y, z),
      λ (a, b, x, y, z). h.1 (a, b, k.1 (x, y, z)),
    )

check_reply :
    (show : Reason → String) (human : Human) (p : SecurityPolicy) (d : BashDecision)
    → ipc_bash_check (ipc_service_request (final_response human (on_decision show p d))) ≡ some pass
unfolding ipc_bash_check ipc_service_request final_response lookup
check_reply show approved p (needs_human r) = refl
check_reply show denied p (needs_human r) = refl
check_reply show expired p (needs_human r) = refl
check_reply show human p allow = refl
check_reply show human p (deny r) = refl

no_reply : ipc_bash_check (ipc_service_request none) ≡ some pass
unfolding ipc_bash_check ipc_service_request
no_reply = refl

host_reply :
    (u : Unicode) (show : Reason → String) (p : SecurityPolicy) (verdict : CopVerdict)
    (human : Human) (id : String) (command : Text)
    → ipc_bash_check (ipc_service_request (host_of u show p verdict human id command)) ≡ some pass
unfolding host_of handle_bash_security_check
host_reply u show p verdict human id command =
    if_cases (λ es. ipc_bash_check (ipc_service_request (final_response human es)) ≡ some pass)
      (not (truthy (some id))) (λ n. unfold final_response in no_reply)
      (λ y. check_reply show human p (evaluate_bash_command u p verdict command))

-- Whatever the host decides about a command, and whatever a person answers, the hook lets the
-- command run: the response file has the decision at its top, and the container reads it under a
-- key `result` that is not there; a person's denial arrives as an error, which lets it run too.
pub bash_hook_never_refuses :
    (u : Unicode) (show : Reason → String) (p : SecurityPolicy) (verdict : CopVerdict)
    (human : Human) (id tool_name : String) (command : Text)
    → bash_security_hook u (host_of u show p verdict human id) tool_name command ≡ some pass
unfolding bash_security_hook
bash_hook_never_refuses u show p verdict human id tool_name command =
    ground (arith, host_reply u show p verdict human id command)
