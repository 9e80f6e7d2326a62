-- ===== src/Security/Policy.antt =====
-- src/pynchy/types.py and src/pynchy/host/container_manager/security/middleware.py: the trust
-- declarations, the two taints of a container's run, and the decisions of `SecurityPolicy`.
use pynchy.Base.{
  Bool, Dict, List, Option, String, String-eq, [], concat, false, if◌then◌else◌, join, lookup, none,
  or_else, some, true, ◌&&◌, ◌++◌, ◌||◌, ◌∷◌,
}

-- `False`, `True` or "forbidden"
pub data TrustLevel : Type 0 where
  safe risky forbidden : TrustLevel

pub record ServiceTrustConfig : Type 0 where
  pub public_source : TrustLevel
  pub secret_data : Bool
  pub public_sink : TrustLevel
  pub dangerous_writes : TrustLevel

-- `ServiceTrustConfig()`, which stands for a service that is not declared.
abbrev pub unknown_service : ServiceTrustConfig
unknown_service = record {
  public_source = risky;
  secret_data = true;
  public_sink = risky;
  dangerous_writes = risky;
}

pub record WorkspaceSecurity : Type 0 where
  pub services : Dict String ServiceTrustConfig
  pub contains_secrets : Bool

abbrev pub default_security : WorkspaceSecurity
default_security = record { services = []; contains_secrets = false }

pub record PolicyDecision : Type 0 where
  pub allowed : Bool
  pub reason : Option String
  pub needs_cop : Bool
  pub needs_human : Bool

pub record SecurityPolicy : Type 0 where
  pub services : Dict String ServiceTrustConfig
  pub workspace_contains_secrets : Bool
  pub corruption_tainted : Bool
  pub secret_tainted : Bool

unfoldable pub new_policy : WorkspaceSecurity → SecurityPolicy
new_policy s = record {
  services = s.services;
  workspace_contains_secrets = s.contains_secrets;
  corruption_tainted = false;
  secret_tainted = false;
}

unfoldable pub get_trust : SecurityPolicy → String → ServiceTrustConfig
get_trust p service = or_else (lookup service p.services) unknown_service

-- `x == "forbidden"`, and the truth value of a level: "forbidden" is a text, so it is true.
abbrev pub is_forbidden : TrustLevel → Bool
is_forbidden forbidden = true
is_forbidden _ = false

abbrev pub is_true : TrustLevel → Bool
is_true safe = false
is_true risky = true
is_true forbidden = true

unfoldable pub notify_file_access : SecurityPolicy → SecurityPolicy
notify_file_access p =
    if p.workspace_contains_secrets then record p { secret_tainted = true } else p

abbrev deny : String → PolicyDecision
deny why = record { allowed = false; reason = some why; needs_cop = false; needs_human = false }

unfoldable pub evaluate_read : String → SecurityPolicy → SecurityPolicy × PolicyDecision
evaluate_read service p =
    let trust = get_trust p service in
    let p' = if trust.secret_data then record p { secret_tainted = true } else p in
    if is_forbidden trust.public_source
    then (p, deny (concat ("Reading from '" ∷ service ∷ "' is forbidden" ∷ [])))
    else if is_true trust.public_source
    then (
      record p' { corruption_tainted = true },
      record {
        allowed = true;
        reason = some (concat ("Public source '" ∷ service ∷ "': cop scan required" ∷ []));
        needs_cop = true;
        needs_human = false;
      },
    )
    else (p', record { allowed = true; reason = none; needs_cop = false; needs_human = false })

-- `bool(detected)`
abbrev pub any_text : List String → Bool
any_text [] = false
any_text (s ∷ ss) = true

abbrev part : Bool → String → List String
part true s = s ∷ []
part false s = []

abbrev reason_of : List String → Option String
reason_of [] = none
reason_of (s ∷ ss) = some (join "; " (s ∷ ss))

-- `detected` is what the scan of the payload found (see `scan_payload_for_secrets`). The policy is
-- left as it is.
unfoldable pub evaluate_write : String → List String → SecurityPolicy → PolicyDecision
evaluate_write service detected p =
    let trust = get_trust p service in
    let needs_cop = p.corruption_tainted in
    let needs_human =
      is_true trust.dangerous_writes
      || (p.corruption_tainted && p.secret_tainted && is_true trust.public_sink)
      || any_text detected in
    if is_forbidden trust.public_sink
    then deny (concat ("Writing to '" ∷ service ∷ "' is forbidden (public_sink)" ∷ []))
    else if is_forbidden trust.dangerous_writes
    then deny (concat ("Writing to '" ∷ service ∷ "' is forbidden (dangerous_writes)" ∷ []))
    else record {
      allowed = true;
      reason = reason_of (
          part needs_cop "cop (corruption taint)"
          ++ (part needs_human "human confirmation"
              ++ part (any_text detected)
                  (concat ("secrets detected in payload (" ∷ join ", " detected ∷ ")" ∷ []))));
      needs_cop = needs_cop;
      needs_human = needs_human;
    }
