-- ===== src/Security/Gate.antt =====
-- src/pynchy/host/container_manager/security/gate.py: the registry of security gates. A gate holds
-- one policy, and stands for it here; a timestamp is a number of clock ticks.
use pynchy.Base.{
  Bool, Dict, List, Option, String, String-eq, [], if◌then◌else◌, insert, lookup, ltb, none,
  pair-eq, remove, some, ℕ, ℕ-eq, ◌==◌, ◌∷◌,
}
use pynchy.Security.Policy.{
  ServiceTrustConfig, WorkspaceSecurity, default_security, SecurityPolicy, new_policy,
}

abbrev pub Registry : Type 0
Registry = Dict (String × ℕ) SecurityPolicy

unfoldable pub create_gate : String → ℕ → WorkspaceSecurity → Registry → Registry × SecurityPolicy
create_gate group ts security gates =
    let gate = new_policy security in (insert (group, ts) gate gates, gate)

unfoldable pub get_gate : String → ℕ → Registry → Option SecurityPolicy
get_gate group ts gates = lookup (group, ts) gates

unfoldable pub destroy_gate : String → ℕ → Registry → Registry
destroy_gate group ts gates = remove (group, ts) gates

-- `[(ts, g) for (grp, ts), g in _gates.items() if grp == source_group]`
unfoldable pub matches : String → Registry → List (ℕ × SecurityPolicy)
matches group [] = []
matches group ((k, p) ∷ gates) =
    if k.0 == group then (k.1, p) ∷ matches group gates else matches group gates

-- `max(matches, key=lambda x: x[0])`: of equal keys the first is kept.
unfoldable pub latest_from : ℕ × SecurityPolicy → List (ℕ × SecurityPolicy) → ℕ × SecurityPolicy
latest_from best [] = best
latest_from best (x ∷ xs) = latest_from (if ltb best.0 x.0 then x else best) xs

abbrev pub latest : List (ℕ × SecurityPolicy) → Option SecurityPolicy
latest [] = none
latest (x ∷ xs) = some (latest_from x xs).1

unfoldable pub get_gate_for_group : String → Registry → Option SecurityPolicy
unfolding matches latest_from
get_gate_for_group group gates = latest (matches group gates)

-- A service's declaration in config.toml has the same four fields.
abbrev pub TomlSecurity : Type 0
TomlSecurity = record { services : Dict String ServiceTrustConfig; contains_secrets : Bool }

abbrev trust_of_toml : ServiceTrustConfig → ServiceTrustConfig
trust_of_toml c = record {
  public_source = c.public_source;
  secret_data = c.secret_data;
  public_sink = c.public_sink;
  dangerous_writes = c.dangerous_writes;
}

-- Declarations are a dict, so writing them one by one into an empty one keeps each.
abbrev declare :
    Dict String ServiceTrustConfig → Dict String ServiceTrustConfig → Dict String ServiceTrustConfig
declare [] services = services
declare ((name, c) ∷ more) services = declare more (insert name (trust_of_toml c) services)

abbrev from_toml : Option (Option TomlSecurity) → WorkspaceSecurity
from_toml none = default_security
from_toml (some none) = default_security
from_toml (some (some sec)) = record {
  services = declare sec.services [];
  contains_secrets = sec.contains_secrets;
}

-- `workspaces` is what config.toml says of each workspace's security.
unfoldable pub resolve_security :
    Dict String (Option TomlSecurity) → String → Bool → WorkspaceSecurity
resolve_security workspaces group is_admin =
    if is_admin then default_security else from_toml (lookup group workspaces)
