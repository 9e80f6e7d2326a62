-- ===== src/Security/Admin.antt =====
-- What gate.py resolves for an admin workspace, and what comes of it in middleware.py.
use pynchy.Base.{Dict, List, Option, String, String-eq, lookup, true, ◌≡◌}
use pynchy.Security.Policy.{new_policy, evaluate_write}
use pynchy.Security.Gate.{TomlSecurity, resolve_security}
use pynchy.Security.Taint.{Operation, apply_all, evaluate_write_exact}

-- In an admin workspace every write to every service, whatever was done before and whatever the
-- configuration declares, is allowed only with a person's consent.
pub admin_writes_need_human :
    (workspaces : Dict String (Option TomlSecurity)) (group : String) (os : List Operation)
    (service : String) (detected : List String)
    → let p = apply_all os (new_policy (resolve_security workspaces group true)) in
      ((evaluate_write service detected p).allowed ≡ true)
      × ((evaluate_write service detected p).needs_human ≡ true)
unfolding resolve_security
admin_writes_need_human workspaces group os service detected =
    unfold lookup in
    let e = evaluate_write_exact (resolve_security workspaces group true) os service detected in
    (e.0, e.2)
