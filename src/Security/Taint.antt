-- ===== src/Security/Taint.antt =====
-- The taints of middleware.py over a whole run of a container.
use pynchy.Base.{
  Bool, List, String, String-eq, [], any, ap, arith, false, lookup, not, or_assoc, or_else, subst,
  sym, ◌&&◌, ◌||◌, ◌∙◌, ◌∷◌, ◌≡◌,
}
use pynchy.Security.Policy.{
  ServiceTrustConfig, unknown_service, WorkspaceSecurity, PolicyDecision, SecurityPolicy,
  new_policy, get_trust, is_forbidden, is_true, any_text, notify_file_access, evaluate_read,
  evaluate_write,
}

-- What a run asks of its policy, in order.
pub data Operation : Type 0 where
  read : String → Operation
  write : String → List String → Operation
  file_access : Operation

unfoldable pub apply : Operation → SecurityPolicy → SecurityPolicy
apply (read s) p = (evaluate_read s p).0
apply (write s detected) p = p
apply file_access p = notify_file_access p

unfoldable pub apply_all : List Operation → SecurityPolicy → SecurityPolicy
unfolding apply
apply_all [] p = p
apply_all (o ∷ os) p = apply_all os (apply o p)

abbrev pub trust_of : WorkspaceSecurity → String → ServiceTrustConfig
trust_of w s = or_else (lookup s w.services) unknown_service

-- The operations that bring untrusted input in, and those that bring a secret in, by the
-- declarations alone.
abbrev pub is_untrusted_input : WorkspaceSecurity → Operation → Bool
is_untrusted_input w (read s) =
    is_true (trust_of w s).public_source && not (is_forbidden (trust_of w s).public_source)
is_untrusted_input w _ = false

abbrev pub is_secret_input : WorkspaceSecurity → Operation → Bool
is_secret_input w (read s) =
    (trust_of w s).secret_data && not (is_forbidden (trust_of w s).public_source)
is_secret_input w (write s d) = false
is_secret_input w file_access = w.contains_secrets

-- A policy of the workspace `w`, with the two taints given.
abbrev pub tainted : WorkspaceSecurity → Bool → Bool → SecurityPolicy
tainted w c s = record {
  services = w.services;
  workspace_contains_secrets = w.contains_secrets;
  corruption_tainted = c;
  secret_tainted = s;
}

apply-tainted :
    (w : WorkspaceSecurity) (o : Operation) (c s : Bool)
    → apply o (tainted w c s) ≡ tainted w (c || is_untrusted_input w o) (s || is_secret_input w o)
unfolding apply evaluate_read notify_file_access get_trust new_policy
apply-tainted w (read x) c s = ground arith
apply-tainted w (write x d) c s = ground arith
apply-tainted w file_access c s = ground arith

apply_all-tainted :
    (w : WorkspaceSecurity) (os : List Operation) (c s : Bool)
    → apply_all os (tainted w c s)
      ≡ tainted w (c || any (is_untrusted_input w) os) (s || any (is_secret_input w) os)
unfolding apply_all
apply_all-tainted w [] c s = ground arith
apply_all-tainted w (o ∷ os) c s =
    ap (apply_all os) (apply-tainted w o c s)
    ∙ apply_all-tainted w os (c || is_untrusted_input w o) (s || is_secret_input w o)
    ∙ cc (
      or_assoc c (is_untrusted_input w o) (any (is_untrusted_input w) os),
      or_assoc s (is_secret_input w o) (any (is_secret_input w) os),
    )

-- After any operations, in any order, the corruption taint is set exactly if one of them was a read
-- of a service that is a public source and not forbidden, and the secret taint exactly if one was a
-- read of a service with secret data that is not forbidden, or a file access in a workspace that
-- contains secrets. Nothing clears a taint.
pub taints_exact :
    (w : WorkspaceSecurity) (os : List Operation)
    → ((apply_all os (new_policy w)).corruption_tainted ≡ any (is_untrusted_input w) os)
      × ((apply_all os (new_policy w)).secret_tainted ≡ any (is_secret_input w) os)
unfolding new_policy
taints_exact w os = (
  ap (λ p. p.corruption_tainted) (apply_all-tainted w os false false),
  ap (λ p. p.secret_tainted) (apply_all-tainted w os false false),
)

abbrev WriteFits :
    WorkspaceSecurity → List Operation → String → List String → PolicyDecision → Type 0
WriteFits w os service detected d =
    let t = trust_of w service in
    let blocked = is_forbidden t.public_sink || is_forbidden t.dangerous_writes in
    (d.allowed ≡ not blocked)
    × (d.needs_cop ≡ (not blocked && any (is_untrusted_input w) os))
    × (d.needs_human ≡ (
        not blocked
        && (is_true t.dangerous_writes
            || any_text detected
            || (is_true t.public_sink
                && any (is_untrusted_input w) os
                && any (is_secret_input w) os))))

decision-tainted :
    (w : WorkspaceSecurity) (os : List Operation) (service : String) (detected : List String)
    → WriteFits w os service detected (
        evaluate_write service detected
          (tainted w (any (is_untrusted_input w) os) (any (is_secret_input w) os)))
unfolding evaluate_write get_trust
decision-tainted w os service detected = ground arith

-- The write of a run's operations `os` to a service, as the declarations say it: forbidden, or
-- allowed, with an inspection exactly after untrusted input, and with a human's consent exactly for
-- dangerous writes, for a payload with secrets, and for a public sink after both an untrusted input
-- and a secret one (the lethal trifecta).
pub evaluate_write_exact :
    (w : WorkspaceSecurity) (os : List Operation) (service : String) (detected : List String)
    → let d = evaluate_write service detected (apply_all os (new_policy w)) in
      let t = trust_of w service in
      let blocked = is_forbidden t.public_sink || is_forbidden t.dangerous_writes in
      (d.allowed ≡ not blocked)
      × (d.needs_cop ≡ (not blocked && any (is_untrusted_input w) os))
      × (d.needs_human ≡ (
          not blocked
          && (is_true t.dangerous_writes
              || any_text detected
              || (is_true t.public_sink
                  && any (is_untrusted_input w) os
                  && any (is_secret_input w) os))))
unfolding new_policy
evaluate_write_exact w os service detected =
    subst (λ p. WriteFits w os service detected (evaluate_write service detected p))
      (sym (apply_all-tainted w os false false)) (decision-tainted w os service detected)
