-- ===== src/Config/AccessLaws.antt =====
-- The cascade of access.py, from the chat's overrides down to the defaults.
use pynchy.Base.{
  List, Option, Text, [], ap, codes, list-eq, lookup, none, or_else, refl, some, true, ℕ-eq, ◌++◌,
  ◌∙◌, ◌∷◌, ◌≡◌,
}
use pynchy.Config.Refs.{ChatRef}
use pynchy.Config.Merge.{ResolvedSandboxConfig, Tier, WorkspaceConfig, merge_sandbox_config}
use pynchy.Config.MergeLaws.{settings_of, first_or, resolve_override_exact}
use pynchy.Config.Access.{
  ChannelConfig, ConnectionConfig, Settings, override, apply_overrides, get_connection, joined,
  empty_workspace, chat_of_workspace, profile_of, apply_if, with_connection, with_chat,
  resolve_channel_config,
}

abbrev listed {ℓ} : {A : Type ℓ} → Option A → List A
listed none = []
listed (some a) = a ∷ []

-- The overrides of the workspace's chat and of the connection that owns it, the chat's first.
abbrev overrides_of_connection : Option ConnectionConfig → Text → List ChannelConfig
overrides_of_connection none chat = []
overrides_of_connection (some c) chat = listed (joined (lookup chat c.chat)) ++ listed c.security

abbrev pub overrides_of : Settings → Text → List ChannelConfig
overrides_of s workspace = elim (chat_of_workspace (lookup workspace s.workspaces)) [
  | none ↦ []
  | some r ↦ overrides_of_connection (get_connection s r.platform r.name) r.chat
]

-- The workspace's own table, its profile, and the universal table.
abbrev pub tiers_of : Settings → Text → List (Option Tier)
tiers_of s workspace =
    let ws = lookup workspace s.workspaces in
    some (or_else ws empty_workspace).tier ∷ profile_of s ws ∷ some s.sandbox_universal ∷ []

-- The first override that has the field, or else `rest`.
abbrev pub first_given {ℓ} :
    {A : Type ℓ} → (ChannelConfig → Option A) → List ChannelConfig → Option A → Option A
first_given field [] rest = rest
first_given field (c ∷ cs) rest = override (field c) (first_given field cs rest)

abbrev overridden : List ChannelConfig → ChannelConfig → ChannelConfig
overridden cs base = record {
  access = first_given (λ c. c.access) cs base.access;
  mode = first_given (λ c. c.mode) cs base.mode;
  trust = first_given (λ c. c.trust) cs base.trust;
  trigger = first_given (λ c. c.trigger) cs base.trigger;
  allowed_users = first_given (λ c. c.allowed_users) cs base.allowed_users;
}

abbrev of_merged : ResolvedSandboxConfig → ChannelConfig
of_merged m = record {
  access = m.access;
  mode = m.mode;
  trust = m.trust;
  trigger = m.trigger;
  allowed_users = m.allowed_users;
}

abbrev of_tiers : List (Option Tier) → ChannelConfig
of_tiers tiers = record {
  access = first_or (some (codes "readwrite")) (settings_of (λ t. t.access) tiers);
  mode = first_or (some (codes "agent")) (settings_of (λ t. t.mode) tiers);
  trust = first_or (some true) (settings_of (λ t. t.trust) tiers);
  trigger = first_or (some (codes "mention")) (settings_of (λ t. t.trigger) tiers);
  allowed_users = first_or (some (codes "owner" ∷ [])) (settings_of (λ t. t.allowed_users) tiers);
}

with_connection-overridden :
    (c : Option ConnectionConfig) (chat : Text) (base : ChannelConfig)
    → with_connection c chat base ≡ overridden (overrides_of_connection c chat) base
unfolding apply_overrides apply_if with_connection
with_connection-overridden none chat base = refl
with_connection-overridden (some c) chat base = go (joined (lookup chat c.chat)) c.security
  where
    go :
        (o p : Option ChannelConfig)
        → apply_if o (apply_if p base) ≡ overridden (listed o ++ listed p) base
    go none none = refl
    go none (some p) = refl
    go (some o) none = refl
    go (some o) (some p) = refl

-- Each of the five fields of a channel has the value of the most specific layer that has one: the
-- chat's overrides, the connection's, then the workspace's own table, its profile and the universal
-- table, of which a field that is set counts even without a value; last, the default.
pub resolve_channel_config_exact :
    (s : Settings) (workspace : Text)
    → let cs = overrides_of s workspace in
      let tiers = tiers_of s workspace in
      resolve_channel_config s workspace ≡ record {
        access =
            first_given
              (λ c. c.access)
              cs
              (first_or (some (codes "readwrite")) (settings_of (λ t. t.access) tiers));
        mode =
            first_given
              (λ c. c.mode)
              cs
              (first_or (some (codes "agent")) (settings_of (λ t. t.mode) tiers));
        trust =
            first_given (λ c. c.trust) cs (first_or (some true) (settings_of (λ t. t.trust) tiers));
        trigger =
            first_given
              (λ c. c.trigger)
              cs
              (first_or (some (codes "mention")) (settings_of (λ t. t.trigger) tiers));
        allowed_users =
            first_given
              (λ c. c.allowed_users)
              cs
              (first_or (some (codes "owner" ∷ [])) (settings_of (λ t. t.allowed_users) tiers));
      }
unfolding resolve_channel_config merge_sandbox_config with_chat
resolve_channel_config_exact s workspace =
    let ws = lookup workspace s.workspaces in
    let base =
      merged_of (some s.sandbox_universal) (profile_of s ws) (or_else ws empty_workspace) in
    with_chat-overridden (chat_of_workspace ws) _ ∙ ap (overridden (overrides_of s workspace)) base
  where
    with_chat-overridden :
        (r : Option ChatRef) (base : ChannelConfig)
        → with_chat s r base
          ≡ overridden
              (elim r [
                | none ↦ []
                | some r ↦ overrides_of_connection (get_connection s r.platform r.name) r.chat
              ])
              base
    with_chat-overridden none base = refl
    with_chat-overridden (some r) base =
        with_connection-overridden (get_connection s r.platform r.name) r.chat base

    merged_of :
        (u p : Option Tier) (w : WorkspaceConfig)
        → of_merged (merge_sandbox_config u p w) ≡ of_tiers (some w.tier ∷ p ∷ u ∷ [])
    merged_of u p w = cc (
      resolve_override_exact (λ t. t.access) (some (codes "readwrite")) u p w.tier,
      resolve_override_exact (λ t. t.mode) (some (codes "agent")) u p w.tier,
      resolve_override_exact (λ t. t.trust) (some true) u p w.tier,
      resolve_override_exact (λ t. t.trigger) (some (codes "mention")) u p w.tier,
      resolve_override_exact (λ t. t.allowed_users) (some (codes "owner" ∷ [])) u p w.tier,
    )
