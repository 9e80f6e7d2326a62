-- ===== src/Config/Access.antt =====
-- src/pynchy/config/access.py: the settings of a channel, and whose messages it takes.
use pynchy.Base.{
  Bool, Dict, List, Option, Text, codes, if◌then◌else◌, is_empty, keep, list-eq, lookup, none,
  or_else, some, ℕ-eq, ◌==◌,
}
use pynchy.Config.Refs.{ChatRef, parse_chat_ref, connection_ref_from_parts}
use pynchy.Config.Users.{resolve_allowed_users, is_user_allowed}
use pynchy.Config.Merge.{Tier, unset, WorkspaceConfig, merge_sandbox_config}

-- The five fields of `_CASCADE_FIELDS`: of a ChannelOverrideConfig, and of the state and the
-- ResolvedChannelConfig that come of the cascade.
pub record ChannelConfig : Type 0 where
  pub access : Option Text
  pub mode : Option Text
  pub trust : Option Bool
  pub trigger : Option Text
  pub allowed_users : Option (List Text)

pub record ConnectionConfig : Type 0 where
  pub security : Option ChannelConfig
  pub chat : Dict Text (Option ChannelConfig)

pub record Settings : Type 0 where
  pub workspaces : Dict Text WorkspaceConfig
  pub sandbox_profiles : Dict Text Tier
  pub sandbox_universal : Tier
  pub slack : Dict Text ConnectionConfig
  pub whatsapp : Dict Text ConnectionConfig
  pub user_groups : Dict Text (List Text)
  pub owner_slack : Option Text

abbrev pub override {ℓ} : {A : Type ℓ} → Option A → Option A → Option A
override none old = old
override (some value) old = some value

unfoldable pub apply_overrides : ChannelConfig → ChannelConfig → ChannelConfig
apply_overrides state source = record {
  access = override source.access state.access;
  mode = override source.mode state.mode;
  trust = override source.trust state.trust;
  trigger = override source.trigger state.trigger;
  allowed_users = override source.allowed_users state.allowed_users;
}

-- Only the two fields of ConnectionsConfig are dictionaries of connections.
unfoldable pub get_connection : Settings → Text → Text → Option ConnectionConfig
unfolding lookup
get_connection s platform name =
    if platform == codes "slack"
    then lookup name s.slack
    else if platform == codes "whatsapp"
    then lookup name s.whatsapp
    else none

-- WorkspaceConfig()
abbrev pub empty_tier : Tier
empty_tier = record {
  directives = none;
  skills = none;
  mcp_servers = none;
  context_mode = unset;
  access = unset;
  mode = unset;
  trust = unset;
  trigger = unset;
  allowed_users = unset;
  idle_terminate = unset;
  git_policy = unset;
  security = unset;
  repo_access = unset;
}

abbrev pub empty_workspace : WorkspaceConfig
empty_workspace = record {
  tier = empty_tier;
  profile = none;
  chat = none;
  is_admin = none;
  schedule = none;
  prompt = none;
  name = none;
  mcp = 0;
}

abbrev pub connection_name_of : Option ChatRef → Option Text
connection_name_of none = none
connection_name_of (some r) = some (connection_ref_from_parts r.platform r.name)

unfoldable pub chat_of_workspace : Option WorkspaceConfig → Option ChatRef
unfolding parse_chat_ref
chat_of_workspace none = none
chat_of_workspace (some ws) = parse_chat_ref ws.chat

unfoldable pub resolve_workspace_connection_name : Settings → Text → Option Text
unfolding lookup parse_chat_ref chat_of_workspace
resolve_workspace_connection_name s workspace_name =
    connection_name_of (chat_of_workspace (lookup workspace_name s.workspaces))

unfoldable pub profile_of : Settings → Option WorkspaceConfig → Option Tier
unfolding lookup
profile_of s none = none
profile_of s (some ws) = elim ws.profile [
  | none ↦ none
  | some name ↦ if is_empty name then none else lookup name s.sandbox_profiles
]

unfoldable pub apply_if : Option ChannelConfig → ChannelConfig → ChannelConfig
unfolding apply_overrides
apply_if none state = state
apply_if (some source) state = apply_overrides state source

abbrev pub joined : Option (Option ChannelConfig) → Option ChannelConfig
joined none = none
joined (some o) = o

-- Layers 1 and 2: the connection's overrides, then the chat's.
unfoldable pub with_connection : Option ConnectionConfig → Text → ChannelConfig → ChannelConfig
unfolding lookup apply_if
with_connection none chat state = state
with_connection (some c) chat state =
    apply_if (joined (lookup chat c.chat)) (apply_if c.security state)

unfoldable pub with_chat : Settings → Option ChatRef → ChannelConfig → ChannelConfig
unfolding get_connection with_connection
with_chat s none state = state
with_chat s (some r) state = with_connection (get_connection s r.platform r.name) r.chat state

unfoldable pub resolve_channel_config : Settings → Text → ChannelConfig
unfolding lookup merge_sandbox_config with_chat chat_of_workspace profile_of
resolve_channel_config s workspace_name =
    let ws = lookup workspace_name s.workspaces in
    let merged =
      merge_sandbox_config (some s.sandbox_universal) (profile_of s ws)
        (or_else ws empty_workspace) in
    with_chat s (chat_of_workspace ws) (record {
      access = merged.access;
      mode = merged.mode;
      trust = merged.trust;
      trigger = merged.trigger;
      allowed_users = merged.allowed_users;
    })

pub record Message : Type 0 where
  pub sender : Text
  pub is_from_me : Bool

-- No list of users, which the merge leaves if a tier sets `allowed_users` to no value, is a
-- TypeError, here `none`.
unfoldable pub filter_by :
    Settings → Option Text → Option (List Text) → List Message → Option (List Message)
unfolding resolve_allowed_users is_user_allowed
filter_by s channel none messages = none
filter_by s channel (some raw) messages =
    let allowed = resolve_allowed_users raw s.user_groups s.owner_slack channel in
    some (keep (λ m. is_user_allowed m.sender channel allowed m.is_from_me) messages)

unfoldable pub filter_allowed_messages :
    Settings → Bool → Text → Option Text → List Message → Option (List Message)
unfolding resolve_channel_config filter_by
filter_allowed_messages s is_admin folder channel messages =
    if is_admin
    then some messages
    else filter_by s channel (resolve_channel_config s folder).allowed_users messages
