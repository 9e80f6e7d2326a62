-- ===== src/Config/Tests.antt =====
-- Tests of the configuration, and its theorems at concrete inputs.
use pynchy.Base.{
  Dict, List, Text, [], ap, arith, codes, contains, distinct, false, is_empty, list-eq, none, refl,
  some, true, ℕ-eq, ◌++◌, ◌||◌, ◌↔◌, ◌∷◌, ◌≡◌,
}
use pynchy.Config.Refs.{ChatRef, parse_chat_ref}
use pynchy.Config.RefLaws.{is_part, chat_ref_text, parse_chat_ref_exact}
use pynchy.Config.Merge.{set, Tier, values_of, deduplicate, resolve_union}
use pynchy.Config.MergeLaws.{settings_of, first_or, resolve_union_exact}
use pynchy.Config.Access.{
  Settings, empty_tier, empty_workspace, resolve_channel_config, resolve_workspace_connection_name,
  filter_allowed_messages,
}
use pynchy.Config.AccessLaws.{overrides_of, tiers_of, first_given, resolve_channel_config_exact}
use pynchy.Config.Users.{resolve_into, resolve_owner, resolve_allowed_users, is_user_allowed}
use pynchy.Config.Reach.{clean, Granted}
use pynchy.Config.UserLaws.{
  Permitted, resolve_into_ends, resolve_allowed_users_exact, is_user_allowed_exact,
}

abbrev general : ChatRef
general = record { platform = codes "slack"; name = codes "work"; chat = codes "general.eu" }

abbrev general_text : Text
general_text = codes "connection.slack.work.chat.general.eu"

general_parsed : parse_chat_ref (some general_text) ≡ some general
unfolding parse_chat_ref
general_parsed = refl

parse_chat_ref_exact_example : (parse_chat_ref (some general_text) ≡ some general) ↔ (
    (general_text ≡ chat_ref_text general)
    × (is_part (codes "slack") ≡ true)
    × (is_part (codes "work") ≡ true)
    × (is_empty (codes "general.eu") ≡ false))
parse_chat_ref_exact_example = parse_chat_ref_exact general_text general

abbrev universal : Tier
universal = record empty_tier {
  skills = some (codes "a" ∷ codes "b" ∷ codes "a" ∷ []);
  access = set (some (codes "read"));
  trust = set (some false);
}

abbrev own : Tier
own = record empty_tier {
  skills = some (codes "c" ∷ codes "b" ∷ []);
  access = set (some (codes "write"));
  allowed_users = set (some (codes "team" ∷ codes "owner" ∷ []));
}

skills_merged :
    resolve_union (λ t. t.skills) (some universal) none own ≡ codes "a" ∷ codes "b" ∷ codes "c" ∷ []
unfolding resolve_union
skills_merged = refl

resolve_union_exact_example :
    let merged = resolve_union (λ t. t.skills) (some universal) none own in
    (distinct merged ≡ true)
    × ((a : Text)
        → contains a merged ≡ (
            contains a (values_of (λ t. t.skills) (some universal))
            || contains a (values_of (λ t. t.skills) none)
            || contains a (values_of (λ t. t.skills) (some own))))
    × ((rest : List Text) × (merged
          ≡ deduplicate (values_of (λ t. t.skills) (some universal)) ++ rest))
resolve_union_exact_example = resolve_union_exact (λ t. t.skills) (some universal) none own

-- Two groups that name each other.
abbrev groups : Dict Text (List Text)
groups =
    (codes "team", codes "slack:U1" ∷ codes "staff" ∷ [])
    ∷ (codes "staff", codes "team" ∷ codes "slack:U2" ∷ [])
    ∷ []

abbrev settings : Settings
settings = record {
  workspaces = (codes "ops", record empty_workspace { tier = own; chat = some general_text }) ∷ [];
  sandbox_profiles = [];
  sandbox_universal = universal;
  slack =
      (
        codes "work",
        record {
          security = some (record {
            access = none;
            mode = some (codes "chat");
            trust = some true;
            trigger = none;
            allowed_users = none;
          });
          chat = [];
        },
      )
      ∷ [];
  whatsapp = [];
  user_groups = groups;
  owner_slack = some (codes "U9");
}

ops_config : resolve_channel_config settings (codes "ops") ≡ record {
  access = some (codes "write");
  mode = some (codes "chat");
  trust = some true;
  trigger = some (codes "mention");
  allowed_users = some (codes "team" ∷ codes "owner" ∷ []);
}
unfolding resolve_channel_config
ops_config = refl

ops_connection :
    resolve_workspace_connection_name settings (codes "ops") ≡ some (codes "connection.slack.work")
unfolding resolve_workspace_connection_name
ops_connection = refl

ops_messages :
    filter_allowed_messages settings false (codes "ops") (some (codes "slack")) (
      record { sender = codes "U1"; is_from_me = false }
      ∷ record { sender = codes "U7"; is_from_me = true }
      ∷ record { sender = codes "U9"; is_from_me = false }
      ∷ [])
    ≡ some (
        record { sender = codes "U1"; is_from_me = false }
        ∷ record { sender = codes "U9"; is_from_me = false }
        ∷ [])
unfolding filter_allowed_messages
ops_messages = refl

resolve_channel_config_exact_example :
    (resolve_channel_config settings (codes "ops")).access
    ≡ first_given
        (λ c. c.access)
        (overrides_of settings (codes "ops"))
        (first_or
          (some (codes "readwrite"))
          (settings_of (λ t. t.access) (tiers_of settings (codes "ops"))))
resolve_channel_config_exact_example =
    ap (λ c. c.access) (resolve_channel_config_exact settings (codes "ops"))

resolve_into_ends_example :
    (result' : List Text) × (seen' : List Text) × (resolve_into groups
        (some (codes "slack:U9"))
        3
        (codes "team" ∷ [])
        []
        []
      ≡ some (result', seen'))
    × ((u : Text) → contains u [] ≡ true → contains u result' ≡ true)
    × ((g : Text) → contains g [] ≡ true → contains g seen' ≡ true)
resolve_into_ends_example =
    resolve_into_ends groups (some (codes "slack:U9")) 3 (codes "team" ∷ []) [] [] (omega arith)

abbrev raw : List Text
raw = codes "team" ∷ codes "owner" ∷ []

resolve_allowed_users_exact_example :
    let owner = resolve_owner (some (codes "U9")) (some (codes "slack")) in
    (users : List Text) × (resolve_allowed_users raw groups
        (some (codes "U9"))
        (some (codes "slack"))
      ≡ some users)
    × ((u : Text) → contains u users ≡ true → Granted groups owner raw u)
    × (clean groups ≡ true → (u : Text) → Granted groups owner raw u → contains u users ≡ true)
resolve_allowed_users_exact_example =
    resolve_allowed_users_exact raw groups (some (codes "U9")) (some (codes "slack")) refl

is_user_allowed_exact_example :
    let channel = some (codes "slack") in
    let granted = Granted groups (resolve_owner (some (codes "U9")) channel) raw in
    let allowed =
      is_user_allowed
        (codes "U2")
        channel
        (resolve_allowed_users raw groups (some (codes "U9")) channel)
        false in
    (allowed ≡ true → Permitted granted channel (codes "U2") false)
    × (clean groups ≡ true → Permitted granted channel (codes "U2") false → allowed ≡ true)
is_user_allowed_exact_example =
    is_user_allowed_exact raw groups (some (codes "U9")) (some (codes "slack")) (codes "U2") false
      refl
