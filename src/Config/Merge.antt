-- ===== src/Config/Merge.antt =====
-- src/pynchy/config/merge.py: sandbox_universal, then a profile, then the sandbox's own table. The
-- records are those of src/pynchy/config/models.py.
use pynchy.Base.{
  Bool, List, Option, Text, [], codes, contains, false, if◌then◌else◌, list-eq, none, or_else, some,
  true, ℕ, ℕ-eq, ◌++◌, ◌∷◌,
}

-- A field of a pydantic model: whether it is in `model_fields_set`, and its value. A field that was
-- not set has its default, `none`, and a field may be set to `none` too.
pub data Field {ℓ} (A : Type ℓ) : Type ℓ where
  unset : Field A
  set : Option A → Field A

-- What the two kinds of tier have in common: the fields that are merged. `security` is a value that
-- the merge only hands on.
pub record Tier : Type 0 where
  pub directives : Option (List Text)
  pub skills : Option (List Text)
  pub mcp_servers : Option (List Text)
  pub context_mode : Field Text
  pub access : Field Text
  pub mode : Field Text
  pub trust : Field Bool
  pub trigger : Field Text
  pub allowed_users : Field (List Text)
  pub idle_terminate : Field Bool
  pub git_policy : Field Text
  pub security : Field ℕ
  pub repo_access : Field Text

-- The fields of WorkspaceConfig that no tier overrides. `mcp` is handed on as it is.
pub record WorkspaceConfig : Type 0 where
  pub tier : Tier
  pub profile : Option Text
  pub chat : Option Text
  pub is_admin : Option Bool
  pub schedule : Option Text
  pub prompt : Option Text
  pub name : Option Text
  pub mcp : ℕ

pub record ResolvedSandboxConfig : Type 0 where
  pub directives : List Text
  pub skills : List Text
  pub mcp_servers : List Text
  pub context_mode : Option Text
  pub access : Option Text
  pub mode : Option Text
  pub trust : Option Bool
  pub trigger : Option Text
  pub allowed_users : Option (List Text)
  pub idle_terminate : Option Bool
  pub git_policy : Option Text
  pub security : Option ℕ
  pub repo_access : Option Text
  pub chat : Option Text
  pub is_admin : Bool
  pub schedule : Option Text
  pub prompt : Option Text
  pub name : Option Text
  pub mcp : ℕ

-- The loop of `_deduplicate`, with `seen` and `result`, which hold the same items.
unfoldable pub deduplicate_from : List Text → List Text → List Text
deduplicate_from result [] = result
deduplicate_from result (item ∷ items) =
    deduplicate_from (if contains item result then result else result ++ item ∷ []) items

unfoldable pub deduplicate : List Text → List Text
unfolding deduplicate_from
deduplicate items = deduplicate_from [] items

abbrev pub values_of : (Tier → Option (List Text)) → Option Tier → List Text
values_of field none = []
values_of field (some tier) = or_else (field tier) []

unfoldable pub resolve_union :
    (Tier → Option (List Text)) → Option Tier → Option Tier → Tier → List Text
unfolding deduplicate
resolve_union field universal profile sandbox =
    deduplicate
      (values_of field universal ++ (values_of field profile ++ values_of field (some sandbox)))

-- The loop of `_resolve_override`: `winner` is `winner_value`, where `winner_label` is not None.
abbrev pub keep_winner {ℓ} : {A : Type ℓ} → Option (Option A) → Field A → Option (Option A)
keep_winner (some winner) f = some winner
keep_winner none unset = none
keep_winner none (set v) = some v

unfoldable pub find_winner {ℓ} :
    {A : Type ℓ} → (Tier → Field A) → Option (Option A) → List (Option Tier) → Option (Option A)
find_winner field winner [] = winner
find_winner field winner (none ∷ tiers) = find_winner field winner tiers
find_winner field winner (some tier ∷ tiers) =
    find_winner field (keep_winner winner (field tier)) tiers

unfoldable pub resolve_override {ℓ} :
    {A : Type ℓ} → (Tier → Field A) → Option A → Option Tier → Option Tier → Tier → Option A
unfolding find_winner
resolve_override field default universal profile sandbox =
    or_else (find_winner field none (some sandbox ∷ profile ∷ universal ∷ [])) default

unfoldable pub merge_sandbox_config :
    Option Tier → Option Tier → WorkspaceConfig → ResolvedSandboxConfig
unfolding resolve_union resolve_override
merge_sandbox_config universal profile sandbox =
    let own = sandbox.tier in
    record {
      directives = resolve_union (λ t. t.directives) universal profile own;
      skills = resolve_union (λ t. t.skills) universal profile own;
      mcp_servers = resolve_union (λ t. t.mcp_servers) universal profile own;
      context_mode =
          resolve_override (λ t. t.context_mode) (some (codes "group")) universal profile own;
      access = resolve_override (λ t. t.access) (some (codes "readwrite")) universal profile own;
      mode = resolve_override (λ t. t.mode) (some (codes "agent")) universal profile own;
      trust = resolve_override (λ t. t.trust) (some true) universal profile own;
      trigger = resolve_override (λ t. t.trigger) (some (codes "mention")) universal profile own;
      allowed_users =
          resolve_override (λ t. t.allowed_users) (some (codes "owner" ∷ [])) universal profile own;
      idle_terminate = resolve_override (λ t. t.idle_terminate) (some true) universal profile own;
      git_policy =
          resolve_override (λ t. t.git_policy) (some (codes "merge-to-main")) universal profile own;
      security = resolve_override (λ t. t.security) none universal profile own;
      repo_access = resolve_override (λ t. t.repo_access) none universal profile own;
      chat = sandbox.chat;
      is_admin = or_else sandbox.is_admin false;
      schedule = sandbox.schedule;
      prompt = sandbox.prompt;
      name = sandbox.name;
      mcp = sandbox.mcp;
    }
