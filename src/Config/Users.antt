-- ===== src/Config/Users.antt =====
-- src/pynchy/config/access.py: the users that a list of names stands for.
use pynchy.Base.{
  Bool, Dict, List, Option, Text, [], codes, contains, false, if◌then◌else◌, is_empty, length,
  list-eq, lookup, none, not, some, suc, true, zero, ℕ, ℕ-eq, ◌&&◌, ◌++◌, ◌==◌, ◌||◌, ◌∷◌,
}
use pynchy.Config.Refs.{channel_platform_from_name}

-- `value` is a text that is not empty.
abbrev pub is_given : Option Text → Bool
is_given none = false
is_given (some t) = not (is_empty t)

abbrev slack_id : Option Text → Option Text
slack_id none = none
slack_id (some owner) = some (codes "slack:" ++ owner)

abbrev owner_on : Option Text → Option Text → Option Text
owner_on owner_slack none = none
owner_on owner_slack (some platform) =
    if platform == codes "whatsapp"
    then some (codes "whatsapp:owner")
    else if platform == codes "slack" && is_given owner_slack
    then slack_id owner_slack
    else if not (is_empty platform) && is_given owner_slack
    then slack_id owner_slack
    else none

unfoldable pub resolve_owner : Option Text → Option Text → Option Text
unfolding channel_platform_from_name
resolve_owner owner_slack channel_plugin_name =
    owner_on owner_slack (channel_platform_from_name channel_plugin_name)

-- `set.add`
abbrev pub add : Text → List Text → List Text
add x xs = if contains x xs then xs else x ∷ xs

abbrev pub add_some : Option Text → List Text → List Text
add_some none xs = xs
add_some (some x) xs = add x xs

-- How one entry leaves the loop: it goes on with `result` and `seen`, it returns, or a call within
-- has no fuel.
pub data Visit : Type 0 where
  going : List Text → List Text → Visit
  returned : Visit
  exhausted : Visit

abbrev pub Resolution : Type 0
Resolution = Option (List Text × List Text)

abbrev pub resumed : Resolution → Visit
resumed none = exhausted
resumed (some (result, seen)) = going result seen

-- The parameters that every call hands on unchanged; `owner` is what `_resolve_owner` gives.
module _ (user_groups : Dict Text (List Text)) (owner : Option Text) where
  -- The body of the loop; `inner` is `_resolve_into` for the members of a group.
  abbrev pub enter :
      (List Text → List Text → List Text → Resolution)
      → Option (List Text)
      → List Text
      → List Text
      → Visit
  enter inner none result seen = going result seen
  enter inner (some members) result seen = resumed (inner members result seen)

  unfoldable pub visit :
      (List Text → List Text → List Text → Resolution) → Text → List Text → List Text → Visit
  unfolding lookup
  visit inner entry result seen =
      if entry == codes "*"
      then returned
      else if entry == codes "owner"
      then going (add_some owner result) seen
      else if contains b':' entry
      then going (add entry result) seen
      else if contains entry seen
      then going result seen
      else enter inner (lookup entry user_groups) result (entry ∷ seen)

  unfoldable pub resolve_entries :
      (List Text → List Text → List Text → Resolution)
      → List Text
      → List Text
      → List Text
      → Resolution
  unfolding visit
  resolve_entries inner [] result seen = some (result, seen)
  resolve_entries inner (entry ∷ entries) result seen = elim (visit inner entry result seen) [
    | going result' seen' ↦ resolve_entries inner entries result' seen'
    | returned ↦ some (result, seen)
    | exhausted ↦ none
  ]

  -- The fuel bounds the depth of the calls.
  unfoldable pub resolve_into : ℕ → List Text → List Text → List Text → Resolution
  unfolding resolve_entries
  resolve_into zero entries result seen = none
  resolve_into (suc fuel) entries result seen =
      resolve_entries (resolve_into fuel) entries result seen

-- The set that a resolution leaves. The default is for one without an end, of which there is none:
-- the fuel is enough.
abbrev pub users_of : Resolution → List Text
users_of none = []
users_of (some (result, seen)) = result

-- No users (`None`) means everyone.
unfoldable pub resolve_allowed_users :
    List Text → Dict Text (List Text) → Option Text → Option Text → Option (List Text)
unfolding resolve_into resolve_owner
resolve_allowed_users raw_list user_groups owner_slack channel_plugin_name =
    if contains (codes "*") raw_list
    then none
    else let owner = resolve_owner owner_slack channel_plugin_name in
      some (users_of (resolve_into user_groups owner (suc (length user_groups)) raw_list [] []))

abbrev pub qualified_in : Option Text → Text → List Text → Bool
qualified_in none sender users = false
qualified_in (some platform) sender users =
    not (is_empty platform) && contains (platform ++ b':' ∷ sender) users

unfoldable pub is_user_allowed : Text → Option Text → Option (List Text) → Bool → Bool
unfolding channel_platform_from_name
is_user_allowed sender channel_plugin_name none is_from_me = true
is_user_allowed sender channel_plugin_name (some users) is_from_me =
    (is_from_me && contains (codes "whatsapp:owner") users)
    || qualified_in (channel_platform_from_name channel_plugin_name) sender users
    || contains sender users
