-- ===== src/Chat/Commands.antt =====
-- src/pynchy/host/orchestrator/messaging/commands.py, and the trigger pattern of
-- src/pynchy/config/settings.py.
use mathlib.Core.List.{reverse}
use pynchy.Base.{
  Bool, List, Option, String-eq, Text, [], all, codes, contains, false, if◌then◌else◌, is_empty,
  is_space, leb, length, list-eq, none, not, or_else, some, strip, ℕ, ℕ-eq, ◌&&◌, ◌==◌, ◌||◌, ◌∷◌,
}
use pynchy.Security.Classify.{Unicode, lowercase}

-- `s.agent` and `s.commands`.
pub record Words : Type 0 where
  pub names : List Text
  pub reset_verbs : List Text
  pub reset_nouns : List Text
  pub reset_aliases : List Text
  pub end_verbs : List Text
  pub end_nouns : List Text
  pub end_aliases : List Text
  pub redeploy_verbs : List Text
  pub redeploy_aliases : List Text

abbrev word_at : Unicode → Text → Bool
word_at u [] = false
word_at u (c ∷ t) = u.is_word c

-- `name\b` at the start of a text, without regard to case: what is left. `before` is the character
-- before the text.
unfoldable pub match_name : Unicode → (name : Text) → (before : ℕ) → Text → Option Text
match_name u [] before t =
    if (u.is_word before && not (word_at u t)) || (not (u.is_word before) && word_at u t)
    then some t
    else none
match_name u (n ∷ ns) before [] = none
match_name u (n ∷ ns) before (c ∷ t) =
    let rest = match_name u ns c t in if u.lower n == u.lower c then rest else none

abbrev match_names : Unicode → List Text → Text → Option Text
match_names u [] t = none
match_names u (n ∷ ns) t = elim (match_name u n b'@' t) [
  | none ↦ match_names u ns t
  | some rest ↦ some rest
]

-- `trigger_pattern`, `^@(name|…)\b`: what is left of a text that it matches.
unfoldable pub match_trigger : Unicode → List Text → Text → Option Text
unfolding match_name
match_trigger u names [] = none
match_trigger u names (c ∷ t) = if c == b'@' then match_names u names t else none

unfoldable pub strip_trigger : Unicode → Words → Text → Text
unfolding match_trigger strip
strip_trigger u w t = strip (or_else (match_trigger u w.names t) t)

-- `s.split()`; `word` is what was read of a word, the last character first.
unfoldable pub split_words : Text → Text → List Text
unfolding is_space
split_words word [] = if is_empty word then [] else reverse word ∷ []
split_words word (c ∷ t) =
    let cut = split_words [] t in
    let longer = split_words (c ∷ word) t in
    if is_space c then (if is_empty word then cut else reverse word ∷ cut) else longer

abbrev words_of : Unicode → Text → List Text
words_of u t = split_words [] (lowercase u (strip t))

abbrev magic_words : List Text → List Text → List Text → List Text → Bool
magic_words [] verbs nouns aliases = false
magic_words (a ∷ []) verbs nouns aliases = contains a aliases
magic_words (a ∷ b ∷ []) verbs nouns aliases =
    (contains a verbs && contains b nouns) || (contains a nouns && contains b verbs)
magic_words (a ∷ b ∷ c ∷ ws) verbs nouns aliases = false

unfoldable pub is_magic_command : Unicode → Text → List Text → List Text → List Text → Bool
unfolding split_words strip
is_magic_command u t verbs nouns aliases = magic_words (words_of u t) verbs nouns aliases

unfoldable pub is_context_reset : Unicode → Words → Text → Bool
unfolding strip_trigger is_magic_command
is_context_reset u w t =
    is_magic_command u (strip_trigger u w t) w.reset_verbs w.reset_nouns w.reset_aliases

unfoldable pub is_end_session : Unicode → Words → Text → Bool
unfolding strip_trigger is_magic_command
is_end_session u w t =
    is_magic_command u (strip_trigger u w t) w.end_verbs w.end_nouns w.end_aliases

unfoldable pub is_redeploy : Unicode → Words → Text → Bool
unfolding strip_trigger
is_redeploy u w t =
    let word = lowercase u (strip (strip_trigger u w t)) in
    contains word w.redeploy_aliases || contains word w.redeploy_verbs

unfoldable pub is_any_magic_command : Unicode → Words → Text → Bool
unfolding is_context_reset is_end_session is_redeploy
is_any_magic_command u w t = (is_context_reset u w t || is_end_session u w t) || is_redeploy u w t

-- `_APPROVAL_ID_RE`
abbrev is_id : Text → Bool
is_id t =
    (leb 2 (length t) && leb (length t) 36)
    && all (λ c. (leb b'0' c && leb c b'9') || (leb b'a' c && leb c b'z')) t

abbrev approval_words : List Text → Option (Text × Text)
approval_words [] = none
approval_words (a ∷ []) = none
approval_words (a ∷ b ∷ []) =
    if contains a (codes "approve" ∷ codes "deny" ∷ []) && is_id b then some (a, b) else none
approval_words (a ∷ b ∷ c ∷ ws) = none

unfoldable pub is_approval_command : Unicode → Words → Text → Option (Text × Text)
unfolding strip_trigger split_words
is_approval_command u w t = approval_words (words_of u (strip_trigger u w t))

unfoldable pub is_pending_query : Unicode → Words → Text → Bool
unfolding strip_trigger
is_pending_query u w t = lowercase u (strip (strip_trigger u w t)) == codes "pending"
