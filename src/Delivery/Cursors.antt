-- ===== src/Delivery/Cursors.antt =====
-- src/pynchy/state/channel_cursors.py: the table of the channels' cursors.
use pynchy.Base.{
  Bool, Dict, List, Option, String, String-eq, Text, [], contains, eqb, false, if◌then◌else◌,
  insert, is_empty, keep, length, list-eq, lookup, ltb, none, not, or_else, pair-eq, some, true, ℕ,
  ℕ-eq, ◌&&◌, ◌||◌, ◌∷◌,
}

-- The channel's name, the chat's jid and the direction: the table's primary key.
abbrev pub Key : Type 0
Key = (String × String) × String

-- `channel_cursors`, without `updated_at`, which nothing reads. A cursor is an ISO 8601 text.
abbrev pub Table : Type 0
Table = Dict Key Text

-- The order of texts by their code points, Python's and SQLite's.
abbrev pub text_lt : Text → Text → Bool
text_lt s [] = false
text_lt [] (d ∷ t) = true
text_lt (c ∷ s) (d ∷ t) = ltb c d || (eqb c d && text_lt s t)

abbrev pub later : Text → Text → Text
later stored value = if text_lt stored value then value else stored

unfoldable pub get_channel_cursor : Key → Table → Text
unfolding lookup
get_channel_cursor key table = or_else (lookup key table) []

unfoldable pub set_channel_cursor : Key → Text → Table → Table
unfolding insert
set_channel_cursor key value table = insert key value table

abbrev pub merged : Option Text → Text → Text
merged none value = value
merged (some stored) value = later stored value

-- One turn of the loop of `advance_cursors_atomic`: the upsert, if there is a value.
unfoldable pub upsert : Key → Option Text → Table → Table
unfolding lookup insert
upsert key none table = table
upsert key (some value) table =
    if is_empty value then table else insert key (merged (lookup key table) value) table

unfoldable pub advance_cursors_atomic : String → String → Option Text → Option Text → Table → Table
unfolding upsert
advance_cursors_atomic channel_name chat_jid inbound outbound table =
    upsert ((channel_name, chat_jid), "outbound") outbound
      (upsert ((channel_name, chat_jid), "inbound") inbound table)

abbrev pub is_active : List String → Key → Bool
is_active names key = contains key.0.0 names

abbrev pub no_names : List String → Bool
no_names [] = true
no_names (n ∷ ns) = false

-- The table, and the number of rows deleted.
unfoldable pub prune_stale_cursors : List String → Table → Table × ℕ
prune_stale_cursors names table = if no_names names then (table, 0) else (
  keep (λ row. is_active names row.0) table,
  length (keep (λ row. not (is_active names row.0)) table),
)
