-- ===== src/Chat/Messages.antt =====
-- src/pynchy/state/messages.py, without the metadata and the statistics.
use mathlib.Core.List.{reverse}
use pynchy.Base.{
  Bool, List, Option, String, String-eq, Text, [], any, contains, if◌then◌else◌, is_empty, keep,
  last, length, list-eq, none, not, some, sort_by, take, ℕ, ℕ-eq, ◌&&◌, ◌++◌, ◌==◌, ◌∷◌,
}
use pynchy.Delivery.Cursors.{text_lt, later}

-- `NewMessage`, and the row that holds it.
pub record Message : Type 0 where
  pub id : String
  pub chat_jid : String
  pub sender : String
  pub sender_name : String
  pub content : Text
  pub timestamp : Text
  pub is_from_me : Bool
  pub message_type : String

abbrev pub Messages : Type 0
Messages = List Message

abbrev pub is_row : String → String → Message → Bool
is_row id jid m = (m.id == id) && (m.chat_jid == jid)

-- INSERT OR REPLACE, by the primary key.
unfoldable pub store_message_direct : Message → Messages → Messages
store_message_direct msg table = keep (λ m. not (is_row msg.id msg.chat_jid m)) table ++ msg ∷ []

unfoldable pub store_message : Message → String → Messages → Messages
unfolding store_message_direct
store_message msg message_type table =
    store_message_direct (record msg { message_type = message_type }) table

unfoldable pub message_exists : String → String → Messages → Bool
message_exists id jid table = any (is_row id jid) table

-- ORDER BY timestamp
abbrev pub by_time : Message → Message → Bool
by_time m n = not (text_lt n.timestamp m.timestamp)

abbrev pub latest : Text → List Message → Text
latest t [] = t
latest t (m ∷ ms) = latest (later t m.timestamp) ms

unfoldable pub get_new_messages : List String → Text → Messages → List Message × Text
get_new_messages [] last table = ([], last)
get_new_messages (j ∷ jids) last table =
    let found = sort_by by_time (
      keep (λ m. (text_lt last m.timestamp && contains m.chat_jid (j ∷ jids)) && not m.is_from_me)
        table) in
    (found, latest last found)

abbrev pub is_since : String → Text → Message → Bool
is_since jid since m = ((m.chat_jid == jid) && text_lt since m.timestamp) && not m.is_from_me

unfoldable pub get_messages_since : String → Text → Messages → List Message
get_messages_since jid since table = sort_by by_time (keep (is_since jid since) table)

-- The table, and the number of rows deleted.
unfoldable pub prune_messages_by_sender : String → Text → Messages → Messages × ℕ
prune_messages_by_sender sender before table =
    let is_old : Message → Bool = λ m. (m.sender == sender) && text_lt m.timestamp before in
    (keep (λ m. not (is_old m)) table, length (keep is_old table))

abbrev is_shown : String → Option Text → Message → Bool
is_shown jid none m = m.chat_jid == jid
is_shown jid (some cleared_at) m = (m.chat_jid == jid) && text_lt cleared_at m.timestamp

abbrev cleared : Option Text → Option Text
cleared none = none
cleared (some t) = if is_empty t then none else some t

-- `cleared_at` is the chat's; the newest come last.
unfoldable pub get_chat_history :
    String → (cleared_at : Option Text) → (limit : ℕ) → Messages → List Message
get_chat_history jid cleared_at limit table =
    reverse
      (take limit (sort_by (λ m n. by_time n m) (keep (is_shown jid (cleared cleared_at)) table)))
