-- ===== src/Chat/CursorLaws.antt =====
-- A chat's cursor, and the messages since it.
use pynchy.Base.{
  List, String, String-eq, Text, [], all, all-last, ap, arith, equal_refl, false, if◌then◌else◌,
  last, list-eq, lookup, lookup-insert, not, or_else, refl, some, sym, true, ℕ-eq, ◌==◌, ◌∙◌, ◌∷◌,
  ◌≡◌,
}
use pynchy.Delivery.Cursors.{text_lt}
use pynchy.Delivery.CursorLaws.{text_lt_trans}
use pynchy.Chat.Messages.{Message, Messages, by_time, is_since, get_messages_since}
use pynchy.Chat.MessageLaws.{since-is_since}
use pynchy.Chat.Pipeline.{Pipe, cursor_of, set_cursor}

pub cursor-set : (jid : String) (t : Text) (p : Pipe) → cursor_of jid (set_cursor jid t p) ≡ t
cursor-set jid t p =
    ap (λ o. or_else o [])
      (lookup-insert jid jid t p.cursors
        ∙ ap (λ b. if b then some t else lookup jid p.cursors) (equal_refl jid))

pub others-set :
    (jid other : String) (t : Text) (p : Pipe)
    → (jid == other) ≡ false
    → lookup other (set_cursor jid t p).cursors ≡ lookup other p.cursors
others-set jid other t p n = lookup-insert jid other t p.cursors ∙ rw n refl

-- No message of the chat is later than a time that is not before the last one's.
pub all_until :
    (m : Message) (ms : List Message) (t : Text) (ns : List Message)
    → text_lt t (last m ms).timestamp ≡ false
    → all (λ n. by_time n (last m ms)) ns ≡ true
    → all (λ n. not (text_lt t n.timestamp)) ns ≡ true
all_until m ms t [] h k = refl
all_until m ms t (n ∷ ns) h k =
    let before : text_lt (last m ms).timestamp n.timestamp ≡ false = ground (arith, k) in
    let here = text_lt_trans n.timestamp (last m ms).timestamp t before h in
    ground (arith, here, all_until m ms t ns h (ground (arith, k)))

-- The last message since a time is later.
pub last-since :
    (jid : String) (since : Text) (table : Messages) (m : Message) (ms : List Message)
    → get_messages_since jid since table ≡ m ∷ ms
    → text_lt since (last m ms).timestamp ≡ true
last-since jid since table m ms waits =
    let later_than =
      all-last (is_since jid since) m ms
        (ap (all (is_since jid since)) (sym waits) ∙ since-is_since jid since table) in
    ground (arith, later_than)
