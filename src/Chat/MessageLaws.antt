-- ===== src/Chat/MessageLaws.antt =====
-- The messages since a time, in order.
use pynchy.Base.{
  List, String, String-eq, Text, all, all-sort_by, all_kept, ap, arith, false, is_sorted, keep,
  last, list-eq, not, sort_by-is_sorted, sorted-last, sym, true, ℕ-eq, ◌∙◌, ◌∷◌, ◌≡◌,
}
use pynchy.Delivery.Cursors.{text_lt}
use pynchy.Delivery.CursorLaws.{text_lt_asym, text_lt_trans}
use pynchy.Chat.Messages.{Message, Messages, by_time, is_since, get_messages_since}

by_time-total : (m n : Message) → by_time m n ≡ false → by_time n m ≡ true
by_time-total m n h =
    let before : text_lt n.timestamp m.timestamp ≡ true = ground (arith, h) in
    ap not (text_lt_asym n.timestamp m.timestamp before)

by_time_trans : (l m n : Message) → by_time l m ≡ true → by_time m n ≡ true → by_time l n ≡ true
by_time_trans l m n h k =
    let first : text_lt m.timestamp l.timestamp ≡ false = ground (arith, h) in
    let second : text_lt n.timestamp m.timestamp ≡ false = ground (arith, k) in
    ap not (text_lt_trans l.timestamp m.timestamp n.timestamp first second)

-- All of them are later than the time.
pub since-is_since :
    (jid : String) (since : Text) (table : Messages)
    → all (is_since jid since) (get_messages_since jid since table) ≡ true
unfolding get_messages_since
since-is_since jid since table =
    all-sort_by by_time (is_since jid since) (keep (is_since jid since) table)
    ∙ all_kept (is_since jid since) table

-- None is later than the last.
pub since-last :
    (jid : String) (since : Text) (table : Messages) (m : Message) (ms : List Message)
    → get_messages_since jid since table ≡ m ∷ ms
    → all (λ n. by_time n (last m ms)) (m ∷ ms) ≡ true
unfolding get_messages_since
since-last jid since table m ms e = sorted-last by_time by_time-total by_time_trans m ms (
    ap (is_sorted by_time) (sym e)
    ∙ sort_by-is_sorted by_time by_time-total by_time_trans (keep (is_since jid since) table))
