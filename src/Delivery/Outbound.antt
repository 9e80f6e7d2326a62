-- ===== src/Delivery/Outbound.antt =====
-- src/pynchy/state/outbound.py: the ledger of messages to deliver, and the loop of
-- src/pynchy/host/orchestrator/messaging/reconciler.py that delivers them again. The two tables are
-- those of src/pynchy/state/schema.py.
use pynchy.Base.{
  Bool, List, Option, String, String-eq, Text, [], any, contains, distinct, false, if◌then◌else◌,
  keep, length, list-eq, map, none, not, some, suc, true, ℕ, ℕ-eq, ◌&&◌, ◌++◌, ◌==◌, ◌∷◌,
}
use pynchy.Delivery.Cursors.{text_lt, later}

pub record LedgerRow : Type 0 where
  pub id : ℕ
  pub chat_jid : String
  pub content : String
  pub timestamp : Text
  pub source : String

-- `is_delivered` is whether `delivered_at` is set.
pub record DeliveryRow : Type 0 where
  pub ledger_id : ℕ
  pub channel_name : String
  pub is_delivered : Bool
  pub error : Option String

-- `next_id` is what AUTOINCREMENT gives next; the rows stand in the order of their ids.
pub record Ledger : Type 0 where
  pub next_id : ℕ
  pub rows : List LedgerRow
  pub deliveries : List DeliveryRow

abbrev pub empty_ledger : Ledger
empty_ledger = record { next_id = 1; rows = []; deliveries = [] }

abbrev pub deliveries_for : ℕ → List String → List DeliveryRow
deliveries_for id names =
    map (λ name. record { ledger_id = id; channel_name = name; is_delivered = false; error = none })
      names

abbrev pub recorded : String → String → String → List String → Text → Ledger → Ledger
recorded chat_jid content source channel_names now l = record {
  next_id = suc l.next_id;
  rows =
      l.rows
      ++ record {
        id = l.next_id;
        chat_jid = chat_jid;
        content = content;
        timestamp = now;
        source = source;
      }
        ∷ [];
  deliveries = l.deliveries ++ deliveries_for l.next_id channel_names;
}

-- A channel that is named twice breaks the primary key of the deliveries: the transaction is undone
-- and the call raises (`none`).
unfoldable pub record_outbound :
    String → String → String → List String → Text → Ledger → Option (Ledger × ℕ)
record_outbound chat_jid content source channel_names now l =
    if distinct channel_names
    then some (recorded chat_jid content source channel_names now l, l.next_id)
    else none

abbrev pub is_row : ℕ → String → DeliveryRow → Bool
is_row id name d = (d.ledger_id == id) && (d.channel_name == name)

abbrev pub delivered_row : ℕ → String → DeliveryRow → DeliveryRow
delivered_row id name d =
    if is_row id name d then record d { is_delivered = true; error = none } else d

abbrev pub failed_row : ℕ → String → String → DeliveryRow → DeliveryRow
failed_row id name error d = if is_row id name d then record d { error = some error } else d

unfoldable pub mark_delivered : ℕ → String → Ledger → Ledger
mark_delivered id name l = record l { deliveries = map (delivered_row id name) l.deliveries }

unfoldable pub mark_delivery_error : ℕ → String → String → Ledger → Ledger
mark_delivery_error id name error l = record l {
  deliveries = map (failed_row id name error) l.deliveries;
}

abbrev pub is_pending : String → List DeliveryRow → ℕ → Bool
is_pending name ds id = any (λ d. is_row id name d && not d.is_delivered) ds

-- The join gives a row of the ledger once, since its delivery to a channel is one row.
unfoldable pub get_pending_outbound : String → String → Ledger → List LedgerRow
get_pending_outbound name chat_jid l =
    keep (λ r. (r.chat_jid == chat_jid) && is_pending name l.deliveries r.id) l.rows

abbrev pub has_pending : List DeliveryRow → ℕ → Bool
has_pending ds id = any (λ d. (d.ledger_id == id) && not d.is_delivered) ds

abbrev pub is_garbage : Text → List DeliveryRow → LedgerRow → Bool
is_garbage cutoff ds r = text_lt r.timestamp cutoff && not (has_pending ds r.id)

-- The ledger, and the number of messages deleted.
unfoldable pub gc_delivered : Text → Ledger → Ledger × ℕ
gc_delivered cutoff l =
    let ids = map (λ r. r.id) (keep (is_garbage cutoff l.deliveries) l.rows) in
    (
      record l {
        rows = keep (λ r. not (contains r.id ids)) l.rows;
        deliveries = keep (λ d. not (contains d.ledger_id ids)) l.deliveries;
      },
      length ids,
    )

-- The loop of the reconciler over the pending rows, and its cursor. `send` is what comes of
-- `ch.send_message`: nothing, or an exception's text. A failure of the database is left out.
unfoldable pub retry_outbound :
    String → (LedgerRow → Option String) → List LedgerRow → Ledger → Text → Ledger × Text
unfolding mark_delivered mark_delivery_error
retry_outbound name send [] l cursor = (l, cursor)
retry_outbound name send (row ∷ rows) l cursor = elim (send row) [
  | none ↦ retry_outbound name send rows (mark_delivered row.id name l) (later cursor row.timestamp)
  | some error ↦ (mark_delivery_error row.id name error l, cursor)
]
