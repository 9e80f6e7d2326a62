-- ===== src/Delivery/OutboundLaws.antt =====
-- What the ledger still has to deliver, after a message is recorded and after a round of retries.
use pynchy.Base.{
  List, Option, String, String-eq, Text, [], ap, arith, contains, distinct, distinct-keep, false,
  keep, list-eq, map, none, not, refl, some, true, ℕ, ℕ-eq, ◌&&◌, ◌==◌, ◌∙◌, ◌∷◌, ◌≡◌,
}
use pynchy.Delivery.Cursors.{later}
use pynchy.Delivery.Outbound.{
  LedgerRow, DeliveryRow, Ledger, delivered_row, failed_row, mark_delivered, mark_delivery_error,
  is_pending, get_pending_outbound, retry_outbound,
}

-- The messages that are left when those before the first that fails are sent.
abbrev pub unsent : (LedgerRow → Option String) → List LedgerRow → List LedgerRow
unsent send [] = []
unsent send (r ∷ rows) = elim (send r) [ none ↦ unsent send rows | some error ↦ r ∷ rows ]

abbrev pub ids : List LedgerRow → List ℕ
ids = map (λ r. r.id)

pending-delivered :
    (id i : ℕ) (name : String) (ds : List DeliveryRow)
    → is_pending name (map (delivered_row id name) ds) i ≡ (not (id == i) && is_pending name ds i)
pending-delivered id i name [] = ground arith
pending-delivered id i name (d ∷ ds) = ground (arith, pending-delivered id i name ds)

pending-failed :
    (id i : ℕ) (name error : String) (ds : List DeliveryRow)
    → is_pending name (map (failed_row id name error) ds) i ≡ is_pending name ds i
pending-failed id i name error [] = refl
pending-failed id i name error (d ∷ ds) = ground (arith, pending-failed id i name error ds)

get_pending-failed :
    (name jid : String) (id : ℕ) (error : String) (l : Ledger)
    → get_pending_outbound name jid (mark_delivery_error id name error l)
      ≡ get_pending_outbound name jid l
unfolding get_pending_outbound mark_delivery_error
get_pending-failed name jid id error l = go l.rows
  where
    go :
        (rows : List LedgerRow)
        → keep
            (λ r.
              (r.chat_jid == jid)
              && is_pending name (map (failed_row id name error) l.deliveries) r.id)
            rows
          ≡ keep (λ r. (r.chat_jid == jid) && is_pending name l.deliveries r.id) rows
    go [] = refl
    go (r ∷ rows) = ground (arith, pending-failed id r.id name error l.deliveries, go rows)

get_pending-delivered :
    (name jid : String) (id : ℕ) (l : Ledger)
    → get_pending_outbound name jid (mark_delivered id name l)
      ≡ keep (λ r. not (id == r.id)) (get_pending_outbound name jid l)
unfolding get_pending_outbound mark_delivered
get_pending-delivered name jid id l = go l.rows
  where
    go :
        (rows : List LedgerRow)
        → keep
            (λ r.
              (r.chat_jid == jid)
              && is_pending name (map (delivered_row id name) l.deliveries) r.id)
            rows
          ≡ keep
              (λ r. not (id == r.id))
              (keep (λ r. (r.chat_jid == jid) && is_pending name l.deliveries r.id) rows)
    go [] = refl
    go (r ∷ rows) = ground (arith, pending-delivered id r.id name l.deliveries, go rows)

keep_others :
    (id : ℕ) (rows : List LedgerRow)
    → contains id (ids rows) ≡ false
    → keep (λ r. not (id == r.id)) rows ≡ rows
keep_others id [] h = refl
keep_others id (r ∷ rows) h = ground (arith, h, keep_others id rows)

get_pending-retry :
    (name jid : String) (send : LedgerRow → Option String) (rows : List LedgerRow) (l : Ledger)
    (cursor : Text)
    → get_pending_outbound name jid l ≡ rows
    → distinct (ids rows) ≡ true
    → get_pending_outbound name jid (retry_outbound name send rows l cursor).0 ≡ unsent send rows
unfolding retry_outbound
get_pending-retry name jid send [] l cursor h d = h
get_pending-retry name jid send (r ∷ rows) l cursor h d = go (send r) (
    get_pending-retry name jid send rows (mark_delivered r.id name l) (later cursor r.timestamp)
      left (ground (arith, d)))
  where
    left : get_pending_outbound name jid (mark_delivered r.id name l) ≡ rows
    left =
        get_pending-delivered name jid r.id l
        ∙ ap (keep (λ x. not (r.id == x.id))) h
        ∙ ground (arith, keep_others r.id rows (ground (arith, d)))

    go :
        (o : Option String)
        → get_pending_outbound name jid
            (retry_outbound name send rows
              (mark_delivered r.id name l)
              (later cursor r.timestamp)).0
          ≡ unsent send rows
        → get_pending_outbound name jid
            (elim o as (λ _. Ledger × Text) [
              | none ↦
                  retry_outbound name send rows
                    (mark_delivered r.id name l)
                    (later cursor r.timestamp)
              | some error ↦ (mark_delivery_error r.id name error l, cursor)
            ]).0
          ≡ elim o [ none ↦ unsent send rows | some error ↦ r ∷ rows ]
    go none ih = ih
    go (some error) ih = get_pending-failed name jid r.id error l ∙ h

-- A round of retries over what a channel still has to deliver to a chat leaves exactly the messages
-- from the first that could not be sent on, in their order: none is skipped, and none that was sent
-- is sent again. The ids of the ledger's rows have to differ.
pub retry_outbound_exact :
    (name jid : String) (send : LedgerRow → Option String) (l : Ledger) (cursor : Text)
    → distinct (ids l.rows) ≡ true
    → let pending = get_pending_outbound name jid l in
      get_pending_outbound name jid (retry_outbound name send pending l cursor).0
      ≡ unsent send pending
unfolding get_pending_outbound
retry_outbound_exact name jid send l cursor d =
    get_pending-retry name jid send (get_pending_outbound name jid l) l cursor refl (
      distinct-keep (λ r. r.id) (λ r. (r.chat_jid == jid) && is_pending name l.deliveries r.id)
        l.rows d)
