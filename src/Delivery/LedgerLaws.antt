-- ===== src/Delivery/LedgerLaws.antt =====
-- The ledger of outbound.py under any operations, in any order.
use pynchy.Base.{
  List, Option, String, String-eq, Text, [], ap, arith, contains, distinct, distinct-keep, if_cases,
  if◌then◌else◌, keep, list-eq, ltb, map, none, not, refl, some, true, ℕ, ℕ-eq, ◌&&◌, ◌++◌, ◌==◌,
  ◌||◌, ◌∙◌, ◌∷◌, ◌≡◌,
}
use pynchy.Delivery.Outbound.{
  LedgerRow, DeliveryRow, Ledger, empty_ledger, deliveries_for, recorded, record_outbound, is_row,
  delivered_row, failed_row, mark_delivered, mark_delivery_error, is_pending, get_pending_outbound,
  gc_delivered,
}
use pynchy.Delivery.Fresh.{
  IsLedger, rows_below, deliveries_below, all-keep, any-append, keep-append, fresh_pending,
  pending_for, pending_others, recorded-IsLedger,
}

-- The operations on the ledger.
pub data LedgerOp : Type 0 where
  record_op :
      (chat_jid content source : String) (channel_names : List String) (now : Text) → LedgerOp
  deliver_op : (id : ℕ) (channel_name : String) → LedgerOp
  fail_op : (id : ℕ) (channel_name error : String) → LedgerOp
  collect_op : (cutoff : Text) → LedgerOp

abbrev pub ledger_or : Ledger → Option (Ledger × ℕ) → Ledger
ledger_or l none = l
ledger_or l (some p) = p.0

unfoldable pub apply_op : LedgerOp → Ledger → Ledger
unfolding record_outbound mark_delivered mark_delivery_error gc_delivered
apply_op (record_op jid content source names now) l =
    ledger_or l (record_outbound jid content source names now l)
apply_op (deliver_op id name) l = mark_delivered id name l
apply_op (fail_op id name error) l = mark_delivery_error id name error l
apply_op (collect_op cutoff) l = (gc_delivered cutoff l).0

unfoldable pub apply_ops : List LedgerOp → Ledger → Ledger
unfolding apply_op
apply_ops [] l = l
apply_ops (o ∷ os) l = apply_ops os (apply_op o l)

deliveries_below_delivered :
    (n id : ℕ) (name : String) (ds : List DeliveryRow)
    → deliveries_below n (map (delivered_row id name) ds) ≡ deliveries_below n ds
deliveries_below_delivered n id name [] = refl
deliveries_below_delivered n id name (d ∷ ds) =
    ground (arith, deliveries_below_delivered n id name ds)

deliveries_below_failed :
    (n id : ℕ) (name error : String) (ds : List DeliveryRow)
    → deliveries_below n (map (failed_row id name error) ds) ≡ deliveries_below n ds
deliveries_below_failed n id name error [] = refl
deliveries_below_failed n id name error (d ∷ ds) =
    ground (arith, deliveries_below_failed n id name error ds)

pub apply_op-IsLedger : (o : LedgerOp) (l : Ledger) → IsLedger l → IsLedger (apply_op o l)
unfolding apply_op record_outbound mark_delivered mark_delivery_error gc_delivered
apply_op-IsLedger (record_op jid content source names now) l v =
    if_cases (λ o. IsLedger (ledger_or l o)) (distinct names)
      (λ y. recorded-IsLedger jid content source names now l v) (λ n. v)
apply_op-IsLedger (deliver_op id name) l v = record {
  rows_known = v.rows_known;
  deliveries_known = deliveries_below_delivered l.next_id id name l.deliveries ∙ v.deliveries_known;
  once = v.once;
}
apply_op-IsLedger (fail_op id name error) l v = record {
  rows_known = v.rows_known;
  deliveries_known =
      deliveries_below_failed l.next_id id name error l.deliveries ∙ v.deliveries_known;
  once = v.once;
}
apply_op-IsLedger (collect_op cutoff) l v = record {
  rows_known = all-keep (λ r. ltb r.id l.next_id) _ l.rows v.rows_known;
  deliveries_known = all-keep (λ d. ltb d.ledger_id l.next_id) _ l.deliveries v.deliveries_known;
  once = distinct-keep (λ r. r.id) _ l.rows v.once;
}

apply_ops-keeps : (os : List LedgerOp) (l : Ledger) → IsLedger l → IsLedger (apply_ops os l)
unfolding apply_ops
apply_ops-keeps [] l v = v
apply_ops-keeps (o ∷ os) l v = apply_ops-keeps os (apply_op o l) (apply_op-IsLedger o l v)

-- Whatever operations are applied to an empty ledger, in whatever order, every id in it was given
-- before the next one, and no two rows share one.
pub apply_ops-IsLedger : (os : List LedgerOp) → IsLedger (apply_ops os empty_ledger)
apply_ops-IsLedger os =
    apply_ops-keeps os empty_ledger
      (record { rows_known = refl; deliveries_known = refl; once = refl })

pending_before :
    (n : ℕ) (name chat : String) (names : List String) (ds : List DeliveryRow)
    (rows : List LedgerRow)
    → rows_below n rows ≡ true
    → keep (λ r. (r.chat_jid == chat) && is_pending name (ds ++ deliveries_for n names) r.id) rows
      ≡ keep (λ r. (r.chat_jid == chat) && is_pending name ds r.id) rows
pending_before n name chat names ds [] h = refl
pending_before n name chat names ds (r ∷ rows) h = ground (
  arith,
  h,
  any-append (λ d. is_row r.id name d && not d.is_delivered) ds (deliveries_for n names),
  pending_others n r.id name names,
  pending_before n name chat names ds rows,
)

pub pending-recorded :
    (l : Ledger) (jid content source : String) (names : List String) (now : Text)
    (name chat : String)
    → IsLedger l
    → get_pending_outbound name chat (recorded jid content source names now l)
      ≡ get_pending_outbound name chat l
        ++ (if (jid == chat) && contains name names
            then record {
              id = l.next_id;
              chat_jid = jid;
              content = content;
              timestamp = now;
              source = source;
            }
              ∷ []
            else [])
unfolding get_pending_outbound
pending-recorded l jid content source names now name chat v =
    let ds = l.deliveries ++ deliveries_for l.next_id names in
    let row : LedgerRow = record {
      id = l.next_id;
      chat_jid = jid;
      content = content;
      timestamp = now;
      source = source;
    } in
    let newest =
      any-append (λ d. is_row l.next_id name d && not d.is_delivered) l.deliveries
        (deliveries_for l.next_id names)
      ∙ ap (λ b. b || is_pending name (deliveries_for l.next_id names) l.next_id)
          (fresh_pending l.next_id name l.deliveries v.deliveries_known)
      ∙ pending_for l.next_id name names in
    keep-append (λ r. (r.chat_jid == chat) && is_pending name ds r.id) l.rows (row ∷ [])
    ∙ ap (λ rows. rows ++ keep (λ r. (r.chat_jid == chat) && is_pending name ds r.id) (row ∷ []))
        (pending_before l.next_id name chat names l.deliveries l.rows v.rows_known)
    ∙ ap (λ b. get_pending_outbound name chat l ++ (if (jid == chat) && b then row ∷ [] else []))
        newest

-- In a ledger that any operations have led to, a recorded message is pending for every channel that
-- it is recorded for, after all that the chat's messages are pending there, and for no other channel
-- and no other chat.
pub record_outbound_pending :
    (os : List LedgerOp) (jid content source : String) (names : List String) (now : Text)
    (name chat : String)
    → distinct names ≡ true
    → let l = apply_ops os empty_ledger in
      let row : LedgerRow = record {
        id = l.next_id;
        chat_jid = jid;
        content = content;
        timestamp = now;
        source = source;
      } in
      get_pending_outbound name chat (ledger_or l (record_outbound jid content source names now l))
      ≡ get_pending_outbound name chat l
        ++ (if (jid == chat) && contains name names then row ∷ [] else [])
unfolding record_outbound
record_outbound_pending os jid content source names now name chat d =
    ap
      (λ b. get_pending_outbound name chat (
        ledger_or (apply_ops os empty_ledger) (
          if b
          then some (
            recorded jid content source names now (apply_ops os empty_ledger),
            (apply_ops os empty_ledger).next_id,
          )
          else none)))
      d
    ∙ pending-recorded (apply_ops os empty_ledger) jid content source names now name chat
        (apply_ops-IsLedger os)
