-- ===== src/Delivery/Promised.antt =====
-- The ledger of outbound.py as a queue for each channel and chat.
use pynchy.Base.{
  Bool-cases, List, String, String-eq, Text, [], ap, arith, contains, distinct, false,
  if◌then◌else◌, inl, inr, keep, map, not, refl, suc, true, ℕ, ℕ-eq, ◌&&◌, ◌++◌, ◌==◌, ◌∙◌, ◌∷◌,
  ◌≡◌,
}
use pynchy.Delivery.Outbound.{
  LedgerRow, DeliveryRow, Ledger, empty_ledger, delivered_row, failed_row, is_pending, has_pending,
  is_garbage, record_outbound, mark_delivered, mark_delivery_error, gc_delivered,
  get_pending_outbound,
}
use pynchy.Delivery.Fresh.{IsLedger}
use pynchy.Delivery.LedgerLaws.{
  LedgerOp, record_op, deliver_op, fail_op, collect_op, apply_op, apply_ops, apply_op-IsLedger,
  pending-recorded,
}

-- What is promised to a channel for a chat, by the operations alone: a recorded message joins the
-- queue of each channel that it names, a delivery takes it out of that channel's, and neither a
-- failure nor the collection of old messages changes a queue. `next` is the next message's id.
abbrev pub next_after : LedgerOp → ℕ → ℕ
next_after (record_op jid content source names now) next = if distinct names then suc next else next
next_after (deliver_op id n) next = next
next_after (fail_op id n error) next = next
next_after (collect_op cutoff) next = next

abbrev pub promised_after :
    (channel_name chat_jid : String) → LedgerOp → ℕ → List LedgerRow → List LedgerRow
promised_after name chat (record_op jid content source names now) next rows =
    let row : LedgerRow = record {
      id = next;
      chat_jid = jid;
      content = content;
      timestamp = now;
      source = source;
    } in
    if distinct names
    then rows ++ (if (jid == chat) && contains name names then row ∷ [] else [])
    else rows
promised_after name chat (deliver_op id n) next rows =
    keep (λ r. not ((id == r.id) && (n == name))) rows
promised_after name chat (fail_op id n error) next rows = rows
promised_after name chat (collect_op cutoff) next rows = rows

unfoldable pub promised :
    (channel_name chat_jid : String) → List LedgerOp → ℕ → List LedgerRow → List LedgerRow
promised name chat [] next rows = rows
promised name chat (o ∷ os) next rows =
    promised name chat os (next_after o next) (promised_after name chat o next rows)

module _ (name chat : String) where
  pending-delivered :
      (id i : ℕ) (n : String) (ds : List DeliveryRow)
      → is_pending name (map (delivered_row id n) ds) i
        ≡ (not ((id == i) && (n == name)) && is_pending name ds i)
  pending-delivered id i n [] = ground arith
  pending-delivered id i n (d ∷ ds) = ground (
    arith,
    pending-delivered id i n ds,
    String-eq.equal_iff d.channel_name n,
    String-eq.equal_iff d.channel_name name,
    String-eq.equal_iff n name,
  )

  pending-failed :
      (id i : ℕ) (n error : String) (ds : List DeliveryRow)
      → is_pending name (map (failed_row id n error) ds) i ≡ is_pending name ds i
  pending-failed id i n error [] = refl
  pending-failed id i n error (d ∷ ds) = ground (arith, pending-failed id i n error ds)

  rows-delivered :
      (id : ℕ) (n : String) (ds : List DeliveryRow) (rows : List LedgerRow)
      → keep (λ r. (r.chat_jid == chat) && is_pending name (map (delivered_row id n) ds) r.id) rows
        ≡ keep
            (λ r. not ((id == r.id) && (n == name)))
            (keep (λ r. (r.chat_jid == chat) && is_pending name ds r.id) rows)
  rows-delivered id n ds [] = refl
  rows-delivered id n ds (r ∷ rows) =
      ground (arith, pending-delivered id r.id n ds, rows-delivered id n ds rows)

  rows-failed :
      (id : ℕ) (n error : String) (ds : List DeliveryRow) (rows : List LedgerRow)
      → keep
          (λ r. (r.chat_jid == chat) && is_pending name (map (failed_row id n error) ds) r.id)
          rows
        ≡ keep (λ r. (r.chat_jid == chat) && is_pending name ds r.id) rows
  rows-failed id n error ds [] = refl
  rows-failed id n error ds (r ∷ rows) =
      ground (arith, pending-failed id r.id n error ds, rows-failed id n error ds rows)

  has_pending-is_pending :
      (i : ℕ) (ds : List DeliveryRow) → is_pending name ds i ≡ true → has_pending ds i ≡ true
  has_pending-is_pending i [] h = cc
  has_pending-is_pending i (d ∷ ds) h = ground (arith, h, has_pending-is_pending i ds)

  -- What is pending is not collected.
  pending_stays :
      (cutoff : Text) (i : ℕ) (ds : List DeliveryRow) (rows : List LedgerRow)
      → has_pending ds i ≡ true
      → contains i (map (λ r. r.id) (keep (is_garbage cutoff ds) rows)) ≡ false
  pending_stays cutoff i ds [] h = refl
  pending_stays cutoff i ds (r ∷ rows) h = elim (Bool-cases (r.id == i)) [
    | inl y ↦
        let same : has_pending ds r.id ≡ true =
          ap (has_pending ds) ((ℕ-eq.equal_iff r.id i).0 y) ∙ h in
        ground (arith, y, same, pending_stays cutoff i ds rows h)
    | inr n ↦ ground (arith, n, pending_stays cutoff i ds rows h)
  ]

  pending-kept :
      (gone : List ℕ) (i : ℕ) (ds : List DeliveryRow)
      → is_pending name (keep (λ d. not (contains d.ledger_id gone)) ds) i
        ≡ (not (contains i gone) && is_pending name ds i)
  pending-kept gone i [] = ground arith
  pending-kept gone i (d ∷ ds) = elim (Bool-cases (d.ledger_id == i)) [
    | inl y ↦
        let same = ap (λ x. contains x gone) ((ℕ-eq.equal_iff d.ledger_id i).0 y) in
        ground (arith, y, same, pending-kept gone i ds)
    | inr n ↦ ground (arith, n, pending-kept gone i ds)
  ]

  rows-collected :
      (gone : List ℕ) (ds : List DeliveryRow) (rows : List LedgerRow)
      → ((i : ℕ) → is_pending name ds i ≡ true → contains i gone ≡ false)
      → keep
          (λ r.
            (r.chat_jid == chat)
            && is_pending name (keep (λ d. not (contains d.ledger_id gone)) ds) r.id)
          (keep (λ r. not (contains r.id gone)) rows)
        ≡ keep (λ r. (r.chat_jid == chat) && is_pending name ds r.id) rows
  rows-collected gone ds [] h = refl
  rows-collected gone ds (r ∷ rows) h =
      ground (arith, h r.id, pending-kept gone r.id ds, rows-collected gone ds rows h)

  step_exact :
      (o : LedgerOp) (l : Ledger)
      → IsLedger l
      → get_pending_outbound name chat (apply_op o l)
        ≡ promised_after name chat o l.next_id (get_pending_outbound name chat l)
  unfolding apply_op record_outbound mark_delivered mark_delivery_error gc_delivered
      get_pending_outbound
  step_exact (record_op jid content source names now) l v = elim (Bool-cases (distinct names)) [
    | inl y ↦ rw y (pending-recorded l jid content source names now name chat v)
    | inr n ↦ rw n refl
  ]
  step_exact (deliver_op id n) l v = rows-delivered id n l.deliveries l.rows
  step_exact (fail_op id n error) l v = rows-failed id n error l.deliveries l.rows
  step_exact (collect_op cutoff) l v =
      rows-collected _ l.deliveries l.rows (λ i h.
        pending_stays cutoff i l.deliveries l.rows (has_pending-is_pending i l.deliveries h))

  next_exact : (o : LedgerOp) (l : Ledger) → (apply_op o l).next_id ≡ next_after o l.next_id
  unfolding apply_op record_outbound mark_delivered mark_delivery_error gc_delivered
  next_exact (record_op jid content source names now) l = elim (Bool-cases (distinct names)) [
    | inl y ↦ rw y refl
    | inr n ↦ rw n refl
  ]
  next_exact (deliver_op id n) l = refl
  next_exact (fail_op id n error) l = refl
  next_exact (collect_op cutoff) l = refl

  from_exact :
      (os : List LedgerOp) (l : Ledger)
      → IsLedger l
      → get_pending_outbound name chat (apply_ops os l)
        ≡ promised name chat os l.next_id (get_pending_outbound name chat l)
  unfolding apply_ops promised
  from_exact [] l v = refl
  from_exact (o ∷ os) l v =
      from_exact os (apply_op o l) (apply_op-IsLedger o l v)
      ∙ ap (λ next. promised name chat os next (get_pending_outbound name chat (apply_op o l)))
          (next_exact o l)
      ∙ ap (promised name chat os (next_after o l.next_id)) (step_exact o l v)

  -- Whatever operations are applied to an empty ledger, what is pending for a channel and a chat is
  -- what the operations promise them: the messages recorded for both that were not delivered to the
  -- channel, in order. In particular no failure and no collection takes a message away.
  pub pending_promised :
      (os : List LedgerOp)
      → get_pending_outbound name chat (apply_ops os empty_ledger) ≡ promised name chat os 1 []
  unfolding get_pending_outbound
  pending_promised os =
      from_exact os empty_ledger
        (record { rows_known = refl; deliveries_known = refl; once = refl })
