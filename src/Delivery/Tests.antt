-- ===== src/Delivery/Tests.antt =====
-- Tests of the cursors and of the ledger, and their theorems at concrete inputs.
use pynchy.Base.{
  List, Option, String, String-eq, [], codes, false, if◌then◌else◌, list-eq, map, none, pair-eq,
  refl, some, ℕ-eq, ◌++◌, ◌==◌, ◌∷◌, ◌≡◌,
}
use pynchy.Delivery.Cursors.{Key, Table, text_lt, get_channel_cursor, set_channel_cursor}
use pynchy.Delivery.CursorLaws.{Advance, advance_all, latest_of, values_for, advance_all_exact}
use pynchy.Delivery.Outbound.{
  LedgerRow, empty_ledger, record_outbound, get_pending_outbound, retry_outbound, gc_delivered,
}
use pynchy.Delivery.OutboundLaws.{unsent, retry_outbound_exact}
use pynchy.Delivery.Promised.{promised, pending_promised}
use pynchy.Delivery.LedgerLaws.{
  LedgerOp, record_op, deliver_op, fail_op, ledger_or, apply_ops, record_outbound_pending,
}

abbrev inbound : Key
inbound = (("slack", "c1"), "inbound")

abbrev table : Table
table = (inbound, codes "2026-01-02") ∷ ((("old", "c1"), "outbound"), codes "2025-01-01") ∷ []

abbrev calls : List Advance
calls =
    record {
      channel_name = "slack";
      chat_jid = "c1";
      inbound = some (codes "2026-03-01");
      outbound = none;
    }
    ∷ record {
      channel_name = "slack";
      chat_jid = "c1";
      inbound = some (codes "2026-02-01");
      outbound = some (codes "2026-02-01");
    }
    ∷ []

cursor_advanced : get_channel_cursor inbound (advance_all calls table) ≡ codes "2026-03-01"
unfolding advance_all get_channel_cursor
cursor_advanced = refl

cursor_set :
    get_channel_cursor inbound (set_channel_cursor inbound (codes "2020") table) ≡ codes "2020"
unfolding set_channel_cursor get_channel_cursor
cursor_set = refl

advance_all_exact_example :
    (get_channel_cursor inbound (advance_all calls table)
      ≡ latest_of (get_channel_cursor inbound table) (values_for inbound calls))
    × (text_lt
          (get_channel_cursor inbound (advance_all calls table))
          (get_channel_cursor inbound table)
        ≡ false)
advance_all_exact_example = advance_all_exact calls inbound table

abbrev saying : String → List LedgerOp → List LedgerOp
saying text ops = record_op "c1" text "agent" ("slack" ∷ "tui" ∷ []) (codes "2026-01-01") ∷ ops

abbrev ops : List LedgerOp
ops =
    saying "one"
      (saying "two" (saying "three" (deliver_op 1 "tui" ∷ fail_op 2 "slack" "down" ∷ [])))

-- The second message cannot be sent.
abbrev send : LedgerRow → Option String
send r = if r.content == "two" then some "down" else none

pending_contents :
    map (λ r. r.content) (get_pending_outbound "tui" "c1" (apply_ops ops empty_ledger))
    ≡ "two" ∷ "three" ∷ []
unfolding apply_ops get_pending_outbound
pending_contents = refl

retried_contents :
    let l = apply_ops ops empty_ledger in
    map
      (λ r. r.content)
      (get_pending_outbound "slack" "c1"
        (retry_outbound "slack" send (get_pending_outbound "slack" "c1" l) l []).0)
    ≡ "two" ∷ "three" ∷ []
unfolding apply_ops get_pending_outbound retry_outbound
retried_contents = refl

collected : (gc_delivered (codes "2027") (apply_ops ops empty_ledger)).1 ≡ 0
unfolding apply_ops gc_delivered
collected = refl

retry_outbound_exact_example :
    let l = apply_ops ops empty_ledger in
    let pending = get_pending_outbound "slack" "c1" l in
    get_pending_outbound "slack" "c1" (retry_outbound "slack" send pending l []).0
    ≡ unsent send pending
unfolding apply_ops
retry_outbound_exact_example =
    retry_outbound_exact "slack" "c1" send (apply_ops ops empty_ledger) [] refl

pending_promised_example :
    get_pending_outbound "tui" "c1" (apply_ops ops empty_ledger) ≡ promised "tui" "c1" ops 1 []
pending_promised_example = pending_promised "tui" "c1" ops

promised_contents : map (λ r. r.content) (promised "tui" "c1" ops 1 []) ≡ "two" ∷ "three" ∷ []
unfolding promised
promised_contents = refl

record_outbound_pending_example :
    let l = apply_ops ops empty_ledger in
    get_pending_outbound "slack" "c1"
      (ledger_or l (record_outbound "c1" "four" "agent" ("slack" ∷ []) [] l))
    ≡ get_pending_outbound "slack" "c1" l
      ++ record {
        id = l.next_id;
        chat_jid = "c1";
        content = "four";
        timestamp = [];
        source = "agent";
      }
        ∷ []
record_outbound_pending_example =
    record_outbound_pending ops "c1" "four" "agent" ("slack" ∷ []) [] "slack" "c1" refl
