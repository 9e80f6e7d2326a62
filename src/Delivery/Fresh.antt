-- ===== src/Delivery/Fresh.antt =====
-- The ledger's invariant, and the lemmas on ids that were not given before.
use mathlib.Core.List.{map-append}
use pynchy.Base.{
  Bool, List, String, String-eq, Text, [], all, any, ap, arith, contains, distinct, distinct_snoc,
  false, keep, list-eq, ltb, refl, suc, true, ℕ, ℕ-eq, ◌&&◌, ◌++◌, ◌||◌, ◌∙◌, ◌∷◌, ◌≡◌,
}
use pynchy.Delivery.Outbound.{LedgerRow, DeliveryRow, Ledger, deliveries_for, recorded, is_pending}
use pynchy.Delivery.OutboundLaws.{ids}

abbrev pub rows_below : ℕ → List LedgerRow → Bool
rows_below n rows = all (λ r. ltb r.id n) rows

abbrev pub deliveries_below : ℕ → List DeliveryRow → Bool
deliveries_below n ds = all (λ d. ltb d.ledger_id n) ds

-- Every id was given before the next one, and no two rows of the ledger share one.
pub record IsLedger (l : Ledger) : Type 0 where
  pub rows_known : rows_below l.next_id l.rows ≡ true
  pub deliveries_known : deliveries_below l.next_id l.deliveries ≡ true
  pub once : distinct (ids l.rows) ≡ true

module _ {ℓ} {A : Type ℓ} (p : A → Bool) where
  pub all-append : (xs ys : List A) → all p (xs ++ ys) ≡ (all p xs && all p ys)
  all-append [] ys = refl
  all-append (x ∷ xs) ys = ground (arith, all-append xs ys)

  pub any-append : (xs ys : List A) → any p (xs ++ ys) ≡ (any p xs || any p ys)
  any-append [] ys = refl
  any-append (x ∷ xs) ys = ground (arith, any-append xs ys)

  pub all-keep : (q : A → Bool) (xs : List A) → all p xs ≡ true → all p (keep q xs) ≡ true
  all-keep q [] h = refl
  all-keep q (x ∷ xs) h = ground (arith, h, all-keep q xs)

  pub keep-append : (xs ys : List A) → keep p (xs ++ ys) ≡ keep p xs ++ keep p ys
  keep-append [] ys = refl
  keep-append (x ∷ xs) ys = ground (arith, keep-append xs ys)

rows_below_next :
    (n : ℕ) (rows : List LedgerRow) → rows_below n rows ≡ true → rows_below (suc n) rows ≡ true
rows_below_next n [] h = refl
rows_below_next n (r ∷ rows) h = ground (arith, h, rows_below_next n rows)

deliveries_below_next :
    (n : ℕ) (ds : List DeliveryRow)
    → deliveries_below n ds ≡ true
    → deliveries_below (suc n) ds ≡ true
deliveries_below_next n [] h = refl
deliveries_below_next n (d ∷ ds) h = ground (arith, h, deliveries_below_next n ds)

deliveries_below_for :
    (n : ℕ) (names : List String) → deliveries_below (suc n) (deliveries_for n names) ≡ true
deliveries_below_for n [] = refl
deliveries_below_for n (x ∷ names) = ground (arith, deliveries_below_for n names)

fresh_id :
    (n : ℕ) (rows : List LedgerRow) → rows_below n rows ≡ true → contains n (ids rows) ≡ false
fresh_id n [] h = refl
fresh_id n (r ∷ rows) h = ground (arith, h, fresh_id n rows)

pub fresh_pending :
    (n : ℕ) (name : String) (ds : List DeliveryRow)
    → deliveries_below n ds ≡ true
    → is_pending name ds n ≡ false
fresh_pending n name [] h = refl
fresh_pending n name (d ∷ ds) h = ground (arith, h, fresh_pending n name ds)

pub pending_for :
    (n : ℕ) (name : String) (names : List String)
    → is_pending name (deliveries_for n names) n ≡ contains name names
pending_for n name [] = refl
pending_for n name (x ∷ names) = ground (arith, pending_for n name names)

pub pending_others :
    (n i : ℕ) (name : String) (names : List String)
    → ltb i n ≡ true
    → is_pending name (deliveries_for n names) i ≡ false
pending_others n i name [] h = refl
pending_others n i name (x ∷ names) h = ground (arith, h, pending_others n i name names)

pub recorded-IsLedger :
    (jid content source : String) (names : List String) (now : Text) (l : Ledger)
    → IsLedger l
    → IsLedger (recorded jid content source names now l)
recorded-IsLedger jid content source names now l v = record {
  rows_known =
      let old = rows_below_next l.next_id l.rows v.rows_known in
      all-append (λ r. ltb r.id (suc l.next_id)) l.rows _ ∙ ground (arith, old);
  deliveries_known =
      let old = deliveries_below_next l.next_id l.deliveries v.deliveries_known in
      all-append (λ d. ltb d.ledger_id (suc l.next_id)) l.deliveries _
      ∙ ground (arith, old, deliveries_below_for l.next_id names);
  once =
      ap distinct (map-append (λ r. r.id) l.rows _)
      ∙ distinct_snoc l.next_id (ids l.rows) v.once (fresh_id l.next_id l.rows v.rows_known);
}
