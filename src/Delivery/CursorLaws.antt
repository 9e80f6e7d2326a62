-- ===== src/Delivery/CursorLaws.antt =====
-- How the cursors of channel_cursors.py move.
use pynchy.Base.{
  Bool, Bool-cases, Eq, List, Option, String, String-eq, Text, [], ap, arith, false, if_cases,
  if◌then◌else◌, inl, inr, keep, length, list-eq, lookup, lookup-insert, none, not, or_else,
  pair-eq, refl, some, sym, true, ℕ-eq, ◌+◌, ◌==◌, ◌||◌, ◌∙◌, ◌∷◌, ◌≡◌,
}
use pynchy.Delivery.Cursors.{
  Key, Table, text_lt, later, get_channel_cursor, merged, upsert, advance_cursors_atomic, is_active,
  no_names, prune_stale_cursors,
}

abbrev Key-eq : Eq Key
Key-eq = pair-eq

-- A call of `advance_cursors_atomic`.
pub record Advance : Type 0 where
  pub channel_name : String
  pub chat_jid : String
  pub inbound : Option Text
  pub outbound : Option Text

unfoldable pub advance_all : List Advance → Table → Table
unfolding advance_cursors_atomic
advance_all [] table = table
advance_all (a ∷ as') table =
    advance_all as' (advance_cursors_atomic a.channel_name a.chat_jid a.inbound a.outbound table)

-- The value that an upsert of `key` brings to `k`, no value being the empty text.
abbrev pub brings : Key → Option Text → Key → Text
brings key value k = if key == k then or_else value [] else []

-- The values that the calls bring to a cursor, in order.
abbrev pub values_for : Key → List Advance → List Text
values_for k [] = []
values_for k (a ∷ as') =
    brings ((a.channel_name, a.chat_jid), "inbound") a.inbound k
    ∷ brings ((a.channel_name, a.chat_jid), "outbound") a.outbound k
    ∷ values_for k as'

abbrev pub latest_of : Text → List Text → Text
latest_of t [] = t
latest_of t (v ∷ vs) = latest_of (later t v) vs

later-nil : (v : Text) → later [] v ≡ v
later-nil [] = refl
later-nil (c ∷ v) = refl

later_nothing : (t : Text) (b : Bool) → later t (if b then [] else []) ≡ t
later_nothing t true = refl
later_nothing t false = refl

merged-later : (o : Option Text) (v : Text) → merged o v ≡ later (or_else o []) v
merged-later none v = sym (later-nil v)
merged-later (some t) v = refl

get-upsert :
    (key k : Key) (value : Option Text) (table : Table)
    → get_channel_cursor k (upsert key value table)
      ≡ later (get_channel_cursor k table) (brings key value k)
unfolding get_channel_cursor upsert
get-upsert key k none table = sym (later_nothing _ (key == k))
get-upsert key k (some []) table = sym (later_nothing _ (key == k))
get-upsert key k (some (c ∷ v)) table =
    ap (λ o. or_else o []) (lookup-insert key k (merged (lookup key table) (c ∷ v)) table)
    ∙ elim (Bool-cases (key == k)) [
      | inl y ↦
          let same = (Key-eq.equal_iff key k).0 y in
          ap
            (λ b.
              or_else (if b then some (merged (lookup key table) (c ∷ v)) else lookup k table) [])
            y
          ∙ merged-later (lookup key table) (c ∷ v)
          ∙ ap (λ x. later (or_else (lookup x table) []) (c ∷ v)) same
          ∙ ap (λ b. later (or_else (lookup k table) []) (if b then c ∷ v else [])) (sym y)
      | inr n ↦
          ap
            (λ b.
              or_else (if b then some (merged (lookup key table) (c ∷ v)) else lookup k table) [])
            n
          ∙ ap (λ b. later (or_else (lookup k table) []) (if b then c ∷ v else [])) (sym n)
    ]

pub text_lt_asym : (a b : Text) → text_lt a b ≡ true → text_lt b a ≡ false
text_lt_asym a [] h = cc
text_lt_asym [] (d ∷ b) h = refl
text_lt_asym (c ∷ a) (d ∷ b) h = ground (arith, h, text_lt_asym a b)

pub text_lt_irrefl : (a : Text) → text_lt a a ≡ false
text_lt_irrefl [] = refl
text_lt_irrefl (c ∷ a) = ground (arith, text_lt_irrefl a)

pub text_lt_trans : (a b c : Text) → text_lt b a ≡ false → text_lt c b ≡ false → text_lt c a ≡ false
text_lt_trans [] b c h k = refl
text_lt_trans (x ∷ a) [] c h k = cc
text_lt_trans (x ∷ a) (y ∷ b) [] h k = cc
text_lt_trans (x ∷ a) (y ∷ b) (z ∷ c) h k = ground (arith, h, k, text_lt_trans a b c)

pub later-forward : (t v : Text) → text_lt (later t v) t ≡ false
later-forward t v = elim (Bool-cases (text_lt t v)) [
  | inl y ↦ ap (λ b. text_lt (if b then v else t) t) y ∙ text_lt_asym t v y
  | inr n ↦ ap (λ b. text_lt (if b then v else t) t) n ∙ text_lt_irrefl t
]

latest_of-forward : (t : Text) (vs : List Text) → text_lt (latest_of t vs) t ≡ false
latest_of-forward t [] = text_lt_irrefl t
latest_of-forward t (v ∷ vs) =
    text_lt_trans t (later t v) (latest_of (later t v) vs) (later-forward t v)
      (latest_of-forward (later t v) vs)

get-advance_all :
    (calls : List Advance) (k : Key) (table : Table)
    → get_channel_cursor k (advance_all calls table)
      ≡ latest_of (get_channel_cursor k table) (values_for k calls)
unfolding advance_all advance_cursors_atomic
get-advance_all [] k table = refl
get-advance_all (a ∷ calls) k table =
    let inbound : Key = ((a.channel_name, a.chat_jid), "inbound") in
    let outbound : Key = ((a.channel_name, a.chat_jid), "outbound") in
    let after = upsert inbound a.inbound table in
    get-advance_all calls k (upsert outbound a.outbound after)
    ∙ ap (λ t. latest_of t (values_for k calls))
        (get-upsert outbound k a.outbound after
          ∙ ap (λ t. later t (brings outbound a.outbound k)) (get-upsert inbound k a.inbound table))

-- After any calls that advance cursors, a cursor is the latest of what it was and of all the values
-- that the calls bring to it, so that it is not before what it was.
pub advance_all_exact :
    (calls : List Advance) (k : Key) (table : Table)
    → (get_channel_cursor k (advance_all calls table)
        ≡ latest_of (get_channel_cursor k table) (values_for k calls))
      × (text_lt (get_channel_cursor k (advance_all calls table)) (get_channel_cursor k table)
          ≡ false)
advance_all_exact calls k table =
    let e = get-advance_all calls k table in
    (
      e,
      ap (λ t. text_lt t (get_channel_cursor k table)) e
          ∙ latest_of-forward (get_channel_cursor k table) (values_for k calls),
    )

lookup-keep :
    (p : Key → Bool) (k : Key) (table : Table)
    → lookup k (keep (λ row. p row.0) table) ≡ (if p k then lookup k table else none)
unfolding lookup
lookup-keep p k [] = ground arith
lookup-keep p k ((j, v) ∷ table) = elim (Bool-cases (j == k)) [
  | inl y ↦
      let same : p j ≡ p k = ap p ((Key-eq.equal_iff j k).0 y) in
      ground (arith, y, same, lookup-keep p k table)
  | inr n ↦ ground (arith, n, lookup-keep p k table)
]

-- The cursors of the channels that are named stay as they are, those of all other channels are
-- gone, and every row that is gone is counted; without a name nothing changes.
pub prune_stale_cursors_exact :
    (names : List String) (table : Table)
    → let pruned = prune_stale_cursors names table in
      ((k : Key)
        → get_channel_cursor k pruned.0
          ≡ (if no_names names || is_active names k then get_channel_cursor k table else []))
      × (length pruned.0 + pruned.1 ≡ length table)
unfolding prune_stale_cursors get_channel_cursor
prune_stale_cursors_exact [] table = (λ k. refl, omega arith)
prune_stale_cursors_exact (n ∷ ns) table = (
  λ k.
      ap (λ o. or_else o []) (lookup-keep (is_active (n ∷ ns)) k table)
      ∙ if_cases
          (λ o. or_else o [] ≡ (if is_active (n ∷ ns) k then or_else (lookup k table) [] else []))
          (is_active (n ∷ ns) k) (λ y. ground (arith, y)) (λ m. ground (arith, m)),
  split_length (λ row. is_active (n ∷ ns) row.0) table,
)
  where
    split_length :
        (p : Key × Text → Bool) (rows : Table)
        → length (keep p rows) + length (keep (λ r. not (p r)) rows) ≡ length rows
    split_length p [] = refl
    split_length p (r ∷ rows) = ground (arith, split_length p rows)
