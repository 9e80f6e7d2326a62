-- ===== src/Chat/Meanwhile.antt =====
-- What happens to a chat while one of its turns waits for an agent.
use pynchy.Base.{
  Bool, List, String, String-eq, Text, [], any, ap, arith, false, last, lookup, or_else, refl, sym,
  true, ◌&&◌, ◌++◌, ◌==◌, ◌||◌, ◌∙◌, ◌∷◌, ◌≡◌,
}
use pynchy.Delivery.Fresh.{any-append}
use pynchy.Delivery.Cursors.{text_lt}
use pynchy.Delivery.CursorLaws.{text_lt_asym, text_lt_irrefl, text_lt_trans, later-forward}
use pynchy.Chat.Messages.{Message, Messages, is_row, is_since, store_message_direct}
use pynchy.Chat.CursorLaws.{cursor-set, others-set, last-since}
use pynchy.Chat.Pipeline.{
  Happening, stored, commanded, piped, Pipe, cursor_of, set_cursor, mark_dispatched, furthest,
  unseen, through_last, happen, happen_all,
}

abbrev is_command : Happening → Bool
is_command (stored m) = false
is_command commanded = true
is_command piped = false

abbrev pub has_command : List Happening → Bool
has_command hs = any is_command hs

-- Whether a message is stored under the id.
abbrev is_store : String → String → Happening → Bool
is_store id jid (stored m) = is_row id jid m
is_store id jid commanded = false
is_store id jid piped = false

abbrev pub stores : String → String → List Happening → Bool
stores id jid hs = any (is_store id jid) hs

-- The chat's message with the id, later than a time.
abbrev pub is_wanted : String → String → Text → Message → Bool
is_wanted id jid since n = is_since jid since n && is_row id jid n

-- How far a state may be from one before it, when these things have happened to the chat: no other
-- chat's cursor has moved, and the chat's own not back, nor at all without a command; and a message
-- is still there unless one was stored under its id.
pub record Goes (jid : String) (hs : List Happening) (p q : Pipe) : Type 0 where
  pub others :
      (other : String) → (jid == other) ≡ false → lookup other q.cursors ≡ lookup other p.cursors
  pub forward : text_lt (cursor_of jid q) (cursor_of jid p) ≡ false
  pub same : has_command hs ≡ false → cursor_of jid q ≡ cursor_of jid p
  pub kept :
      (id : String) (since : Text)
      → stores id jid hs ≡ false
      → any (is_wanted id jid since) p.messages ≡ true
      → any (is_wanted id jid since) q.messages ≡ true

pub Goes-same :
    (jid : String) (hs : List Happening) (p q : Pipe)
    → q.cursors ≡ p.cursors
    → q.messages ≡ p.messages
    → Goes jid hs p q
Goes-same jid hs p q c s =
    let cursor = ap (λ d. or_else (lookup jid d) []) c in
    record {
      others = λ other n. ap (lookup other) c;
      forward = ap (λ t. text_lt t (cursor_of jid p)) cursor ∙ text_lt_irrefl (cursor_of jid p);
      same = λ e. cursor;
      kept = λ id since e h. ap (any (is_wanted id jid since)) s ∙ h;
    }

left_false : (a b : Bool) → (a || b) ≡ false → (a ≡ false) × (b ≡ false)
left_false true b h = cc
left_false false b h = (refl, h)

pub Goes-trans :
    {jid : String} {hs ks : List Happening} {p q r : Pipe}
    → Goes jid hs p q
    → Goes jid ks q r
    → Goes jid (hs ++ ks) p r
Goes-trans {jid} {hs} {ks} {p} {q} {r} f g = record {
  others = λ other n. g.others other n ∙ f.others other n;
  forward = text_lt_trans (cursor_of jid p) (cursor_of jid q) (cursor_of jid r) f.forward g.forward;
  same = λ e.
      let both = left_false _ _ (sym (any-append is_command hs ks) ∙ e) in
      g.same both.1 ∙ f.same both.0;
  kept = λ id since e h.
      let both = left_false _ _ (sym (any-append (is_store id jid) hs ks) ∙ e) in
      g.kept id since both.1 (f.kept id since both.0 h);
}

store_kept :
    (id jid : String) (since : Text) (m : Message) (table : Messages)
    → is_row id jid m ≡ false
    → any (is_wanted id jid since) table ≡ true
    → any (is_wanted id jid since) (store_message_direct m table) ≡ true
unfolding store_message_direct
store_kept id jid since m [] other h = cc
store_kept id jid since m (n ∷ ns) other h = ground (
  arith,
  h,
  other,
  store_kept id jid since m ns other,
  (String-eq.equal_iff n.id id).0,
  (String-eq.equal_iff n.chat_jid jid).0,
  (String-eq.equal_iff n.id m.id).0,
  (String-eq.equal_iff n.chat_jid m.chat_jid).0,
  (String-eq.equal_iff m.id id).1,
  (String-eq.equal_iff m.chat_jid jid).1,
)

module _ (jid : String) (p : Pipe) where
  commanded-Goes :
      (ms : List Message)
      → unseen jid p ≡ ms
      → Goes jid (commanded ∷ []) p (through_last (λ t. set_cursor jid t p) p ms)
  commanded-Goes [] e = Goes-same jid (commanded ∷ []) p p refl refl
  commanded-Goes (m ∷ ms) e =
      let t = (last m ms).timestamp in
      let past = last-since jid (furthest jid p) p.messages m ms e in
      record {
        others = λ other n. others-set jid other t p n;
        forward =
            ap (λ x. text_lt x (cursor_of jid p)) (cursor-set jid t p)
            ∙ text_lt_trans (cursor_of jid p) (furthest jid p) t
                (later-forward (cursor_of jid p) (or_else (lookup jid p.dispatched) []))
                (text_lt_asym (furthest jid p) t past);
        same = λ h. absurd (ground (arith, h));
        kept = λ id since k h. h;
      }

  piped-Goes :
      (ms : List Message)
      → Goes jid (piped ∷ []) p (through_last (λ t. mark_dispatched jid t p) p ms)
  unfolding mark_dispatched
  piped-Goes [] = Goes-same jid (piped ∷ []) p p refl refl
  piped-Goes (m ∷ ms) = Goes-same jid (piped ∷ []) p _ refl refl

  happen-Goes : (h : Happening) → Goes jid (h ∷ []) p (happen jid h p)
  unfolding happen
  happen-Goes (stored m) = record {
    others = λ other n. refl;
    forward = text_lt_irrefl (cursor_of jid p);
    same = λ e. refl;
    kept = λ id since e h. store_kept id jid since m p.messages (ground (arith, e)) h;
  }
  happen-Goes commanded = commanded-Goes (unseen jid p) refl
  happen-Goes piped = piped-Goes (unseen jid p)

pub happen_all-Goes :
    (jid : String) (hs : List Happening) (p : Pipe) → Goes jid hs p (happen_all jid hs p)
unfolding happen_all
happen_all-Goes jid [] p = Goes-same jid [] p p refl refl
happen_all-Goes jid (h ∷ hs) p =
    Goes-trans (happen-Goes jid p h) (happen_all-Goes jid hs (happen jid h p))
