-- ===== src/Chat/PipelineLaws.antt =====
-- What a chat's turn does to its cursor.
use pynchy.Base.{
  Bool, List, Option, String, String-eq, Text, all, any, any-keep, any-sort_by, ap, arith, false,
  if_cases, keep, last, list-eq, lookup, none, not, refl, some, sym, true, ℕ-eq, ◌&&◌, ◌++◌, ◌==◌,
  ◌||◌, ◌∙◌, ◌∷◌, ◌≡◌,
}
use pynchy.Delivery.Fresh.{any-append}
use pynchy.Delivery.Cursors.{text_lt}
use pynchy.Delivery.CursorLaws.{text_lt_asym, text_lt_trans, text_lt_irrefl}
use pynchy.Security.Classify.{Unicode}
use pynchy.Chat.Messages.{is_row, Message, by_time, is_since, get_messages_since}
use pynchy.Chat.MessageLaws.{since-last}
use pynchy.Chat.Commands.{
  is_pending_query, is_approval_command, is_redeploy, is_end_session, is_context_reset, Words,
}
use pynchy.Chat.Pipeline.{
  after_bang, other_command, Turn, Pipe, Effect, Outcome, returned, raises, cursor_of, set_cursor,
  was_sent, with_effects, special_command,
}
use pynchy.Chat.CursorLaws.{cursor-set, others-set, all_until, last-since}
use pynchy.Chat.Meanwhile.{Goes, has_command, stores, is_wanted}

-- Whether the agent was run on messages.
abbrev pub is_run : Effect → Bool
is_run (Effect.run_agent ms) = true
is_run Effect.context_reset = false
is_run Effect.end_session = false
is_run Effect.redeploy = false
is_run (Effect.approval a i) = false
is_run Effect.pending_query = false
is_run (Effect.direct_command c) = false
is_run (Effect.run_handoff t) = false
is_run Effect.write_dirty_check = false
is_run Effect.error_notice = false
is_run Effect.merge_worktree = false

abbrev pub has_run : List Effect → Bool
has_run es = any is_run es

-- The messages that wait when the turn begins.
abbrev pub waiting : String → Pipe → List Message
waiting jid p = get_messages_since jid (cursor_of jid p) p.messages

-- What a turn makes of its chat, from the state `p` in which it reads the messages: no other chat's
-- cursor moves, and its own not back. If the turn is to be tried again, the agent, if it was run,
-- has sent no output, and unless a command was taken meanwhile each message that waited waits again
-- which no message stored meanwhile has replaced. If it is done and the agent was run, none of the
-- messages waits any more.
pub record IsFair (turn : Turn) (jid : String) (p : Pipe) (r : Pipe × List Effect × Outcome)
    : Type 0 where
  pub others :
      (other : String) → (jid == other) ≡ false → lookup other r.0.cursors ≡ lookup other p.cursors
  pub forward : text_lt (cursor_of jid r.0) (cursor_of jid p) ≡ false
  pub unsent : r.2 ≡ returned false → (has_run r.1 && was_sent turn) ≡ false
  pub again :
      r.2 ≡ returned false
      → has_command turn.during ≡ false
      → (id : String) → stores id jid turn.during ≡ false
      → any (is_row id jid) (waiting jid p) ≡ true
      → any (is_row id jid) (waiting jid r.0) ≡ true
  pub answered :
      r.2 ≡ returned true
      → has_run r.1 ≡ true
      → all (λ n. not (text_lt (cursor_of jid r.0) n.timestamp)) (waiting jid p) ≡ true

-- Nothing has moved, and the agent was not run.
pub still-IsFair :
    (turn : Turn) (jid : String) (p : Pipe) (es : List Effect) (o : Outcome)
    → has_run es ≡ false
    → IsFair turn jid p (p, es, o)
still-IsFair turn jid p es o h = record {
  others = λ other n. refl;
  forward = text_lt_irrefl (cursor_of jid p);
  unsent = λ e. ap (λ b. b && was_sent turn) h;
  again = λ e c id s k. k;
  answered = λ e k. absurd (ground (arith, h, k));
}

-- Effects in front that do not run the agent change nothing.
pub with_effects-IsFair :
    (turn : Turn) (jid : String) (p : Pipe) (es : List Effect) (r : Pipe × List Effect × Outcome)
    → has_run es ≡ false
    → IsFair turn jid p r
    → IsFair turn jid p (with_effects es r)
with_effects-IsFair turn jid p es r h f =
    let same : has_run (es ++ r.1) ≡ has_run r.1 =
      any-append is_run es r.1 ∙ ap (λ b. b || has_run r.1) h in
    record {
      others = f.others;
      forward = f.forward;
      unsent = λ e. ap (λ b. b && was_sent turn) same ∙ f.unsent e;
      again = f.again;
      answered = λ e k. f.answered e (sym same ∙ k);
    }

abbrev pub runs : Option Effect → Bool
runs none = false
runs (some e) = is_run e

other_command-quiet :
    (a : Option (Text × Text)) (pending : Bool) (bang : Option Text)
    → runs (other_command a pending bang) ≡ false
other_command-quiet (some (a, i)) pending bang = refl
other_command-quiet none true bang = refl
other_command-quiet none false none = refl
other_command-quiet none false (some c) = refl

pub special_command-quiet :
    (u : Unicode) (w : Words) (content : Text) → runs (special_command u w content) ≡ false
unfolding special_command
special_command-quiet u w content =
    if_cases (λ o. runs o ≡ false) (is_context_reset u w content) (λ y. refl)
      (λ n.
        if_cases (λ o. runs o ≡ false) (is_end_session u w content) (λ y. refl)
          (λ n.
            if_cases (λ o. runs o ≡ false) (is_redeploy u w content) (λ y. refl)
              (λ n.
                other_command-quiet (is_approval_command u w content) (is_pending_query u w content)
                  (after_bang content))))

-- The move to a time after the chat's cursor.
pub moved-IsFair :
    (turn : Turn) (jid : String) (t : Text) (p : Pipe) (es : List Effect) (o : Outcome)
    → text_lt (cursor_of jid p) t ≡ true
    → has_run es ≡ false
    → o ≡ returned true
    → IsFair turn jid p (set_cursor jid t p, es, o)
moved-IsFair turn jid t p es o h k e = record {
  others = λ other n. others-set jid other t p n;
  forward =
      ap (λ x. text_lt x (cursor_of jid p)) (cursor-set jid t p)
      ∙ text_lt_asym (cursor_of jid p) t h;
  unsent = λ f. absurd (ground (arith, e, f));
  again = λ f. absurd (ground (arith, e, f));
  answered = λ f g. absurd (ground (arith, g, k));
}

-- The messages that wait are found in the table.
any-waiting :
    (id jid : String) (p : Pipe)
    → any (is_row id jid) (waiting jid p) ≡ any (is_wanted id jid (cursor_of jid p)) p.messages
unfolding get_messages_since
any-waiting id jid p =
    any-sort_by by_time (is_row id jid) (keep (is_since jid (cursor_of jid p)) p.messages)
    ∙ any-keep (is_row id jid) (is_since jid (cursor_of jid p)) p.messages

-- A run that is over: `q` is the state in which it is over.
module _ (turn : Turn) (jid : String) (p q : Pipe) (m : Message) (ms : List Message)
    (es : List Effect) (goes : Goes jid turn.during p q) (waits : waiting jid p ≡ m ∷ ms) where
  last_since : text_lt (cursor_of jid p) (last m ms).timestamp ≡ true
  last_since = last-since jid (cursor_of jid p) p.messages m ms waits

  pub raised-IsFair : IsFair turn jid p (q, es, raises)
  raised-IsFair = record {
    others = goes.others;
    forward = goes.forward;
    unsent = λ e. absurd (ground (arith, e));
    again = λ e. absurd (ground (arith, e));
    answered = λ e k. absurd (ground (arith, e));
  }

  pub again-IsFair : was_sent turn ≡ false → IsFair turn jid p (q, es, returned false)
  again-IsFair unsent = record {
    others = goes.others;
    forward = goes.forward;
    unsent = λ e. ground (arith, unsent);
    again = λ e c id s k.
        let there = goes.kept id (cursor_of jid p) s (sym (any-waiting id jid p) ∙ k) in
        any-waiting id jid q ∙ ap (λ t. any (is_wanted id jid t) q.messages) (goes.same c) ∙ there;
    answered = λ e k. absurd (ground (arith, e));
  }

  pub undone-IsFair : IsFair turn jid p (set_cursor jid (cursor_of jid p) q, es, raises)
  undone-IsFair = record {
    others = λ other n. others-set jid other (cursor_of jid p) q n ∙ goes.others other n;
    forward =
        ap (λ t. text_lt t (cursor_of jid p)) (cursor-set jid (cursor_of jid p) q)
        ∙ text_lt_irrefl (cursor_of jid p);
    unsent = λ e. absurd (ground (arith, e));
    again = λ e. absurd (ground (arith, e));
    answered = λ e k. absurd (ground (arith, e));
  }

  pub done-IsFair :
      (t : Text)
      → text_lt t (last m ms).timestamp ≡ false
      → IsFair turn jid p (set_cursor jid t q, es, returned true)
  done-IsFair t h = record {
    others = λ other n. others-set jid other t q n ∙ goes.others other n;
    forward =
        ap (λ x. text_lt x (cursor_of jid p)) (cursor-set jid t q)
        ∙ text_lt_trans (cursor_of jid p) (last m ms).timestamp t
            (text_lt_asym (cursor_of jid p) (last m ms).timestamp last_since) h;
    unsent = λ e. absurd (ground (arith, e));
    again = λ e. absurd (ground (arith, e));
    answered = λ e k.
        ap (λ x. all (λ n. not (text_lt x n.timestamp)) (waiting jid p)) (cursor-set jid t q)
        ∙ ap (all (λ n. not (text_lt t n.timestamp))) waits
        ∙ all_until m ms t (m ∷ ms) h (since-last jid (cursor_of jid p) p.messages m ms waits);
  }
