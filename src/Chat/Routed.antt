-- ===== src/Chat/Routed.antt =====
-- What the routing of a chat's messages may leave behind.
use pynchy.Base.{
  Bool, Bool-cases, List, String, String-eq, Text, [], all, any, ap, arith, equal_refl, false,
  if_cases, if◌then◌else◌, inl, inr, insert, last, leb, lookup, lookup-insert, not, or_else, refl,
  some, true, ◌++◌, ◌==◌, ◌||◌, ◌∙◌, ◌∷◌, ◌≡◌,
}
use pynchy.Delivery.Cursors.{text_lt, later}
use pynchy.Delivery.CursorLaws.{text_lt_asym, text_lt_irrefl, text_lt_trans, later-forward}
use pynchy.Queue.State.{GroupQueue, Run, run_for_group, run_task, group, group-insert}
use pynchy.Queue.State.{Settings as QueueSettings}
use pynchy.Queue.Enqueue.{enqueue_message_check}
use pynchy.Queue.Invariant.{IsValid, IsQuiet-IsValid}
use pynchy.Queue.Preserve.{enqueue_message_check-IsValid}
use pynchy.Queue.Quiet.{get_group-IsQuiet}
use pynchy.Queue.Containers.{is_active_task}
use pynchy.Chat.Messages.{Message}
use pynchy.Chat.MessageLaws.{since-last}
use pynchy.Chat.CursorLaws.{cursor-set, others-set, all_until, last-since}
use pynchy.Delivery.Fresh.{any-append}
use pynchy.Chat.Pipeline.{unseen, furthest, Pipe, cursor_of, set_cursor, mark_dispatched}
use pynchy.Chat.Inbound.{Routed, skipped, raised, commanded, piped, queued, Sent, Way, way}

-- The queue is to run the chat's messages, or is shutting down.
abbrev is_message_run : String → Run → Bool
is_message_run g (run_for_group h) = h == g
is_message_run g (run_task h t) = false

abbrev pub is_awaited : String → GroupQueue → Bool
is_awaited g q =
    q.shutting_down || ((group q.groups g).pending_messages || any (is_message_run g) q.runs)

abbrev pub is_reached : Routed → Bool
is_reached skipped = false
is_reached raised = false
is_reached commanded = true
is_reached piped = true
is_reached queued = false

abbrev pub is_queued : Routed → Bool
is_queued skipped = false
is_queued raised = false
is_queued commanded = false
is_queued piped = false
is_queued queued = true

pub record IsRouted (cfg : QueueSettings) (jid : String) (p : Pipe) (q : GroupQueue) (r : Way)
    : Type 0 where
  pub valid : IsValid cfg q → IsValid cfg r.queue
  pub others :
      (other : String)
      → (jid == other) ≡ false
      → (lookup other r.pipe.cursors ≡ lookup other p.cursors)
        × (lookup other r.pipe.dispatched ≡ lookup other p.dispatched)
  pub forward : text_lt (furthest jid r.pipe) (furthest jid p) ≡ false
  pub kept : is_reached r.routed ≡ false → r.pipe ≡ p
  pub reached :
      is_reached r.routed ≡ true
      → all (λ n. not (text_lt (furthest jid r.pipe) n.timestamp)) (unseen jid p) ≡ true
  pub noted : is_queued r.routed ≡ true → is_awaited jid r.queue ≡ true

pub later-reaches : (t v : Text) → text_lt (later t v) v ≡ false
later-reaches t v = elim (Bool-cases (text_lt t v)) [
  | inl y ↦ ap (λ b. text_lt (if b then v else t) v) y ∙ text_lt_irrefl v
  | inr n ↦ ap (λ b. text_lt (if b then v else t) v) n ∙ n
]

module _ (cfg : QueueSettings) (g : String) (q : GroupQueue) where
  enqueue_message_check-is_awaited : is_awaited g (enqueue_message_check cfg g q) ≡ true
  unfolding enqueue_message_check
  enqueue_message_check-is_awaited =
      let s = group q.groups g in
      let here : (group (insert g (record s { pending_messages = true }) q.groups)
            g).pending_messages
          ≡ true =
        ap (λ x. x.pending_messages) (group-insert g g _ q.groups) ∙ rw (equal_refl g) refl in
      if_cases (λ r. is_awaited g r ≡ true) q.shutting_down (λ down. ground (arith, down))
        (λ up.
          if_cases (λ r. is_awaited g r ≡ true) s.active (λ on. ground (arith, here))
            (λ off.
              if_cases (λ r. is_awaited g r ≡ true) (leb cfg.max_concurrent q.active_count)
                (λ full. ground (arith, here))
                (λ room.
                  let runs : any (is_message_run g) (q.runs ++ run_for_group g ∷ []) ≡ true =
                    any-append (is_message_run g) q.runs (run_for_group g ∷ [])
                    ∙ ground (arith, equal_refl g) in
                  ground (arith, runs))))

pub active-IsValid :
    {cfg : QueueSettings} (g : String) (q : GroupQueue)
    → IsValid cfg q
    → IsValid cfg (is_active_task g q).0
unfolding is_active_task
active-IsValid g q v = IsQuiet-IsValid (get_group-IsQuiet q g) v

module _ (cfg : QueueSettings) (jid : String) (p : Pipe) (q : GroupQueue) where
  -- The chat's cursors are as they were.
  pub stay-IsRouted :
      (r : GroupQueue) (es : List Sent) (o : Routed)
      → (IsValid cfg q → IsValid cfg r)
      → is_reached o ≡ false
      → (is_queued o ≡ true → is_awaited jid r ≡ true)
      → IsRouted cfg jid p q (way p r es o)
  stay-IsRouted r es o v h k = record {
    valid = v;
    others = λ other n. (refl, refl);
    forward = text_lt_irrefl (furthest jid p);
    kept = λ e. refl;
    reached = λ e. absurd (ground (arith, h, e));
    noted = k;
  }

  pub enqueued-IsRouted :
      (r : GroupQueue) (es : List Sent)
      → (IsValid cfg q → IsValid cfg r)
      → IsRouted cfg jid p q (way p (enqueue_message_check cfg jid r) es queued)
  enqueued-IsRouted r es v =
      stay-IsRouted (enqueue_message_check cfg jid r) es queued
        (λ x. enqueue_message_check-IsValid cfg jid r (v x)) refl
        (λ e. enqueue_message_check-is_awaited cfg jid r)

  -- The chat's furthest time is not before the last of its messages.
  module _ (m : Message) (ms : List Message) (waits : unseen jid p ≡ m ∷ ms) where
    reach-IsRouted :
        (p' : Pipe) (r : GroupQueue) (es : List Sent) (o : Routed)
        → (IsValid cfg q → IsValid cfg r)
        → ((other : String)
            → (jid == other) ≡ false
            → (lookup other p'.cursors ≡ lookup other p.cursors)
              × (lookup other p'.dispatched ≡ lookup other p.dispatched))
        → text_lt (furthest jid p') (last m ms).timestamp ≡ false
        → is_reached o ≡ true
        → is_queued o ≡ false
        → IsRouted cfg jid p q (way p' r es o)
    reach-IsRouted p' r es o v others h k n = record {
      valid = v;
      others = others;
      forward =
          text_lt_trans (furthest jid p) (last m ms).timestamp (furthest jid p')
            (text_lt_asym (furthest jid p) (last m ms).timestamp
              (last-since jid (furthest jid p) p.messages m ms waits))
            h;
      kept = λ e. absurd (ground (arith, k, e));
      reached = λ e.
          ap (all (λ n. not (text_lt (furthest jid p') n.timestamp))) waits
          ∙ all_until m ms (furthest jid p') (m ∷ ms) h
              (since-last jid (furthest jid p) p.messages m ms waits);
      noted = λ e. absurd (ground (arith, n, e));
    }

    -- A command moves the cursor to the last message.
    pub commanded-IsRouted :
        (r : GroupQueue) (es : List Sent)
        → (IsValid cfg q → IsValid cfg r)
        → IsRouted cfg jid p q (way (set_cursor jid (last m ms).timestamp p) r es commanded)
    commanded-IsRouted r es v =
        let t = (last m ms).timestamp in
        let given = or_else (lookup jid p.dispatched) [] in
        reach-IsRouted (set_cursor jid t p) r es commanded v
          (λ other n. (others-set jid other t p n, refl))
          (ap (λ x. text_lt (later x given) t) (cursor-set jid t p) ∙ later-forward t given) refl
          refl

    -- Messages in a container's hands are marked.
    pub piped-IsRouted :
        (r : GroupQueue) (es : List Sent)
        → (IsValid cfg q → IsValid cfg r)
        → IsRouted cfg jid p q (way (mark_dispatched jid (last m ms).timestamp p) r es piped)
    unfolding mark_dispatched
    piped-IsRouted r es v =
        let t = (last m ms).timestamp in
        let found : lookup jid (mark_dispatched jid t p).dispatched ≡ some t =
          lookup-insert jid jid t p.dispatched ∙ rw (equal_refl jid) refl in
        let same : or_else (lookup jid (mark_dispatched jid t p).dispatched) [] ≡ t =
          ap (λ o. or_else o []) found in
        reach-IsRouted (mark_dispatched jid t p) r es piped v
          (λ other n. (refl, lookup-insert jid other t p.dispatched ∙ rw n refl))
          (ap (λ x. text_lt (later (cursor_of jid p) x) t) same ∙ later-reaches (cursor_of jid p) t)
          refl refl
