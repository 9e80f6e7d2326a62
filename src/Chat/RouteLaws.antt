-- ===== src/Chat/RouteLaws.antt =====
-- inbound.py: the routing of one chat's messages, branch by branch.
use pynchy.Base.{
  Bool, List, Option, String, String-eq, Text, [], all, any, arith, codes, drop, false, if_cases,
  last, none, not, refl, some, strip, true, ◌&&◌, ◌==◌, ◌||◌, ◌∷◌, ◌≡◌,
}
use pynchy.Queue.State.{GroupQueue}
use pynchy.Queue.State.{Settings as QueueSettings}
use pynchy.Queue.Invariant.{IsValid, IsQuiet-IsValid}
use pynchy.Queue.Quiet.{clear_pending_tasks-IsQuiet, send_message-IsQuiet}
use pynchy.Queue.Containers.{is_active_task, send_message}
use pynchy.Security.Classify.{Unicode}
use pynchy.Config.Access.{Settings, resolve_channel_config}
use pynchy.Chat.Messages.{Message}
use pynchy.Chat.Commands.{Words, is_any_magic_command}
use pynchy.Chat.Pipeline.{
  unseen, Group, Pipe, Effect, intercepted, intercept_special_command, special_command, is_text,
  triggered,
}
use pynchy.Chat.Inbound.{
  interrupt, add_todo, shown, forwarded, starts_with, todo_notice, command, channel_of, formatted,
  handle_message_during_task, after_command, route_kept, to_container, kept_messages,
  route_to_agent, route_pending, Env, skipped, raised, route_incoming_group,
}
use pynchy.Chat.Routed.{
  IsRouted, active-IsValid, stay-IsRouted, enqueued-IsRouted, commanded-IsRouted, piped-IsRouted,
}

module _ (cfg : QueueSettings) (jid : String) (p : Pipe) (q : GroupQueue) where
  module _ (m : Message) (ms : List Message) (waits : unseen jid p ≡ m ∷ ms) (u : Unicode)
      (env : Env) (g : Group) where
    during-IsRouted :
        (r : GroupQueue) (text : String) (content : Text)
        → (IsValid cfg q → IsValid cfg r)
        → IsRouted cfg jid p q (handle_message_during_task u cfg env jid g text content p r)
    unfolding handle_message_during_task
    during-IsRouted r text content v =
        let item = drop 5 content in
        let notice = todo_notice (env.text_of item) in
        if_cases (IsRouted cfg jid p q) (starts_with u "btw " content)
          (λ btw.
            enqueued-IsRouted cfg jid p q _ (forwarded (shown content) ∷ [])
              (λ x. IsQuiet-IsValid (send_message-IsQuiet (env.written jid) jid r text) (v x)))
          (λ n.
            if_cases (IsRouted cfg jid p q) (starts_with u "todo " content)
              (λ todo.
                enqueued-IsRouted cfg jid p q _ (add_todo g.folder item ∷ []) (λ x.
                  IsQuiet-IsValid (send_message-IsQuiet (env.written jid) jid r notice) (v x)))
              (λ n.
                enqueued-IsRouted cfg jid p q _ (interrupt ∷ [])
                  (λ x. IsQuiet-IsValid (clear_pending_tasks-IsQuiet jid r) (v x))))

    to_container-IsRouted :
        (sent : GroupQueue × Bool) (content : Text)
        → (IsValid cfg q → IsValid cfg sent.0)
        → IsRouted cfg jid p q (to_container u cfg jid content (last m ms).timestamp p sent)
    to_container-IsRouted (r, false) content v = enqueued-IsRouted cfg jid p q r [] v
    to_container-IsRouted (r, true) content v =
        if_cases (IsRouted cfg jid p q) (starts_with u "btw " content)
          (λ btw. enqueued-IsRouted cfg jid p q r (forwarded (shown content) ∷ []) v)
          (λ n. piped-IsRouted cfg jid p q m ms waits r [] v)

    route_to_agent-IsRouted :
        (r : GroupQueue)
        → (IsValid cfg q → IsValid cfg r)
        → IsRouted cfg jid p q (route_to_agent u cfg env jid g m ms p r)
    unfolding route_to_agent
    route_to_agent-IsRouted r v =
        let content = strip (last m ms).content in
        let text = formatted env.text_of (m ∷ ms) in
        let active = is_active_task jid r in
        let w : IsValid cfg q → IsValid cfg active.0 = λ x. active-IsValid jid r (v x) in
        if_cases (IsRouted cfg jid p q) active.1 (λ task. during-IsRouted active.0 text content w)
          (λ n.
            to_container-IsRouted (send_message (env.written jid) jid text active.0) content (λ x.
              IsQuiet-IsValid (send_message-IsQuiet (env.written jid) jid active.0 text) (w x)))

    after_command-IsRouted :
        (r : GroupQueue) (o : Option Effect)
        → (IsValid cfg q → IsValid cfg r)
        → IsRouted cfg jid p q
            (after_command u cfg env jid g m ms r (intercepted jid (last m ms) p o))
    after_command-IsRouted r none v = route_to_agent-IsRouted r v
    after_command-IsRouted r (some e) v =
        commanded-IsRouted cfg jid p q m ms waits r (command e ∷ []) v

  module _ (u : Unicode) (w : Words) (s : Settings) (env : Env) (g : Group) where
    pending-IsRouted :
        (ms : List Message)
        → unseen jid p ≡ ms
        → IsRouted cfg jid p q (route_pending u w cfg env jid g p q ms)
    unfolding intercept_special_command
    pending-IsRouted [] e =
        stay-IsRouted cfg jid p q q [] skipped (λ x. x) refl (λ k. absurd (ground (arith, k)))
    pending-IsRouted (m ∷ ms) e =
        let active = is_active_task jid q in
        if_cases (IsRouted cfg jid p q)
          (not active.1 && all (λ n. n.sender == "system_notice") (m ∷ ms))
          (λ y.
            stay-IsRouted cfg jid p q active.0 [] skipped (λ x. active-IsValid jid q x) refl
              (λ k. absurd (ground (arith, k))))
          (λ n.
            after_command-IsRouted m ms e u env g active.0
              (special_command u w (strip (last m ms).content)) (λ x. active-IsValid jid q x))

    kept-IsRouted :
        (needs : Bool) (o : Option (List Message))
        → IsRouted cfg jid p q (route_kept u w cfg env jid g needs p q o)
    kept-IsRouted needs none =
        stay-IsRouted cfg jid p q q [] raised (λ x. x) refl (λ k. absurd (ground (arith, k)))
    kept-IsRouted needs (some []) =
        stay-IsRouted cfg jid p q q [] skipped (λ x. x) refl (λ k. absurd (ground (arith, k)))
    kept-IsRouted needs (some (n ∷ ns)) =
        if_cases (IsRouted cfg jid p q)
          ((needs && not (any (triggered u w) (n ∷ ns)))
            && not (is_any_magic_command u w (strip (last n ns).content)))
          (λ y.
            stay-IsRouted cfg jid p q q [] skipped (λ x. x) refl (λ k. absurd (ground (arith, k))))
          (λ y. pending-IsRouted (unseen jid p) refl)

    pub route_incoming_group-IsRouted :
        (ms : List Message) → IsRouted cfg jid p q (route_incoming_group u w s cfg env jid g ms p q)
    unfolding route_incoming_group
    route_incoming_group-IsRouted ms =
        let resolved = resolve_channel_config s (codes g.folder) in
        if_cases (IsRouted cfg jid p q)
          (is_text resolved.access "read" || is_text resolved.access "write")
          (λ y.
            stay-IsRouted cfg jid p q q [] skipped (λ x. x) refl (λ k. absurd (ground (arith, k))))
          (λ n.
            kept-IsRouted (not g.is_admin && is_text resolved.trigger "mention")
              (kept_messages s g (channel_of jid env.channels) ms))
