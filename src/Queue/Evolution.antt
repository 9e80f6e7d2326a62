-- ===== src/Queue/Evolution.antt =====
-- The operations of concurrency.py as moves of a group's protocol.
use pynchy.Base.{
  Bool, List, String, String-eq, [], any, arith, contains, false, if_cases, leb, ltb, refl, true, ℕ,
  ◌+◌, ◌<◌, ◌==◌, ◌∷◌, ◌≡◌,
}
use pynchy.Queue.State.{QueuedTask, GroupQueue, Settings, group, group-get_group}
use pynchy.Queue.Start.{
  start_task, pop_waiting, start_next_pending, drain_waiting_loop, drain_waiting, drain_rest,
  drain_group,
}
use pynchy.Queue.Enqueue.{enqueue_message_check, enqueue_task}
use pynchy.Queue.Finish.{
  Outcome, answered, denied, raised, cancelled, schedule_retry, after_messages, settle,
}
use pynchy.Queue.Invariant.{is_active, IsOpen, Served, ServedBut}
use pynchy.Queue.Slots.{
  IsStarted, start_next_pending-IsStarted, pop_waiting-IsOpen, pop_waiting-ServedBut,
}
use pynchy.Queue.Protocol.{
  note_messages, note_task, begin_messages, drain_messages, begin_task, drain_task, count_retry,
  reset_retry, Evolves, Evolves-trans, Evolves-refl, Evolves-same, Evolves-insert,
}

abbrev EvolvesTo : Settings → GroupQueue → GroupQueue → Type 0
EvolvesTo cfg q q' = Evolves cfg q.groups q'.groups

module _ (cfg : Settings) (g : String) (q : GroupQueue) where
  pub enqueue_message_check-Evolves : Evolves cfg q.groups (enqueue_message_check cfg g q).groups
  unfolding enqueue_message_check
  enqueue_message_check-Evolves =
      if_cases (EvolvesTo cfg q) (q.shutting_down) (λ down. (Evolves-refl cfg q.groups))
        (λ up.
          (if_cases (EvolvesTo cfg q) ((is_active q g))
            (λ on. (Evolves-insert cfg q.groups g _ (note_messages refl)))
            (λ off.
              (if_cases (EvolvesTo cfg q) ((leb cfg.max_concurrent q.active_count))
                (λ full. (Evolves-insert cfg q.groups g _ (note_messages refl)))
                (λ room. (Evolves-insert cfg q.groups g _ (begin_messages off refl)))))))

  pub enqueue_task-Evolves :
      (id : String) (fn : ℕ) → Evolves cfg q.groups (enqueue_task cfg g id fn q).groups
  unfolding enqueue_task
  enqueue_task-Evolves id fn =
      if_cases (EvolvesTo cfg q) (q.shutting_down) (λ down. (Evolves-refl cfg q.groups))
        (λ up.
          (if_cases (EvolvesTo cfg q) ((any (λ t. t.id == id) (group q.groups g).pending_tasks))
            (λ twice. (Evolves-same cfg q.groups _ (group-get_group q g)))
            (λ once.
              (if_cases (EvolvesTo cfg q) ((is_active q g))
                (λ on. (Evolves-insert cfg q.groups g _ (note_task _ once refl)))
                (λ off.
                  (if_cases (EvolvesTo cfg q) ((leb cfg.max_concurrent q.active_count))
                    (λ full. (Evolves-insert cfg q.groups g _ (note_task _ once refl)))
                    (λ room. (Evolves-insert cfg q.groups g _ (begin_task off refl)))))))))

  start_task-Evolves :
      is_active q g ≡ false
      → (group q.groups g).pending_messages ≡ false
      → (ts : List QueuedTask) → (group q.groups g).pending_tasks ≡ ts
      → Evolves cfg q.groups (start_task g (group q.groups g) ts q).0.groups
  unfolding start_task
  start_task-Evolves idle quiet [] e = Evolves-same cfg q.groups _ (group-get_group q g)
  start_task-Evolves idle quiet (t ∷ ts) e =
      Evolves-insert cfg q.groups g _ (drain_task t ts idle quiet e refl)

  pub start_next_pending-Evolves :
      is_active q g ≡ false → Evolves cfg q.groups (start_next_pending g q).0.groups
  unfolding start_next_pending
  start_next_pending-Evolves idle =
      if_cases (λ (x : GroupQueue × Bool). Evolves cfg q.groups x.0.groups)
        ((group q.groups g).pending_messages)
        (λ p. (Evolves-insert cfg q.groups g _ (drain_messages idle p refl)))
        (λ p. (start_task-Evolves idle p (group q.groups g).pending_tasks refl))

drain_waiting_loop-Evolves :
    (cfg : Settings) (ws : List String) (q : GroupQueue)
    → q.waiting_groups ≡ ws
    → IsOpen cfg q
    → Served q
    → Evolves cfg q.groups (drain_waiting_loop cfg ws q).groups
unfolding drain_waiting_loop
drain_waiting_loop-Evolves cfg [] q e v sv = Evolves-refl cfg q.groups
drain_waiting_loop-Evolves cfg (g ∷ rest) q e v sv =
    if_cases (EvolvesTo cfg q) (ltb q.active_count cfg.max_concurrent)
      (λ room.
        let (o, idle, absent) = pop_waiting-IsOpen cfg g rest q e v in
        let next = start_next_pending g (pop_waiting rest q) in
        let st =
          start_next_pending-IsStarted cfg (pop_waiting rest q) g o idle absent
            (ground (arith, room)) (pop_waiting-ServedBut g rest q e sv) in
        Evolves-trans cfg q.groups next.0.groups _
          (start_next_pending-Evolves cfg g (pop_waiting rest q) idle)
          (drain_waiting_loop-Evolves cfg rest (start_next_pending g (pop_waiting rest q)).0
            st.waiting_same st.opened st.served))
      (λ full. Evolves-refl cfg q.groups)

drain_rest-Evolves :
    (cfg : Settings) (q : GroupQueue) (p : GroupQueue × Bool)
    → IsStarted cfg q p
    → Evolves cfg q.groups p.0.groups
    → Evolves cfg q.groups (drain_rest cfg p).groups
unfolding drain_waiting
drain_rest-Evolves cfg q (p, true) st ev = ev
drain_rest-Evolves cfg q (p, false) st ev =
    Evolves-trans cfg q.groups p.groups _ ev
      (drain_waiting_loop-Evolves cfg p.waiting_groups p refl st.opened st.served)

pub drain_group-Evolves :
    (cfg : Settings) (g : String) (q : GroupQueue)
    → IsOpen cfg q
    → is_active q g ≡ false
    → contains g q.waiting_groups ≡ false
    → q.active_count < cfg.max_concurrent
    → (q.shutting_down ≡ false → ServedBut g q)
    → Evolves cfg q.groups (drain_group cfg g q).groups
unfolding drain_group
drain_group-Evolves cfg g q v idle absent room sv =
    if_cases (EvolvesTo cfg q) (q.shutting_down) (λ down. (Evolves-refl cfg q.groups))
      (λ up.
        (drain_rest-Evolves cfg q (start_next_pending g q)
          (start_next_pending-IsStarted cfg q g v idle absent room (sv up))
          (start_next_pending-Evolves cfg g q idle)))

schedule_retry-Evolves :
    (cfg : Settings) (g : String) (q : GroupQueue) → EvolvesTo cfg q (schedule_retry cfg g q)
unfolding schedule_retry
schedule_retry-Evolves cfg g q =
    if_cases (EvolvesTo cfg q) (ltb cfg.max_retries ((group q.groups g).retry_count + 1))
      (λ over. Evolves-insert cfg q.groups g _ (reset_retry refl))
      (λ more. Evolves-insert cfg q.groups g _ (count_retry (ground (arith, more)) refl))

after_messages-Evolves :
    (cfg : Settings) (g : String) (o : Outcome) (q : GroupQueue)
    → EvolvesTo cfg q (after_messages cfg g o q)
after_messages-Evolves cfg g (answered true) q = Evolves-insert cfg q.groups g _ (reset_retry refl)
after_messages-Evolves cfg g (answered false) q = schedule_retry-Evolves cfg g q
after_messages-Evolves cfg g denied q = Evolves-refl cfg q.groups
after_messages-Evolves cfg g raised q = schedule_retry-Evolves cfg g q
after_messages-Evolves cfg g cancelled q = Evolves-refl cfg q.groups

pub settle-Evolves :
    (cfg : Settings) (g : String) (o : Outcome) (q : GroupQueue)
    → Evolves cfg q.groups (settle cfg g o q).groups
unfolding settle
settle-Evolves cfg g o q =
    if_cases (EvolvesTo cfg q) q.process_messages_fn (λ c. after_messages-Evolves cfg g o q)
      (λ n. Evolves-refl cfg q.groups)
