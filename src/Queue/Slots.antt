-- ===== src/Queue/Slots.antt =====
-- concurrency.py: a slot is taken by `launch`, freed by `release`, and handed on by `_drain_group`.
use mathlib.Core.List.{map-append}
use pynchy.Base.{
  Bool, Bool-cases, List, String, String-eq, [], ap, arith, contains, contains-append, distinct,
  distinct_snoc, equal_refl, false, if_cases, inl, inr, length-append, ltb, refl, sym, true, ◌+◌,
  ◌<◌, ◌==◌, ◌∙◌, ◌∷◌, ◌≡◌, ◌≤◌,
}
use pynchy.Queue.State.{
  QueuedTask, GroupState, Run, group_of, GroupQueue, Settings, group, group-insert, get_group,
}
use pynchy.Queue.Start.{
  launch, start_task, pop_waiting, start_next_pending, drain_waiting_loop, drain_waiting,
  drain_rest, drain_group,
}
use pynchy.Queue.Invariant.{
  any_task, has_work, holders, is_active, IsOpen, Served, ServedBut, Saturated, IsValid, IsQuiet,
  IsQuiet-IsOpen,
}
use pynchy.Queue.Quiet.{get_group-IsQuiet, get_group-fields}

-- What the callers need of `_start_next_pending`, whatever it started.
pub record IsStarted (cfg : Settings) (q : GroupQueue) (p : GroupQueue × Bool) : Type 0 where
  pub opened : IsOpen cfg p.0
  pub served : Served p.0
  pub waiting_same : p.0.waiting_groups ≡ q.waiting_groups
  pub shutting_same : p.0.shutting_down ≡ q.shutting_down
  pub count_up : p.1 ≡ true → p.0.active_count ≡ q.active_count + 1
  pub count_same : p.1 ≡ false → p.0.active_count ≡ q.active_count

module _ (cfg : Settings) (q : GroupQueue) (g : String) (v : IsOpen cfg q)
    (idle : is_active q g ≡ false) (absent : contains g q.waiting_groups ≡ false) where
  pub launch-IsOpen :
      (s : GroupState) (r : Run)
      → s.active ≡ true
      → group_of r ≡ g
      → q.active_count < cfg.max_concurrent
      → IsOpen cfg (launch g s r q)
  launch-IsOpen s r on own room = record {
    counted = omega (arith, v.counted, length-append q.runs (r ∷ []));
    bounded = omega arith;
    tracked = λ h. rw map-append (
        ground (
          arith,
          group-insert g h s q.groups,
          v.tracked h,
          contains-append h (holders q) (group_of r ∷ []),
          String-eq.equal_iff g h,
        ));
    serial =
        rw map-append (rw own (distinct_snoc g (holders q) v.serial (sym (v.tracked g) ∙ idle)));
    queued_once = v.queued_once;
    queued_idle = λ h m.
        ground (arith, group-insert g h s q.groups, v.queued_idle h m, String-eq.equal_iff g h);
  }

  -- Once the group is active, the work of the others is all there is to serve.
  pub launch-Served :
      (s : GroupState) (r : Run) → s.active ≡ true → ServedBut g q → Served (launch g s r q)
  launch-Served s r on sv h a w =
      ground (arith, group-insert g h s q.groups, sv h, String-eq.equal_iff g h)

  launch-IsStarted :
      (s : GroupState) (r : Run)
      → s.active ≡ true
      → group_of r ≡ g
      → q.active_count < cfg.max_concurrent
      → ServedBut g q
      → IsStarted cfg q (launch g s r q, true)
  launch-IsStarted s r on own room sv = record {
    opened = launch-IsOpen s r on own room;
    served = launch-Served s r on sv;
    waiting_same = refl;
    shutting_same = refl;
    count_up = λ e. refl;
    count_same = λ e. cc;
  }

  -- With nothing pending, the state reads as before.
  nothing-IsStarted :
      has_work (group q.groups g) ≡ false → ServedBut g q → IsStarted cfg q (get_group q g, false)
  nothing-IsStarted none_left sv = record {
    opened = IsQuiet-IsOpen c v;
    served = λ h a w. rw c.waiting_same (elim (Bool-cases (g == h)) [
      | inl e ↦ ground (arith, c.work_less h w, String-eq.equal_iff g h)
      | inr n ↦ sv h n (sym (c.active_same h) ∙ a) (c.work_less h w)
    ]);
    waiting_same = c.waiting_same;
    shutting_same = (get_group-fields q g).3;
    count_up = λ e. cc;
    count_same = λ e. c.count_same;
  }
    where
      c : IsQuiet q (get_group q g)
      c = get_group-IsQuiet q g

  start_task-IsStarted :
      (s : GroupState) (ts : List QueuedTask)
      → (any_task ts ≡ false → has_work (group q.groups g) ≡ false)
      → q.active_count < cfg.max_concurrent
      → ServedBut g q
      → IsStarted cfg q (start_task g s ts q)
  unfolding start_task
  start_task-IsStarted s [] w room sv = nothing-IsStarted (w refl) sv
  start_task-IsStarted s (t ∷ ts) w room sv = launch-IsStarted _ _ refl refl room sv

  pub start_next_pending-IsStarted :
      q.active_count < cfg.max_concurrent → ServedBut g q → IsStarted cfg q (start_next_pending g q)
  unfolding start_next_pending
  start_next_pending-IsStarted room sv =
      if_cases (IsStarted cfg q) ((group q.groups g).pending_messages)
        (λ p. (launch-IsStarted _ _ refl refl room sv))
        (λ p.
          (start_task-IsStarted (group q.groups g) (group q.groups g).pending_tasks
            (λ e. ground (arith, p, e)) room sv))

-- The head of the waiting queue is taken off: its work alone is not waited for any more.
pub pop_waiting-ServedBut :
    (g : String) (rest : List String) (q : GroupQueue)
    → q.waiting_groups ≡ g ∷ rest
    → Served q
    → ServedBut g (pop_waiting rest q)
pop_waiting-ServedBut g rest q e sv h n a w = ground (arith, sv h a w, ap (contains h) e)

pub pop_waiting-IsOpen :
    (cfg : Settings) (g : String) (rest : List String) (q : GroupQueue)
    → q.waiting_groups ≡ g ∷ rest
    → IsOpen cfg q
    → IsOpen cfg (pop_waiting rest q) × (is_active q g ≡ false) × (contains g rest ≡ false)
pop_waiting-IsOpen cfg g rest q e v = (
  record {
    counted = v.counted;
    bounded = v.bounded;
    tracked = v.tracked;
    serial = v.serial;
    queued_once = ground (arith, ap distinct e, v.queued_once);
    queued_idle = λ h m. v.queued_idle h (ground (arith, ap (contains h) e));
  },
  v.queued_idle g (ground (arith, ap (contains g) e, equal_refl g)),
  ground (arith, ap distinct e, v.queued_once),
)

-- The loop of `_drain_waiting` ends with every slot taken or nobody waiting, and loses no work.
abbrev pub Drained : Settings → GroupQueue → Type 0
Drained cfg q = IsOpen cfg q × Served q × Saturated cfg q

drain_waiting_loop-Drained :
    (cfg : Settings) (ws : List String) (q : GroupQueue)
    → q.waiting_groups ≡ ws
    → IsOpen cfg q
    → Served q
    → Drained cfg (drain_waiting_loop cfg ws q)
unfolding drain_waiting_loop
drain_waiting_loop-Drained cfg [] q e v sv = (v, sv, λ h m. ground (arith, ap (contains h) e))
drain_waiting_loop-Drained cfg (g ∷ rest) q e v sv =
    if_cases (Drained cfg) (ltb q.active_count cfg.max_concurrent)
      (λ room.
        let (o, idle, absent) = pop_waiting-IsOpen cfg g rest q e v in
        let st =
          start_next_pending-IsStarted cfg (pop_waiting rest q) g o idle absent
            (ground (arith, room)) (pop_waiting-ServedBut g rest q e sv) in
        drain_waiting_loop-Drained cfg rest (start_next_pending g (pop_waiting rest q)).0
          st.waiting_same st.opened st.served)
      (λ full. (v, sv, λ h m. ground (arith, full)))

drain_rest-IsValid :
    (cfg : Settings) (q : GroupQueue) (p : GroupQueue × Bool)
    → IsStarted cfg q p
    → ((h : String) → contains h q.waiting_groups ≡ true → cfg.max_concurrent ≤ q.active_count + 1)
    → IsValid cfg (drain_rest cfg p)
unfolding drain_waiting
drain_rest-IsValid cfg q (p, true) st full = record {
  opened = st.opened;
  served = λ n. st.served;
  saturated = λ n h m. rw (st.count_up refl) (full h (rw st.waiting_same at m));
}
drain_rest-IsValid cfg q (p, false) st full =
    let (o, s, t) = drain_waiting_loop-Drained cfg p.waiting_groups p refl st.opened st.served in
    record { opened = o; served = λ n. s; saturated = λ n. t }

-- `_drain_group` after a slot was freed: the queue is valid again.
pub drain_group-IsValid :
    (cfg : Settings) (g : String) (q : GroupQueue)
    → IsOpen cfg q
    → is_active q g ≡ false
    → contains g q.waiting_groups ≡ false
    → q.active_count < cfg.max_concurrent
    → (q.shutting_down ≡ false → ServedBut g q)
    → (q.shutting_down ≡ false
        → (h : String) → contains h q.waiting_groups ≡ true
        → cfg.max_concurrent ≤ q.active_count + 1)
    → IsValid cfg (drain_group cfg g q)
unfolding drain_group
drain_group-IsValid cfg g q v idle absent room sv full =
    if_cases (IsValid cfg) q.shutting_down
      (λ down. record { opened = v; served = λ n. cc; saturated = λ n. cc })
      (λ up.
        drain_rest-IsValid cfg q (start_next_pending g q)
          (start_next_pending-IsStarted cfg q g v idle absent room (sv up)) (full up))
