-- ===== src/Queue/Preserve.antt =====
-- The events of concurrency.py, and the invariant of the queue.
use pynchy.Base.{
  Bool-cases, List, String, String-eq, [], any, arith, contains, contains-append, distinct,
  distinct_snoc, false, if_cases, inl, inr, insert, leb, refl, true, ℕ, ◌<◌, ◌==◌, ◌||◌, ◌∷◌, ◌≡◌,
  ◌≤◌,
}
use pynchy.Queue.State.{GroupState, Run, group_of, GroupQueue, Settings, group, group-insert}
use pynchy.Queue.Start.{launch}
use pynchy.Queue.Enqueue.{add_waiting, enqueue_message_check, enqueue_task}
use pynchy.Queue.Invariant.{is_active, IsValid, IsQuiet-IsValid}
use pynchy.Queue.Quiet.{get_group-IsQuiet}
use pynchy.Queue.Slots.{launch-IsOpen, launch-Served}

contains-add_waiting :
    (g h : String) (ws : List String) → contains h (add_waiting g ws) ≡ ((g == h) || contains h ws)
contains-add_waiting g h ws = ground (arith, contains-append h ws (g ∷ []), String-eq.equal_iff g h)

distinct-add_waiting :
    (g : String) (ws : List String) → distinct ws ≡ true → distinct (add_waiting g ws) ≡ true
distinct-add_waiting g ws d = elim (Bool-cases (contains g ws)) [
  | inl m ↦ rw m d
  | inr n ↦ rw n (distinct_snoc g ws d n)
]

module _ (cfg : Settings) (q : GroupQueue) (g : String) (s : GroupState) (v : IsValid cfg q) where
  -- Work is noted for an active group: its own end will find it.
  noted-IsValid :
      s.active ≡ is_active q g
      → is_active q g ≡ true
      → IsValid cfg (record q { groups = insert g s q.groups })
  noted-IsValid same on = record {
    opened = record {
      counted = v.counted;
      bounded = v.bounded;
      tracked =
          λ h. ground (arith, group-insert g h s q.groups, v.tracked h, String-eq.equal_iff g h);
      serial = v.serial;
      queued_once = v.queued_once;
      queued_idle = λ h m.
          ground (arith, group-insert g h s q.groups, v.queued_idle h m, String-eq.equal_iff g h);
    };
    served = λ n h a w.
        ground (arith, group-insert g h s q.groups, v.served n h, String-eq.equal_iff g h);
    saturated = v.saturated;
  }

  -- At the limit an idle group is put in the waiting queue, with its work noted.
  waits-IsValid :
      s.active ≡ false
      → is_active q g ≡ false
      → cfg.max_concurrent ≤ q.active_count
      → IsValid cfg (record q {
        groups = insert g s q.groups;
        waiting_groups = add_waiting g q.waiting_groups;
      })
  waits-IsValid idle off full = record {
    opened = record {
      counted = v.counted;
      bounded = v.bounded;
      tracked =
          λ h. ground (arith, group-insert g h s q.groups, v.tracked h, String-eq.equal_iff g h);
      serial = v.serial;
      queued_once = distinct-add_waiting g q.waiting_groups v.queued_once;
      queued_idle = λ h m. ground (
        arith,
        group-insert g h s q.groups,
        v.queued_idle h,
        contains-add_waiting g h q.waiting_groups,
        m,
        String-eq.equal_iff g h,
      );
    };
    served = λ n h a w. ground (
      arith,
      group-insert g h s q.groups,
      v.served n h,
      contains-add_waiting g h q.waiting_groups,
      String-eq.equal_iff g h,
    );
    saturated = λ n h m. full;
  }

  -- Below the limit nobody waits, and the group's run starts at once.
  starts-IsValid :
      (r : Run)
      → s.active ≡ true
      → group_of r ≡ g
      → is_active q g ≡ false
      → q.active_count < cfg.max_concurrent
      → q.shutting_down ≡ false
      → IsValid cfg (launch g s r q)
  starts-IsValid r on own off room up = record {
    opened = launch-IsOpen cfg q g v.opened off (nobody g) s r on own room;
    served = λ n. launch-Served cfg q g v.opened off (nobody g) s r on (λ h ne. v.served up h);
    saturated = λ n h m. cc (nobody h);
  }
    where
      nobody : (h : String) → contains h q.waiting_groups ≡ false
      nobody h = elim (Bool-cases (contains h q.waiting_groups)) [
        | inl m ↦ absurd (omega (arith, v.saturated up h m))
        | inr n ↦ n
      ]

pub enqueue_message_check-IsValid :
    (cfg : Settings) (g : String) (q : GroupQueue)
    → IsValid cfg q
    → IsValid cfg (enqueue_message_check cfg g q)
unfolding enqueue_message_check
enqueue_message_check-IsValid cfg g q v =
    if_cases (IsValid cfg) (q.shutting_down) (λ down. v)
      (λ up.
        (if_cases (IsValid cfg) ((is_active q g)) (λ on. (noted-IsValid cfg q g _ v refl on))
          (λ off.
            (if_cases (IsValid cfg) ((leb cfg.max_concurrent q.active_count))
              (λ full. (waits-IsValid cfg q g _ v off off (ground (arith, full))))
              (λ room. (starts-IsValid cfg q g _ v _ refl refl off (ground (arith, room)) up))))))

pub enqueue_task-IsValid :
    (cfg : Settings) (g task_id : String) (fn : ℕ) (q : GroupQueue)
    → IsValid cfg q
    → IsValid cfg (enqueue_task cfg g task_id fn q)
unfolding enqueue_task
enqueue_task-IsValid cfg g task_id fn q v =
    if_cases (IsValid cfg) (q.shutting_down) (λ down. v)
      (λ up.
        (if_cases (IsValid cfg) ((any (λ t. t.id == task_id) (group q.groups g).pending_tasks))
          (λ twice. (IsQuiet-IsValid (get_group-IsQuiet q g) v))
          (λ once.
            (if_cases (IsValid cfg) ((is_active q g)) (λ on. (noted-IsValid cfg q g _ v refl on))
              (λ off.
                (if_cases (IsValid cfg) ((leb cfg.max_concurrent q.active_count))
                  (λ full. (waits-IsValid cfg q g _ v off off (ground (arith, full))))
                  (λ room.
                    (starts-IsValid cfg q g _ v _ refl refl off (ground (arith, room)) up))))))))
