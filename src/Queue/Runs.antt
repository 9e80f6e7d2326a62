-- ===== src/Queue/Runs.antt =====
-- concurrency.py over every list of events.
use pynchy.Base.{
  Bool-cases, List, Option, String, String-eq, [], ap, arith, contains, false, if_cases, inl, inr,
  length, lookup, map, none, pick, refl, some, suc, sym, true, ℕ, ◌∙◌, ◌∷◌, ◌≡◌, ◌≤◌,
}
use pynchy.Queue.State.{Run, GroupQueue, Settings, new_queue, group}
use pynchy.Queue.Finish.{retry}
use pynchy.Queue.Event.{
  Event, set_callback, message, task, register, send, close, stop_begin, stop_end, clear, ended,
  woke, shut, shut_end, end_sleep, step, run_from, run,
}
use pynchy.Queue.Invariant.{has_work, is_active, holders, IsValid, IsQuiet-IsValid}
use pynchy.Queue.Quiet.{
  same-IsQuiet, register_process-IsQuiet, clear_pending_tasks-IsQuiet, send_message-IsQuiet,
  close_stdin-IsQuiet, stop_session-IsQuiet, stop_process-IsQuiet, shutdown-IsQuiet,
  shutdown_stop-IsQuiet,
}
use pynchy.Queue.Preserve.{enqueue_message_check-IsValid, enqueue_task-IsValid}
use pynchy.Queue.Ends.{end_run-IsValid}

retry-IsValid :
    (cfg : Settings) (g : String) (q : GroupQueue) → IsValid cfg q → IsValid cfg (retry cfg g q)
unfolding retry
retry-IsValid cfg g q v =
    if_cases (IsValid cfg) (q.shutting_down) (λ down. v)
      (λ up. (enqueue_message_check-IsValid cfg g q v))

end_sleep-IsValid :
    (cfg : Settings) (p : Option ((String × ℕ) × List (String × ℕ))) (q : GroupQueue)
    → IsValid cfg q
    → IsValid cfg (end_sleep cfg p q)
unfolding end_sleep
end_sleep-IsValid cfg none q v = v
end_sleep-IsValid cfg (some (r, rest)) q v = retry-IsValid cfg r.0 _ (
    IsQuiet-IsValid
      (same-IsQuiet q (record q { retries = rest }) refl refl refl (λ n. n) (λ h. refl)) v)

-- Every event, at any moment, keeps the queue valid: `_active_count` is the number of runs in
-- progress and at most `max_concurrent`, a group is marked active exactly when one run of it is in
-- progress and never has two, the waiting groups are idle and listed once, and while the queue is
-- not shutting down an idle group with pending work is in the waiting queue and a group waits
-- only if every slot is taken.
pub step-IsValid :
    (cfg : Settings) (e : Event) (q : GroupQueue) → IsValid cfg q → IsValid cfg (step cfg e q)
unfolding step
step-IsValid cfg set_callback q v =
    IsQuiet-IsValid
      (same-IsQuiet q (record q { process_messages_fn = true }) refl refl refl (λ n. n) (λ h. refl))
      v
step-IsValid cfg (message g) q v = enqueue_message_check-IsValid cfg g q v
step-IsValid cfg (task g id fn) q v = enqueue_task-IsValid cfg g id fn q v
step-IsValid cfg (register g proc name folder ts) q v =
    IsQuiet-IsValid (register_process-IsQuiet g proc name folder ts q) v
step-IsValid cfg (send written g text) q v =
    IsQuiet-IsValid (send_message-IsQuiet written g q text) v
step-IsValid cfg (close written g) q v = IsQuiet-IsValid (close_stdin-IsQuiet written g q) v
step-IsValid cfg (stop_begin g) q v = IsQuiet-IsValid (stop_session-IsQuiet g q) v
step-IsValid cfg (stop_end alive written g) q v =
    IsQuiet-IsValid (stop_process-IsQuiet written g q alive) v
step-IsValid cfg (clear g) q v = IsQuiet-IsValid (clear_pending_tasks-IsQuiet g q) v
step-IsValid cfg (ended i o) q v = end_run-IsValid cfg o i q v
step-IsValid cfg (woke i) q v = end_sleep-IsValid cfg (pick i q.retries) q v
step-IsValid cfg shut q v = IsQuiet-IsValid (shutdown-IsQuiet q) v
step-IsValid cfg (shut_end alive) q v = IsQuiet-IsValid (shutdown_stop-IsQuiet alive q) v

pub run_from-IsValid :
    (cfg : Settings) (es : List Event) (q : GroupQueue)
    → IsValid cfg q
    → IsValid cfg (run_from cfg es q)
unfolding run_from
run_from-IsValid cfg [] q v = v
run_from-IsValid cfg (e ∷ es) q v = run_from-IsValid cfg es (step cfg e q) (step-IsValid cfg e q v)

pub new_queue-IsValid : (cfg : Settings) → IsValid cfg new_queue
unfolding group lookup
new_queue-IsValid cfg = record {
  opened = record {
    counted = refl;
    bounded = omega arith;
    tracked = λ g. refl;
    serial = refl;
    queued_once = refl;
    queued_idle = λ g m. refl;
  };
  served = λ n g a w. cc;
  saturated = λ n g m. cc;
}

-- Whatever calls and completions happen to a new queue, in whatever order, it is valid: the number
-- of active groups is that of the runs in progress and within `max_concurrent`, no group has two
-- runs, and, unless it is shutting down, an idle group with pending work waits and a group waits
-- only while every slot is taken.
pub run-IsValid : (cfg : Settings) (es : List Event) → IsValid cfg (run cfg es)
unfolding run
run-IsValid cfg es = run_from-IsValid cfg es new_queue (new_queue-IsValid cfg)

length-of-contains : (g : String) (rs : List String) → contains g rs ≡ true → 1 ≤ length rs
length-of-contains g [] m = cc
length-of-contains g (r ∷ rs) m = omega arith

length-holders : (q : GroupQueue) → length (holders q) ≡ length q.runs
length-holders q = go q.runs
  where
    go : (rs : List Run) → length (map (λ r. pynchy.Queue.State.group_of r) rs) ≡ length rs
    go [] = refl
    go (r ∷ rs) = ap suc (go rs)

-- Unless the queue is shutting down, and with at least one slot, a queue that was reached by any
-- events and has a group with pending work has a run in progress.
pub run_in_progress :
    (cfg : Settings) (es : List Event) (g : String)
    → 1 ≤ cfg.max_concurrent
    → (run cfg es).shutting_down ≡ false
    → has_work (group (run cfg es).groups g) ≡ true
    → 1 ≤ length (run cfg es).runs
run_in_progress cfg es g slot up w =
    let v = run-IsValid cfg es in
    elim (Bool-cases (is_active (run cfg es) g)) [
      | inl on ↦ omega (
        arith,
        length-of-contains g (holders (run cfg es)) (sym (v.tracked g) ∙ on),
        length-holders (run cfg es),
      )
      | inr off ↦ omega (arith, v.saturated up g (v.served up g off w), v.counted)
    ]
