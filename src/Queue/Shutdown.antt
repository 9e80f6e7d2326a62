-- ===== src/Queue/Shutdown.antt =====
-- concurrency.py after `shutdown`, and the order in which a freed slot is handed on.
use pynchy.Base.{
  Bool-cases, List, Option, Option-cases, String, String-eq, [], arith, contains, contains-pick,
  equal_refl, false, if_cases, inl, inr, insert, none, pick, refl, some, subst, sym, true, ℕ, ◌++◌,
  ◌∷◌, ◌≡◌,
}
use pynchy.Queue.State.{
  Run, run_for_group, run_task, group_of, GroupQueue, Settings, group, group-insert,
}
use pynchy.Queue.Start.{start_next_pending, drain_group}
use pynchy.Queue.Enqueue.{enqueue_message_check, enqueue_task}
use pynchy.Queue.Finish.{
  Outcome, release, release_state, settle, finish_messages, finish_task, retry,
}
use pynchy.Queue.Event.{
  Event, set_callback, message, task, register, send, close, stop_begin, stop_end, clear, ended,
  woke, shut, shut_end, finish_run, end_run, end_sleep, step, run_from,
}
use pynchy.Queue.Invariant.{holders, IsQuiet}
use pynchy.Queue.Quiet.{
  same-IsQuiet, register_process-IsQuiet, clear_pending_tasks-IsQuiet, send_message-IsQuiet,
  close_stdin-IsQuiet, stop_session-IsQuiet, stop_process-IsQuiet, settle-IsQuiet, shutdown-IsQuiet,
  shutdown_stop-IsQuiet,
}

-- Still closing, and no group holds a slot that it did not hold.
pub record IsClosing (q q' : GroupQueue) : Type 0 where
  pub down : q'.shutting_down ≡ true
  pub no_new : (g : String) → contains g (holders q') ≡ true → contains g (holders q) ≡ true

IsQuiet-IsClosing : (q q' : GroupQueue) → q.shutting_down ≡ true → IsQuiet q q' → IsClosing q q'
IsQuiet-IsClosing q q' d c = record {
  down = elim (Bool-cases q'.shutting_down) [ inl t ↦ t | inr f ↦ cc (c.closing f) ];
  no_new = λ g m. rw c.runs_same at m;
}

IsClosing-refl : (q : GroupQueue) → q.shutting_down ≡ true → IsClosing q q
IsClosing-refl q d = record { down = d; no_new = λ g m. m }

enqueue_message_check-IsClosing :
    (cfg : Settings) (g : String) (q : GroupQueue)
    → q.shutting_down ≡ true
    → IsClosing q (enqueue_message_check cfg g q)
unfolding enqueue_message_check
enqueue_message_check-IsClosing cfg g q d =
    if_cases (IsClosing q) q.shutting_down (λ t. IsClosing-refl q d) (λ f. cc)

enqueue_task-IsClosing :
    (cfg : Settings) (g id : String) (fn : ℕ) (q : GroupQueue)
    → q.shutting_down ≡ true
    → IsClosing q (enqueue_task cfg g id fn q)
unfolding enqueue_task
enqueue_task-IsClosing cfg g id fn q d =
    if_cases (IsClosing q) q.shutting_down (λ t. IsClosing-refl q d) (λ f. cc)

end_sleep-IsClosing :
    (cfg : Settings) (p : Option ((String × ℕ) × List (String × ℕ))) (q : GroupQueue)
    → q.shutting_down ≡ true
    → IsClosing q (end_sleep cfg p q)
unfolding end_sleep retry
end_sleep-IsClosing cfg none q d = IsClosing-refl q d
end_sleep-IsClosing cfg (some (r, rest)) q d =
    if_cases (IsClosing q) q.shutting_down (λ t. record { down = d; no_new = λ g m. m }) (λ f. cc)

-- A closing queue hands no slot on.
drain_group-IsClosing :
    (cfg : Settings) (g : String) (q : GroupQueue)
    → q.shutting_down ≡ true
    → drain_group cfg g q ≡ q
unfolding drain_group
drain_group-IsClosing cfg g q d = rw d

finally-IsClosing :
    (cfg : Settings) (g : String) (q q' : GroupQueue)
    → q.shutting_down ≡ true
    → IsQuiet q q'
    → IsClosing q (drain_group cfg g (release g q'))
unfolding release
finally-IsClosing cfg g q q' d c =
    let k = IsQuiet-IsClosing q q' d c in
    subst (IsClosing q) (sym (drain_group-IsClosing cfg g _ k.down))
      (record { down = k.down; no_new = k.no_new })

finish_run-IsClosing :
    (cfg : Settings) (o : Outcome) (r : Run) (q : GroupQueue)
    → q.shutting_down ≡ true
    → IsClosing q (finish_run cfg o r q)
unfolding finish_run finish_messages finish_task
finish_run-IsClosing cfg o (run_for_group g) q d =
    finally-IsClosing cfg g q (settle cfg g o q) d (settle-IsQuiet cfg g o q)
finish_run-IsClosing cfg o (run_task g t) q d =
    finally-IsClosing cfg g q _ d (same-IsQuiet q _ refl refl refl (λ n. n) (λ h. refl))

end_run-IsClosing :
    (cfg : Settings) (o : Outcome) (i : ℕ) (q : GroupQueue)
    → q.shutting_down ≡ true
    → IsClosing q (end_run cfg o (pick i q.runs) q)
unfolding end_run
end_run-IsClosing cfg o i q d = elim (Option-cases (pick i q.runs)) [
  | inl e ↦ subst (λ x. IsClosing q (end_run cfg o x q)) (sym e) (IsClosing-refl q d)
  | inr ((r, rest), e) ↦
      let k = finish_run-IsClosing cfg o r (record q { runs = rest }) d in
      subst (λ x. IsClosing q (end_run cfg o x q)) (sym e)
        (record {
          down = k.down;
          no_new = λ g m.
              ground
                (arith, k.no_new g m, contains-pick group_of i q.runs {x = r} {rest = rest} g e);
        })
]

step-IsClosing :
    (cfg : Settings) (e : Event) (q : GroupQueue)
    → q.shutting_down ≡ true
    → IsClosing q (step cfg e q)
unfolding step
step-IsClosing cfg set_callback q d = record { down = d; no_new = λ g m. m }
step-IsClosing cfg (message g) q d = enqueue_message_check-IsClosing cfg g q d
step-IsClosing cfg (task g id fn) q d = enqueue_task-IsClosing cfg g id fn q d
step-IsClosing cfg (register g proc name folder ts) q d =
    IsQuiet-IsClosing q _ d (register_process-IsQuiet g proc name folder ts q)
step-IsClosing cfg (send written g text) q d =
    IsQuiet-IsClosing q _ d (send_message-IsQuiet written g q text)
step-IsClosing cfg (close written g) q d = IsQuiet-IsClosing q _ d (close_stdin-IsQuiet written g q)
step-IsClosing cfg (stop_begin g) q d = IsQuiet-IsClosing q _ d (stop_session-IsQuiet g q)
step-IsClosing cfg (stop_end alive written g) q d =
    IsQuiet-IsClosing q _ d (stop_process-IsQuiet written g q alive)
step-IsClosing cfg (clear g) q d = IsQuiet-IsClosing q _ d (clear_pending_tasks-IsQuiet g q)
step-IsClosing cfg (ended i o) q d = end_run-IsClosing cfg o i q d
step-IsClosing cfg (woke i) q d = end_sleep-IsClosing cfg (pick i q.retries) q d
step-IsClosing cfg shut q d = IsQuiet-IsClosing q _ d (shutdown-IsQuiet q)
step-IsClosing cfg (shut_end alive) q d = IsQuiet-IsClosing q _ d (shutdown_stop-IsQuiet alive q)

-- From the moment the queue is shutting down, whatever happens, it stays so, and no group comes
-- to hold a slot that did not hold one then: no message, task, retry or ending run starts a run.
pub run_from-IsClosing :
    (cfg : Settings) (es : List Event) (q : GroupQueue)
    → q.shutting_down ≡ true
    → IsClosing q (run_from cfg es q)
unfolding run_from
run_from-IsClosing cfg [] q d = IsClosing-refl q d
run_from-IsClosing cfg (e ∷ es) q d =
    let first = step-IsClosing cfg e q d in
    let later = run_from-IsClosing cfg es (step cfg e q) first.down in
    record { down = later.down; no_new = λ g m. first.no_new g (later.no_new g m) }

-- When a run of a group has ended, the queue is not shutting down, and messages of the group are
-- pending, then the slot goes to the group's messages: they start, whatever tasks the group has
-- queued and whichever groups wait, and the queued tasks and the waiting groups stay as they are.
pub drain_group-messages_first :
    (cfg : Settings) (g : String) (q : GroupQueue)
    → q.shutting_down ≡ false
    → (group q.groups g).pending_messages ≡ true
    → ((drain_group cfg g (release g q)).runs ≡ q.runs ++ run_for_group g ∷ [])
      × ((drain_group cfg g (release g q)).waiting_groups ≡ q.waiting_groups)
      × ((group (drain_group cfg g (release g q)).groups g).pending_tasks
          ≡ (group q.groups g).pending_tasks)
      × ((group (drain_group cfg g (release g q)).groups g).pending_messages ≡ false)
unfolding drain_group start_next_pending release
drain_group-messages_first cfg g q up p = ground (
  arith,
  group-insert g g (release_state (group q.groups g)) q.groups,
  group-insert g g
      (record (release_state (group q.groups g)) {
        active = true;
        active_is_task = false;
        pending_messages = false;
      })
      (insert g (release_state (group q.groups g)) q.groups),
  equal_refl g,
)
