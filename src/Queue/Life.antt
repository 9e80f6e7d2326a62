-- ===== src/Queue/Life.antt =====
-- What every event of concurrency.py can do to one group, and what that rules out.
use mathlib.Core.List.{map-append}
use pynchy.Base.{
  List, Option, String, String-eq, [], any, ap, arith, contains, distinct, distinct_snoc, if_cases,
  lookup, map, none, pick, refl, some, sym, true, ℕ, ◌==◌, ◌∙◌, ◌∷◌, ◌≡◌, ◌≤◌,
}
use pynchy.Queue.State.{QueuedTask, GroupState, GroupQueue, Settings, new_queue, new_group, group}
use pynchy.Queue.Finish.{retry}
use pynchy.Queue.Containers.{register_process, clear_pending_tasks, shutdown, shutdown_stop}
use pynchy.Queue.Event.{
  Event, set_callback, message, task, send, close, stop_begin, stop_end, ended, woke, shut,
  shut_end, end_sleep, step, run_from, run,
}
use pynchy.Queue.Invariant.{IsValid}
use pynchy.Queue.Quiet.{
  group-send_message, group-close_stdin, group-stop_process, group-stop_session,
}
use pynchy.Queue.Protocol
use pynchy.Queue.Protocol.{
  Move, Moves, here, then, Moves-trans, Evolves, Evolves-refl, Evolves-same, Evolves-insert,
}
use pynchy.Queue.Evolution.{enqueue_message_check-Evolves, enqueue_task-Evolves}
use pynchy.Queue.Ends.{end_run-Evolves}
use pynchy.Queue.Runs.{step-IsValid, new_queue-IsValid}

abbrev EvolvesTo : Settings → GroupQueue → GroupQueue → Type 0
EvolvesTo cfg q q' = Evolves cfg q.groups q'.groups

end_sleep-Evolves :
    (cfg : Settings) (p : Option ((String × ℕ) × List (String × ℕ))) (q : GroupQueue)
    → EvolvesTo cfg q (end_sleep cfg p q)
unfolding end_sleep retry
end_sleep-Evolves cfg none q = Evolves-refl cfg q.groups
end_sleep-Evolves cfg (some (r, rest)) q =
    if_cases (EvolvesTo cfg q) q.shutting_down (λ d. Evolves-refl cfg q.groups)
      (λ u. enqueue_message_check-Evolves cfg r.0 (record q { retries = rest }))

-- Every event takes every group of a valid queue through moves of its protocol: in particular a
-- group takes a slot only while it is idle, gives one back only while it is active, a queued task
-- is started only from the head of the group's queue and only with no message pending, and a task
-- is queued only if no task with its id is.
pub step-Moves :
    (cfg : Settings) (e : Event) (q : GroupQueue)
    → IsValid cfg q
    → (g : String) → Moves cfg (group q.groups g) (group (step cfg e q).groups g)
unfolding step register_process clear_pending_tasks shutdown shutdown_stop
step-Moves cfg set_callback q v = Evolves-refl cfg q.groups
step-Moves cfg (message g) q v = enqueue_message_check-Evolves cfg g q
step-Moves cfg (task g id fn) q v = enqueue_task-Evolves cfg g q id fn
step-Moves cfg (Event.register g proc name folder ts) q v =
    Evolves-insert cfg q.groups g _ (Protocol.register proc (some name) _ ts refl)
step-Moves cfg (send written g text) q v =
    Evolves-same cfg q.groups _ (λ h. group-send_message written g q h text)
step-Moves cfg (close written g) q v = Evolves-same cfg q.groups _ (group-close_stdin written g q)
step-Moves cfg (stop_begin g) q v = Evolves-same cfg q.groups _ (group-stop_session g q)
step-Moves cfg (stop_end alive written g) q v =
    Evolves-same cfg q.groups _ (λ h. group-stop_process written g q h alive)
step-Moves cfg (Event.clear g) q v = Evolves-insert cfg q.groups g _ (Protocol.clear refl)
step-Moves cfg (ended i o) q v = end_run-Evolves cfg o i q v
step-Moves cfg (woke i) q v = end_sleep-Evolves cfg (pick i q.retries) q
step-Moves cfg shut q v = Evolves-refl cfg q.groups
step-Moves cfg (shut_end alive) q v = Evolves-refl cfg q.groups

-- What a move keeps, moves keep, and so does the queue.
module _ {ℓ} (cfg : Settings) (P : GroupState → Type ℓ)
    (step_keeps : (s t : GroupState) → Move cfg s t → P s → P t) where
  Moves-keep : {s t : GroupState} → Moves cfg s t → P s → P t
  Moves-keep here h = h
  Moves-keep (then {t = t} {u = u} m x) h = step_keeps t u x (Moves-keep m h)

  run_from-keep :
      (es : List Event) (q : GroupQueue)
      → IsValid cfg q
      → (g : String) → P (group q.groups g)
      → P (group (run_from cfg es q).groups g)
  unfolding run_from
  run_from-keep [] q v g h = h
  run_from-keep (e ∷ es) q v g h =
      run_from-keep es (step cfg e q) (step-IsValid cfg e q v) g
        (Moves-keep (step-Moves cfg e q v g) h)

  run-keep : (es : List Event) (g : String) → P new_group → P (group (run cfg es).groups g)
  unfolding run group lookup
  run-keep es g h = run_from-keep es new_queue (new_queue-IsValid cfg) g h

-- A group's count of retries never passes `max_retries`, whatever happens.
pub retry_count-le-max_retries :
    (cfg : Settings) (es : List Event) (g : String)
    → (group (run cfg es).groups g).retry_count ≤ cfg.max_retries
retry_count-le-max_retries cfg es g =
    run-keep cfg (λ s. s.retry_count ≤ cfg.max_retries) go es g (omega arith)
  where
    go :
        (s t : GroupState)
        → Move cfg s t
        → s.retry_count ≤ cfg.max_retries
        → t.retry_count ≤ cfg.max_retries
    go s t (Protocol.note_messages e) h = ground arith
    go s t (Protocol.note_task x n e) h = ground arith
    go s t (Protocol.begin_messages a e) h = ground arith
    go s t (Protocol.drain_messages a p e) h = ground arith
    go s t (Protocol.begin_task a e) h = ground arith
    go s t (Protocol.drain_task x xs a p q e) h = ground arith
    go s t (Protocol.release a e) h = ground arith
    go s t (Protocol.count_retry l e) h = ground arith
    go s t (Protocol.reset_retry e) h = ground arith
    go s t (Protocol.register p n f ts e) h = ground arith
    go s t (Protocol.clear e) h = ground arith

abbrev pub task_ids : GroupState → List String
task_ids s = map (λ t. t.id) s.pending_tasks

any-contains :
    (id : String) (ts : List QueuedTask)
    → any (λ t. t.id == id) ts ≡ contains id (map (λ t. t.id) ts)
any-contains id [] = refl
any-contains id (t ∷ ts) = ground (arith, any-contains id ts)

-- No task is queued twice in a group at once, whatever happens.
pub pending_tasks_once :
    (cfg : Settings) (es : List Event) (g : String)
    → distinct (task_ids (group (run cfg es).groups g)) ≡ true
pending_tasks_once cfg es g = run-keep cfg (λ s. distinct (task_ids s) ≡ true) go es g refl
  where
    go :
        (s t : GroupState)
        → Move cfg s t
        → distinct (task_ids s) ≡ true
        → distinct (task_ids t) ≡ true
    go s t (Protocol.note_messages e) h = cc
    go s t (Protocol.note_task x n e) h =
        ap (λ r. distinct (task_ids r)) e
        ∙ ap distinct (map-append (λ (u : QueuedTask). u.id) s.pending_tasks (x ∷ []))
        ∙ distinct_snoc x.id (task_ids s) h (sym (any-contains x.id s.pending_tasks) ∙ n)
    go s t (Protocol.begin_messages a e) h = cc
    go s t (Protocol.drain_messages a p e) h = cc
    go s t (Protocol.begin_task a e) h = cc
    go s t (Protocol.drain_task x xs a p q e) h =
        ap (λ r. distinct (task_ids r)) e
        ∙ ground (arith, ap (λ l. distinct (map (λ u. u.id) l)) q, h)
    go s t (Protocol.release a e) h = cc
    go s t (Protocol.count_retry l e) h = cc
    go s t (Protocol.reset_retry e) h = cc
    go s t (Protocol.register p n f ts e) h = cc
    go s t (Protocol.clear e) h = ap (λ r. distinct (task_ids r)) e
