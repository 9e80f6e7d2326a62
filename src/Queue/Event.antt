-- ===== src/Queue/Event.antt =====
-- What can happen to the queue, one event at a time. Each method runs to its next `await` without
-- a switch of coroutines, so an interleaving is a list of events.
use pynchy.Base.{Bool, List, Option, String, [], none, pick, some, true, ℕ, ◌∷◌}
use pynchy.Queue.State.{Run, run_for_group, run_task, GroupQueue, Settings, new_queue}
use pynchy.Queue.Enqueue.{enqueue_message_check, enqueue_task}
use pynchy.Queue.Finish.{Outcome, finish_messages, finish_task, retry}
use pynchy.Queue.Containers.{
  register_process, send_message, close_stdin, stop_session, stop_process, clear_pending_tasks,
  shutdown, shutdown_stop,
}

-- `ended i o` is the end of the run at position `i` of `runs` (a task's run ignores `o`), `woke i`
-- the end of the sleep at position `i` of `retries`. Where there is none, the event is void.
pub data Event : Type 0 where
  set_callback : Event
  message : String → Event
  task : String → String → ℕ → Event
  register : String → Option ℕ → String → Option String → ℕ → Event
  send : Bool → String → String → Event
  close : Bool → String → Event
  stop_begin : String → Event
  stop_end : (ℕ → Bool) → Bool → String → Event
  clear : String → Event
  ended : ℕ → Outcome → Event
  woke : ℕ → Event
  shut : Event
  shut_end : (ℕ → Bool) → Event

unfoldable pub finish_run : Settings → Outcome → Run → GroupQueue → GroupQueue
unfolding finish_messages finish_task
finish_run cfg o (run_for_group g) q = finish_messages cfg g o q
finish_run cfg o (run_task g t) q = finish_task cfg g q

unfoldable pub end_run : Settings → Outcome → Option (Run × List Run) → GroupQueue → GroupQueue
unfolding finish_run
end_run cfg o none q = q
end_run cfg o (some (r, rest)) q = finish_run cfg o r (record q { runs = rest })

unfoldable pub end_sleep :
    Settings → Option ((String × ℕ) × List (String × ℕ)) → GroupQueue → GroupQueue
unfolding retry
end_sleep cfg none q = q
end_sleep cfg (some (r, rest)) q = retry cfg r.0 (record q { retries = rest })

unfoldable pub step : Settings → Event → GroupQueue → GroupQueue
unfolding end_run end_sleep enqueue_message_check enqueue_task
step cfg set_callback q = record q { process_messages_fn = true }
step cfg (message g) q = enqueue_message_check cfg g q
step cfg (task g id fn) q = enqueue_task cfg g id fn q
step cfg (register g proc name folder ts) q = register_process g proc name folder ts q
step cfg (send written g text) q = (send_message written g text q).0
step cfg (close written g) q = close_stdin written g q
step cfg (stop_begin g) q = stop_session g q
step cfg (stop_end alive written g) q = stop_process alive written g q
step cfg (clear g) q = clear_pending_tasks g q
step cfg (ended i o) q = end_run cfg o (pick i q.runs) q
step cfg (woke i) q = end_sleep cfg (pick i q.retries) q
step cfg shut q = shutdown q
step cfg (shut_end alive) q = shutdown_stop alive q

unfoldable pub run_from : Settings → List Event → GroupQueue → GroupQueue
unfolding step
run_from cfg [] q = q
run_from cfg (e ∷ es) q = run_from cfg es (step cfg e q)

unfoldable pub run : Settings → List Event → GroupQueue
unfolding run_from
run cfg es = run_from cfg es new_queue
