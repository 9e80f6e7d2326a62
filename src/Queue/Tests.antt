-- ===== src/Queue/Tests.antt =====
-- Tests of the queue, and its theorems at concrete runs.
use pynchy.Base.{
  List, String-eq, [], arith, distinct, insert, length, lookup, refl, true, ◌++◌, ◌∷◌, ◌≡◌, ◌≤◌,
}
use pynchy.Queue.State.{run_for_group, run_task, Settings, group, get_group}
use pynchy.Queue.Start.{drain_group}
use pynchy.Queue.Finish.{answered, raised, denied}
use pynchy.Queue.Containers.{shutdown}
use pynchy.Queue.Event.{Event, set_callback, message, task, ended, shut, step, run_from, run}
use pynchy.Queue.Invariant.{IsValid}
use pynchy.Queue.Protocol.{Moves}
use pynchy.Queue.Runs.{step-IsValid, run-IsValid, run_in_progress}
use pynchy.Queue.Life.{step-Moves, retry_count-le-max_retries, pending_tasks_once, task_ids}
use pynchy.Queue.Shutdown.{IsClosing, run_from-IsClosing}

abbrev one_slot : Settings
one_slot = record { max_concurrent = 1; max_retries = 2; base_retry_seconds = 5 }

abbrev busy : List Event
busy = set_callback ∷ message "a" ∷ message "b" ∷ task "a" "t" 7 ∷ task "a" "t" 7 ∷ message "a" ∷ []

-- The second group waits; the first keeps its slot for its own message, then for its task.
busy_runs : (run one_slot busy).runs ≡ run_for_group "a" ∷ []
unfolding run group lookup insert get_group drain_group
busy_runs = refl

busy_waits : (run one_slot busy).waiting_groups ≡ "b" ∷ []
unfolding run group lookup insert get_group drain_group
busy_waits = refl

next_runs :
    (run one_slot (busy ++ ended 0 (answered true) ∷ ended 0 raised ∷ [])).runs
    ≡ run_task "a" (record { id = "t"; group_jid = "a"; fn = 7 }) ∷ []
unfolding run group lookup insert get_group drain_group
next_runs = refl

next_retries :
    (run one_slot (busy ++ ended 0 (answered true) ∷ ended 0 raised ∷ [])).retries ≡ ("a", 5) ∷ []
unfolding run group lookup insert get_group drain_group
next_retries = refl

last_runs :
    (run one_slot (busy ++ ended 0 (answered true) ∷ ended 0 denied ∷ ended 0 denied ∷ [])).runs
    ≡ run_for_group "b" ∷ []
unfolding run group lookup insert get_group drain_group
last_runs = refl

step-IsValid_example : IsValid one_slot (step one_slot (ended 0 raised) (run one_slot busy))
step-IsValid_example =
    step-IsValid one_slot (ended 0 raised) (run one_slot busy) (run-IsValid one_slot busy)

run_in_progress_example : 1 ≤ length (run one_slot busy).runs
unfolding run group lookup insert get_group drain_group
run_in_progress_example = run_in_progress one_slot busy "b" (omega arith) refl refl

step-Moves_example :
    Moves one_slot
      (group (run one_slot busy).groups "a")
      (group (step one_slot (ended 0 raised) (run one_slot busy)).groups "a")
step-Moves_example =
    step-Moves one_slot (ended 0 raised) (run one_slot busy) (run-IsValid one_slot busy) "a"

retry_count-le-max_retries_example :
    (group (run one_slot (busy ++ ended 0 raised ∷ [])).groups "a").retry_count ≤ 2
retry_count-le-max_retries_example =
    retry_count-le-max_retries one_slot (busy ++ ended 0 raised ∷ []) "a"

pending_tasks_once_example : distinct (task_ids (group (run one_slot busy).groups "a")) ≡ true
pending_tasks_once_example = pending_tasks_once one_slot busy "a"

run_from-IsClosing_example :
    IsClosing
      (run one_slot (busy ++ shut ∷ []))
      (run_from one_slot (ended 0 raised ∷ message "c" ∷ []) (run one_slot (busy ++ shut ∷ [])))
unfolding run group lookup insert get_group drain_group shutdown
run_from-IsClosing_example =
    run_from-IsClosing one_slot (ended 0 raised ∷ message "c" ∷ [])
      (run one_slot (busy ++ shut ∷ [])) refl
