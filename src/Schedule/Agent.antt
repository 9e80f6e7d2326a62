-- ===== src/Schedule/Agent.antt =====
-- A scheduled task's run, and the part of the loop that hands the tasks to the group queue:
-- src/pynchy/host/orchestrator/task_scheduler.py.
use pynchy.Base.{
  Bool, List, Option, String, String-eq, Text, [], codes, contains, false, if◌then◌else◌, is_empty,
  list-eq, none, not, some, take, true, ℕ, ℕ-eq, ◌&&◌, ◌++◌, ◌==◌, ◌∷◌,
}
use pynchy.Queue.State.{GroupQueue, Settings}
use pynchy.Queue.Enqueue.{enqueue_task}
use pynchy.Security.Service.{truthy}
use pynchy.Schedule.Rows.{ScheduledTask, TaskRunLog, Db, Update}
use pynchy.Schedule.NextRun.{Calendar, NextRun, raises, at, compute_next_run}
use pynchy.Schedule.Tasks.{update_task, update_task_after_run, log_task_run}

-- What the run reads of a ContainerOutput.
pub record Streamed : Type 0 where
  pub status : String
  pub result : Option Text
  pub error : Option Text

-- How `run_agent` ends: an answer, or an exception's text.
pub data AgentEnd : Type 0 where
  answered : String → AgentEnd
  raised : Text → AgentEnd

-- What the run meets: its output, its end, what comes of the merge of the worktree (an exception's
-- text, or nothing), and the folders of the registered groups.
pub record AgentRun : Type 0 where
  pub outputs : List Streamed
  pub ending : AgentEnd
  pub merge : Option Text
  pub folders : List String

-- A text that is there and not empty.
abbrev pub is_full : Option Text → Bool
is_full none = false
is_full (some t) = not (is_empty t)

-- `result` and `error` of `_run_scheduled_agent`.
pub record Progress : Type 0 where
  pub result : Option Text
  pub error : Option Text

abbrev on_output : Progress → Streamed → Progress
on_output p s = record {
  result = if is_full s.result then s.result else p.result;
  error =
      if s.status == "error"
      then (if is_full s.error then s.error else some (codes "Unknown error"))
      else p.error;
}

abbrev pub on_outputs : Progress → List Streamed → Progress
on_outputs p [] = p
on_outputs p (s ∷ ss) = on_outputs (on_output p s) ss

-- The merge of the worktree, with the exception that it may end in.
abbrev merge_error : Option Text → Option Text → Option Text
merge_error none error = error
merge_error (some e) error = some e

abbrev merged : Option Text → Option String → Progress → Progress
merged merge repo_access p =
    if not (is_full p.error) && truthy repo_access
    then record p { error = merge_error merge p.error }
    else p

abbrev after_agent : AgentRun → Option String → Progress → AgentEnd → Progress
after_agent run repo_access p (raised e) = record p { error = some e }
after_agent run repo_access p (answered a) = merged run.merge repo_access (record p {
  error =
      if (a == "error") && not (is_full p.error)
      then some (codes "Agent returned error")
      else p.error;
})

unfoldable pub progress_of : AgentRun → Option String → Progress
progress_of run repo_access =
    after_agent run repo_access (on_outputs (record { result = none; error = none }) run.outputs)
      run.ending

abbrev text_or : Option Text → Text → Text
text_or none t = t
text_or (some s) t = s

abbrev pub result_summary : Progress → Text
result_summary p =
    if is_full p.error
    then codes "Error: " ++ text_or p.error []
    else if is_full p.result
    then take 200 (text_or p.result [])
    else codes "Completed"

abbrev pub status_of : Progress → String
status_of p = if is_full p.error then "error" else "success"

-- The next run is written before the agent is started.
abbrev pub begin_run : ScheduledTask → Option Text → Db → Db
begin_run task next db = update_task task.id (Update.next_run next ∷ []) db

abbrev pub log_of : ScheduledTask → Text → Progress → TaskRunLog
log_of task now p = record {
  task_id = task.id;
  run_at = now;
  status = status_of p;
  result = p.result;
  error = p.error;
}

-- The database, and whether an exception leaves the run.
abbrev pub end_run : ScheduledTask → Text → Progress → NextRun → Db → Db × Bool
end_run task now p raises db = (log_task_run (log_of task now p) db, true)
end_run task now p (at next) db = (
  update_task_after_run task.id next (result_summary p) now (log_task_run (log_of task now p) db),
  false,
)

abbrev no_group : ScheduledTask → Progress
no_group task = record {
  result = none;
  error = some (codes "Group not found: " ++ codes task.group_folder);
}

abbrev pub run_from : ScheduledTask → AgentRun → Text → NextRun → Db → NextRun → Db × Bool
run_from task run ended later db raises = (db, true)
run_from task run ended later db (at next) =
    let begun = begin_run task next db in
    if not (contains task.group_folder run.folders)
    then (log_task_run (log_of task ended (no_group task)) begun, false)
    else end_run task ended (progress_of run task.repo_access) later begun

-- From `started` to `ended`.
unfoldable pub run_scheduled_agent :
    Calendar → (timezone : String) → ScheduledTask → AgentRun → (started ended : ℕ) → Db → Db × Bool
unfolding compute_next_run update_task log_task_run update_task_after_run progress_of
run_scheduled_agent cal tz task run started ended db =
    run_from task run (cal.iso ended)
      (compute_next_run cal tz task.schedule_type task.schedule_value ended) db
      (compute_next_run cal tz task.schedule_type task.schedule_value started)

-- `current` is what `get_task_by_id` answers when the loop comes to a task; `fn` its runner.
abbrev pub enqueue_current :
    Settings → (ScheduledTask → ℕ) → Option ScheduledTask → GroupQueue → GroupQueue
enqueue_current cfg fn none q = q
enqueue_current cfg fn (some t) q =
    if not (t.status == "active") then q else enqueue_task cfg t.chat_jid t.id (fn t) q

unfoldable pub enqueue_due_tasks :
    Settings
    → (ScheduledTask → ℕ)
    → (current : String → Option ScheduledTask) → List ScheduledTask
    → GroupQueue
    → GroupQueue
unfolding enqueue_task
enqueue_due_tasks cfg fn current [] q = q
enqueue_due_tasks cfg fn current (t ∷ ts) q =
    enqueue_due_tasks cfg fn current ts (enqueue_current cfg fn (current t.id) q)
