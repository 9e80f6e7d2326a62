-- ===== src/Schedule/Tasks.antt =====
-- src/pynchy/state/tasks.py
use pynchy.Base.{
  Bool, List, Option, String, String-eq, Text, [], any, false, if◌then◌else◌, keep, list-eq, none,
  not, some, sort_by, true, ℕ-eq, ◌&&◌, ◌++◌, ◌==◌, ◌∷◌,
}
use pynchy.Delivery.Cursors.{text_lt}
use pynchy.Schedule.Rows.{
  ScheduledTask, TaskRunLog, Db, Update, set_task, update_by_id, update_where, find,
}

-- `ids == …`: the primary key is taken (`none`: the statement raises).
unfoldable pub create_task : ScheduledTask → Db → Option Db
create_task task db =
    if any (λ t. t.id == task.id) db.tasks
    then none
    else some (record db { tasks = db.tasks ++ task ∷ [] })

unfoldable pub get_task_by_id : String → Db → Option ScheduledTask
get_task_by_id task_id db = find (λ t. t.id == task_id) db.tasks

-- ORDER BY created_at DESC
abbrev newest_first : ScheduledTask → ScheduledTask → Bool
newest_first s t = not (text_lt s.created_at t.created_at)

unfoldable pub get_tasks_for_group : String → Db → List ScheduledTask
get_tasks_for_group folder db = sort_by newest_first (keep (λ t. t.group_folder == folder) db.tasks)

unfoldable pub get_all_tasks : Db → List ScheduledTask
get_all_tasks db = sort_by newest_first db.tasks

unfoldable pub update_task : String → List Update → Db → Db
update_task task_id updates db = record db {
  tasks = update_by_id (λ t. t.id) set_task task_id updates db.tasks;
}

unfoldable pub delete_task : String → Db → Db
delete_task task_id db = record db {
  tasks = keep (λ t. not (t.id == task_id)) db.tasks;
  logs = keep (λ l. not (l.task_id == task_id)) db.logs;
}

unfoldable pub get_active_task_for_group : String → Db → Option ScheduledTask
get_active_task_for_group folder db =
    find (λ t. (t.group_folder == folder) && (t.status == "active")) db.tasks

-- `next_run IS NOT NULL AND next_run <= ?`
abbrev pub has_come : Text → Option Text → Bool
has_come now none = false
has_come now (some t) = not (text_lt now t)

abbrev pub is_due_task : Text → ScheduledTask → Bool
is_due_task now t = (t.status == "active") && has_come now t.next_run

abbrev pub run_order : Option Text → Option Text → Bool
run_order none o = true
run_order (some s) none = false
run_order (some s) (some t) = not (text_lt t s)

unfoldable pub get_due_tasks : Text → Db → List ScheduledTask
get_due_tasks now db =
    sort_by (λ s t. run_order s.next_run t.next_run) (keep (is_due_task now) db.tasks)

-- CASE WHEN ? IS NULL THEN 'completed' ELSE status END
abbrev pub status_after : Option Text → String → String
status_after none status = "completed"
status_after (some t) status = status

abbrev pub task_after : Option Text → Text → Text → ScheduledTask → ScheduledTask
task_after next now result t = record t {
  next_run = next;
  last_run = some now;
  last_result = some result;
  status = status_after next t.status;
}

unfoldable pub update_task_after_run : String → Option Text → Text → Text → Db → Db
update_task_after_run task_id next result now db = record db {
  tasks = update_where (λ t. t.id == task_id) (task_after next now result) db.tasks;
}

unfoldable pub log_task_run : TaskRunLog → Db → Db
log_task_run log db = record db { logs = db.logs ++ log ∷ [] }
