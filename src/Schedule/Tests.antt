-- ===== src/Schedule/Tests.antt =====
-- Scheduled work at concrete inputs. A time's text has one character, and the cron jobs run every
-- minute.
use pynchy.Base.{
  Dict, String, String-eq, Text, [], any, ap, arith, codes, false, length, list-eq, map, none, not,
  or_else, refl, some, sym, true, ℕ, ℕ-eq, ◌+◌, ◌∙◌, ◌∷◌, ◌≡◌,
}
use pynchy.Delivery.Cursors.{text_lt}
use pynchy.Queue.State.{Settings, new_queue}
use pynchy.Queue.Invariant.{IsValid}
use pynchy.Queue.Runs.{new_queue-IsValid}
use pynchy.Schedule.Rows.{ScheduledTask, HostJob, Db, empty_db}
use pynchy.Schedule.NextRun.{
  Calendar, raises, at, int_of, compute_next_run, compute_next_run_from_ipc,
}
use pynchy.Schedule.Tasks.{get_due_tasks, is_due_task}
use pynchy.Schedule.Jobs.{is_due_job, get_due_host_jobs}
use pynchy.Schedule.Requests.{ScheduleRequest, Host, cancel}
use pynchy.Schedule.RequestLaws.{
  serve_request, schedule_task, act, Call, serve, serve_all, KeepsOthers, serve_isolates,
}
use pynchy.Schedule.Calendar.{IsCalendar}
use pynchy.Schedule.Poll.{CronJob, CronState, poll_host_cron_jobs, poll_database_host_jobs}
use pynchy.Schedule.PollLaws.{job_ids, poll_database_host_jobs_once}
use pynchy.Schedule.CronLaws.{all_wait, poll_host_cron_jobs_once}
use pynchy.Schedule.Agent.{
  AgentRun, answered, raised, begin_run, run_scheduled_agent, enqueue_due_tasks,
}
use pynchy.Schedule.AgentLaws.{all_rows, others, settled, run_scheduled_agent_settles}
use pynchy.Schedule.QueueLaws.{is_queued, enqueue_due_tasks_queues}

abbrev by_minutes : Calendar
by_minutes = record {
  iso = λ n. n ∷ [];
  cron_next = λ tz expression now. some ((now + 60) ∷ []);
  reformat = λ t. some t;
}

by_minutes-IsCalendar : IsCalendar by_minutes
by_minutes-IsCalendar = record {
  iso_later = λ a b h. ground (arith, h);
  cron_later = λ tz expression now t h.
      let later : text_lt (now ∷ []) ((now + 60) ∷ []) ≡ true = ground arith in
      ap (λ o. text_lt (now ∷ []) (or_else o [])) (sym h) ∙ later;
}

int_spaces : int_of (codes " +1_000 ") ≡ some (false, 1000)
unfolding int_of
int_spaces = refl

int_words : int_of (codes "1__0") ≡ none
unfolding int_of
int_words = refl

interval_zero : compute_next_run by_minutes "UTC" "interval" "0" 5 ≡ raises
unfolding compute_next_run
interval_zero = refl

interval_second : compute_next_run by_minutes "UTC" "interval" "1" 5 ≡ at (some (1005 ∷ []))
unfolding compute_next_run
interval_second = refl

-- The time of a task that runs once is kept as it is given, with its own offset from UTC or none.
once_as_given :
    compute_next_run_from_ipc by_minutes "UTC" "once" "2026-03-01T09:00:00+09:00" 5
    ≡ at (some (codes "2026-03-01T09:00:00+09:00"))
unfolding compute_next_run_from_ipc
once_as_given = refl

abbrev task_of : String → String → String → Text → ScheduledTask
task_of id folder type next = record {
  id = id;
  group_folder = folder;
  chat_jid = "tui:1";
  prompt = "report";
  schedule_type = type;
  schedule_value = "1";
  context_mode = "isolated";
  next_run = some next;
  last_run = none;
  last_result = none;
  status = "active";
  created_at = [];
  repo_access = none;
}

abbrev job_of : String → Text → HostJob
job_of id next = record {
  id = id;
  name = id;
  command = "true";
  schedule_type = "interval";
  schedule_value = "1";
  created_by = "main";
  next_run = some next;
  last_run = none;
  status = "active";
  created_at = [];
  cwd = none;
  timeout_seconds = 600;
  enabled = true;
}

abbrev some_db : Db
some_db = record {
  tasks = task_of "t1" "main" "once" (4 ∷ []) ∷ task_of "t2" "work" "interval" (9 ∷ []) ∷ [];
  logs = [];
  jobs = job_of "host-1" (3 ∷ []) ∷ job_of "host-2" (2 ∷ []) ∷ [];
}

-- The loop comes to every job at 7.
poll_database_host_jobs_once_example :
    let after = poll_database_host_jobs by_minutes "UTC" (λ j. 0) (λ j. 7) 5 some_db in
    (any (is_due_job (5 ∷ [])) after.db.jobs ≡ false)
    × (after.started ≡ job_ids (get_due_host_jobs (5 ∷ []) some_db))
unfolding poll_database_host_jobs
poll_database_host_jobs_once_example =
    poll_database_host_jobs_once by_minutes by_minutes-IsCalendar "UTC" (λ j. 0) (λ j. 7) 5 some_db
      (λ j. refl) refl

host_jobs_in_order :
    (poll_database_host_jobs by_minutes "UTC" (λ j. 0) (λ j. 7) 5 some_db).started
    ≡ "host-2" ∷ "host-1" ∷ []
unfolding poll_database_host_jobs
host_jobs_in_order = refl

abbrev backup_job : CronJob
backup_job = record {
  schedule = "* * * * *";
  command = "backup";
  cwd = none;
  timeout_seconds = 600;
  enabled = true;
}

abbrev backup_due : CronState
backup_due = record { next_runs = ("backup", 4 ∷ []) ∷ []; started = []; raised = false }

poll_host_cron_jobs_once_example :
    let jobs : Dict String CronJob = ("backup", backup_job) ∷ [] in
    let after = poll_host_cron_jobs by_minutes "UTC" (λ n. 6) 5 jobs backup_due in
    (all_wait (5 ∷ []) after.next_runs jobs ≡ true)
    × ((poll_host_cron_jobs by_minutes "UTC" (λ n. 8) 5 jobs after).started ≡ after.started)
unfolding poll_host_cron_jobs
poll_host_cron_jobs_once_example =
    poll_host_cron_jobs_once by_minutes by_minutes-IsCalendar "UTC" (λ n. 6) 5 (λ n. refl) (λ n. 8)
      (("backup", backup_job) ∷ []) backup_due refl

backup_started :
    (poll_host_cron_jobs by_minutes "UTC"
      (λ n. 6)
      5
      (("backup", backup_job) ∷ [])
      backup_due).started
    ≡ "backup" ∷ []
unfolding poll_host_cron_jobs
backup_started = refl

abbrev good_run : AgentRun
good_run = record {
  outputs = record { status = "success"; result = some (codes "done"); error = none } ∷ [];
  ending = answered "success";
  merge = none;
  folders = "main" ∷ [];
}

abbrev once_task : ScheduledTask
once_task = task_of "t1" "main" "once" (4 ∷ [])

once_none : (now : ℕ) → compute_next_run by_minutes "UTC" "once" "1" now ≡ at none
unfolding compute_next_run
once_none now = refl

run_scheduled_agent_settles_example :
    let after = run_scheduled_agent by_minutes "UTC" once_task good_run 5 8 some_db in
    (after.1 ≡ false)
    × (all_rows "t1" (λ t. not (is_due_task (5 ∷ []) t)) (begin_run once_task none some_db).tasks
        ≡ true)
    × (all_rows "t1" (settled (8 ∷ [])) after.0.tasks ≡ true)
    × (others "t1" after.0.tasks ≡ others "t1" some_db.tasks)
    × (length after.0.logs ≡ 1)
run_scheduled_agent_settles_example =
    run_scheduled_agent_settles by_minutes by_minutes-IsCalendar "UTC" once_task 5 good_run 8
      some_db none none (once_none 5) (once_none 8) refl

-- A run that ends in an exception without a text is logged as a success.
silent_exception :
    map
      (λ l. l.status)
      (run_scheduled_agent by_minutes "UTC" once_task
        (record good_run { ending = raised [] })
        5
        8
        some_db).0.logs
    ≡ "success" ∷ []
unfolding run_scheduled_agent
silent_exception = refl

abbrev queue_settings : Settings
queue_settings = record { max_concurrent = 2; max_retries = 3; base_retry_seconds = 5 }

enqueue_due_tasks_queues_example :
    let after =
      enqueue_due_tasks queue_settings
        (λ t. 1)
        (λ id. some once_task)
        (get_due_tasks (5 ∷ []) some_db)
        new_queue in
    IsValid queue_settings after × (is_queued "tui:1" "t1" after ≡ true)
enqueue_due_tasks_queues_example =
    enqueue_due_tasks_queues queue_settings (λ t. 1) (λ id. some once_task) (5 ∷ []) some_db
      new_queue "t1" once_task refl (new_queue-IsValid queue_settings) refl refl refl

abbrev task_host : Host
task_host = record {
  calendar = by_minutes;
  timezone = "UTC";
  now = 5;
  new_id = "task-1";
  workspaces = ("tui:1", "main") ∷ ("tui:2", "work") ∷ [];
  verdict = record { flagged = false; reason = "" };
}

abbrev report_request : ScheduleRequest
report_request = record {
  cop_approved = false;
  prompt = some "report";
  name = none;
  command = none;
  schedule_type = some "interval";
  schedule_value = some "1";
  target_group = some "main";
  context_mode = none;
  cwd = none;
  timeout_seconds = none;
}

abbrev main_call : Call
main_call = record {
  host = task_host;
  source_group = "main";
  is_admin = false;
  request = schedule_task report_request;
}

-- Another group would cancel the task.
abbrev work_call : Call
work_call = record {
  host = task_host;
  source_group = "work";
  is_admin = false;
  request = act cancel (some "task-1");
}

serve_isolates_example :
    KeepsOthers "work"
      (serve_all (main_call ∷ []) empty_db)
      (serve work_call (serve_all (main_call ∷ []) empty_db))
serve_isolates_example = serve_isolates (main_call ∷ []) work_call refl

task_stays : length (serve work_call (serve main_call empty_db)).tasks ≡ 1
unfolding serve_request
task_stays = refl
