-- ===== src/Schedule/Poll.antt =====
-- The jobs that the scheduler's loop runs on the host itself:
-- src/pynchy/host/orchestrator/task_scheduler.py.
use pynchy.Base.{
  Bool, Dict, List, Option, String, String-eq, Text, [], false, if◌then◌else◌, insert, list-eq,
  lookup, none, not, some, true, ℕ, ℕ-eq, ◌++◌, ◌∷◌,
}
use pynchy.Delivery.Cursors.{text_lt}
use pynchy.Schedule.Rows.{HostJob, Db}
use pynchy.Schedule.NextRun.{Calendar, NextRun, raises, at, compute_next_run}
use pynchy.Schedule.Jobs.{get_due_host_jobs, update_host_job_after_run}

-- `settings.cron_jobs`, by name.
pub record CronJob : Type 0 where
  pub schedule : String
  pub command : String
  pub cwd : Option String
  pub timeout_seconds : ℕ
  pub enabled : Bool

-- `_cron_job_next_runs`, the jobs whose command was run, and whether an exception has ended the loop.
pub record CronState : Type 0 where
  pub next_runs : Dict String Text
  pub started : List String
  pub raised : Bool

abbrev pub cron_after : String → CronState → NextRun → CronState
cron_after name st raises = record st { raised = true }
cron_after name st (at none) = record st { raised = true }
cron_after name st (at (some t)) = record st {
  next_runs = insert name t st.next_runs;
  started = st.started ++ name ∷ [];
}

-- `due` is the job's next run; `again` the one after it.
abbrev pub cron_due : Text → String → CronState → NextRun → NextRun → CronState
cron_due now name st raises again = record st { raised = true }
cron_due now name st (at none) again = record st { raised = true }
cron_due now name st (at (some t)) again =
    let noted = record st { next_runs = insert name t st.next_runs } in
    if text_lt now t then noted else cron_after name noted again

abbrev pub stored_or : Option Text → NextRun → NextRun
stored_or none computed = computed
stored_or (some t) computed = at (some t)

unfoldable pub cron_turn : Text → String → CronJob → NextRun → CronState → CronState
unfolding insert lookup
cron_turn now name job computed st =
    if not job.enabled
    then st
    else cron_due now name st (stored_or (lookup name st.next_runs) computed) computed

-- `clock` says when the loop comes to a job: a command takes its time.
unfoldable pub poll_host_cron_jobs :
    Calendar
    → (timezone : String) → (clock : String → ℕ) → (now : ℕ) → Dict String CronJob
    → CronState
    → CronState
unfolding cron_turn compute_next_run
poll_host_cron_jobs cal tz clock now [] st = st
poll_host_cron_jobs cal tz clock now ((name, job) ∷ jobs) st =
    let computed = compute_next_run cal tz "cron" job.schedule (clock name) in
    let after = cron_turn (cal.iso now) name job computed st in
    let rest = poll_host_cron_jobs cal tz clock now jobs after in
    if after.raised then after else rest

-- The database, the commands that were run, and whether an exception has ended the loop.
pub record JobState : Type 0 where
  pub db : Db
  pub started : List String
  pub raised : Bool

abbrev pub job_ran : String → ℕ → Text → JobState → NextRun → JobState
job_ran id code now st raises = record st { started = st.started ++ id ∷ []; raised = true }
job_ran id code now st (at next) = record st {
  db = update_host_job_after_run id next code now st.db;
  started = st.started ++ id ∷ [];
  raised = false;
}

-- `exit_code` is what comes of a command, 1 for none; `clock` the time at which it has ended.
unfoldable pub run_host_jobs :
    Calendar
    → (timezone : String) → (exit_code clock : HostJob → ℕ) → List HostJob
    → JobState
    → JobState
unfolding update_host_job_after_run compute_next_run
run_host_jobs cal tz exit_code clock [] st = st
run_host_jobs cal tz exit_code clock (j ∷ js) st =
    let next = compute_next_run cal tz j.schedule_type j.schedule_value (clock j) in
    let after = job_ran j.id (exit_code j) (cal.iso (clock j)) st next in
    let rest = run_host_jobs cal tz exit_code clock js after in if after.raised then after else rest

unfoldable pub poll_database_host_jobs :
    Calendar → (timezone : String) → (exit_code clock : HostJob → ℕ) → (now : ℕ) → Db → JobState
unfolding run_host_jobs get_due_host_jobs
poll_database_host_jobs cal tz exit_code clock now db =
    run_host_jobs cal tz exit_code clock (get_due_host_jobs (cal.iso now) db)
      (record { db = db; started = []; raised = false })
