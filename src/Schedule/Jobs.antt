-- ===== src/Schedule/Jobs.antt =====
-- src/pynchy/state/host_jobs.py
use pynchy.Base.{
  Bool, List, Option, String, String-eq, Text, [], any, if◌then◌else◌, keep, list-eq, none, not,
  some, sort_by, ℕ, ℕ-eq, ◌&&◌, ◌++◌, ◌==◌, ◌||◌, ◌∷◌,
}
use pynchy.Delivery.Cursors.{text_lt}
use pynchy.Schedule.Rows.{HostJob, Db, Update, set_job, update_by_id, update_where, find}
use pynchy.Schedule.Tasks.{has_come, run_order, status_after}

-- The id and the name are unique (`none`: the statement raises).
unfoldable pub create_host_job : HostJob → Db → Option Db
create_host_job job db =
    if any (λ j. (j.id == job.id) || (j.name == job.name)) db.jobs
    then none
    else some (record db { jobs = db.jobs ++ job ∷ [] })

abbrev pub is_due_job : Text → HostJob → Bool
is_due_job now j = ((j.status == "active") && j.enabled) && has_come now j.next_run

unfoldable pub get_due_host_jobs : Text → Db → List HostJob
get_due_host_jobs now db =
    sort_by (λ i j. run_order i.next_run j.next_run) (keep (is_due_job now) db.jobs)

abbrev pub job_after : Option Text → Text → HostJob → HostJob
job_after next now j = record j {
  next_run = next;
  last_run = some now;
  status = status_after next j.status;
}

-- The exit code is not stored.
unfoldable pub update_host_job_after_run : String → Option Text → ℕ → Text → Db → Db
update_host_job_after_run job_id next exit_code now db = record db {
  jobs = update_where (λ j. j.id == job_id) (job_after next now) db.jobs;
}

unfoldable pub get_host_job_by_id : String → Db → Option HostJob
get_host_job_by_id job_id db = find (λ j. j.id == job_id) db.jobs

unfoldable pub get_host_job_by_name : String → Db → Option HostJob
get_host_job_by_name name db = find (λ j. j.name == name) db.jobs

unfoldable pub get_all_host_jobs : Db → List HostJob
get_all_host_jobs db = sort_by (λ i j. not (text_lt i.created_at j.created_at)) db.jobs

unfoldable pub update_host_job : String → List Update → Db → Db
update_host_job job_id updates db = record db {
  jobs = update_by_id (λ j. j.id) set_job job_id updates db.jobs;
}

unfoldable pub delete_host_job : String → Db → Db
delete_host_job job_id db = record db { jobs = keep (λ j. not (j.id == job_id)) db.jobs }
