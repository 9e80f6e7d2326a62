-- ===== src/Schedule/PollLaws.antt =====
-- One loop over the host jobs of the database in task_scheduler.py.
use pynchy.Base.{
  Bool, Bool-cases, List, Option, String, String-eq, Text, [], all, any, any-sort_by, ap,
  append_assoc, append_nil, arith, contains, equal_refl, false, if◌then◌else◌, inl, inr, keep, leb,
  list-eq, map, not, refl, sym, true, ℕ, ℕ-eq, ◌++◌, ◌==◌, ◌||◌, ◌∙◌, ◌∷◌, ◌≡◌,
}
use pynchy.Schedule.Rows.{HostJob, Db, update_where}
use pynchy.Schedule.NextRun.{Calendar, NextRun, raises, at, compute_next_run}
use pynchy.Schedule.Tasks.{has_come}
use pynchy.Schedule.Jobs.{is_due_job, job_after, get_due_host_jobs, update_host_job_after_run}
use pynchy.Schedule.Calendar.{IsCalendar, NotYet, compute_next_run-NotYet, earlier-NotYet}
use pynchy.Schedule.Poll.{JobState, job_ran, run_host_jobs, poll_database_host_jobs}

abbrev pub job_ids : List HostJob → List String
job_ids = map (λ j. j.id)

-- Every job that is due is one of those named.
abbrev all_due_in : Text → List String → List HostJob → Bool
all_due_in now ids js = all (λ j. not (is_due_job now j) || contains j.id ids) js

due_update :
    (now : Text) (id : String) (ids : List String) (next : Option Text) (ended : Text)
    (js : List HostJob)
    → has_come now next ≡ false
    → all_due_in now (id ∷ ids) js ≡ true
    → all_due_in now ids (update_where (λ j. j.id == id) (job_after next ended) js) ≡ true
due_update now id ids next ended [] h k = refl
due_update now id ids next ended (j ∷ js) h k = elim (Bool-cases (j.id == id)) [
  | inl y ↦ rw y (ground (arith, k, y, h, due_update now id ids next ended js h))
  | inr n ↦
      let m : (id == j.id) ≡ false =
        ground (arith, n, String-eq.equal_iff j.id id, String-eq.equal_iff id j.id) in
      ground (arith, k, n, m, due_update now id ids next ended js h)
]

-- What is left to run, after a loop over some of the due jobs.
run_host_jobs-due :
    (cal : Calendar) (c : IsCalendar cal) (tz : String) (exit_code clock : HostJob → ℕ) (now : ℕ)
    (js : List HostJob) (st : JobState)
    → ((j : HostJob) → leb now (clock j) ≡ true)
    → all_due_in (cal.iso now) (job_ids js) st.db.jobs ≡ true
    → let after = run_host_jobs cal tz exit_code clock js st in
      after.raised ≡ false
      → (all_due_in (cal.iso now) [] after.db.jobs ≡ true)
        × (after.started ≡ st.started ++ job_ids js)
unfolding run_host_jobs update_host_job_after_run
run_host_jobs-due cal c tz exit_code clock now [] st late due fine =
    (due, sym (append_nil st.started))
run_host_jobs-due cal c tz exit_code clock now (j ∷ js) st late due fine =
    go (compute_next_run cal tz j.schedule_type j.schedule_value (clock j))
      (compute_next_run-NotYet cal c tz j.schedule_type j.schedule_value (clock j))
      (λ st'. run_host_jobs-due cal c tz exit_code clock now js st' late) fine
  where
    go :
        (next : NextRun)
        → NotYet (cal.iso (clock j)) next
        → ((st' : JobState)
            → all_due_in (cal.iso now) (job_ids js) st'.db.jobs ≡ true
            → let after = run_host_jobs cal tz exit_code clock js st' in
              after.raised ≡ false
              → (all_due_in (cal.iso now) [] after.db.jobs ≡ true)
                × (after.started ≡ st'.started ++ job_ids js))
        → let here = job_ran j.id (exit_code j) (cal.iso (clock j)) st next in
          let after = if here.raised then here else run_host_jobs cal tz exit_code clock js here in
          after.raised ≡ false
          → (all_due_in (cal.iso now) [] after.db.jobs ≡ true)
            × (after.started ≡ st.started ++ job_ids (j ∷ js))
    go raises ny ih fine = cc
    go (at next) ny ih fine =
        let soon = earlier-NotYet cal c now (clock j) (at next) (late j) ny in
        let here = job_ran j.id (exit_code j) (cal.iso (clock j)) st (at next) in
        let rest =
          ih here (due_update (cal.iso now) j.id (job_ids js) next _ st.db.jobs soon due) fine in
        (rest.0, rest.1 ∙ append_assoc st.started (j.id ∷ []) (job_ids js))

keep-contained :
    (p : HostJob → Bool) (ids : List String) (js : List HostJob)
    → ((x : String) → any (λ i. i.id == x) (keep p js) ≡ true → contains x ids ≡ true)
    → all (λ j. not (p j) || contains j.id ids) js ≡ true
keep-contained p ids [] h = refl
keep-contained p ids (j ∷ js) h = elim (Bool-cases (p j)) [
  | inl y ↦
      let here : contains j.id ids ≡ true = h j.id (ground (arith, y, equal_refl j.id)) in
      let rest = keep-contained p ids js (λ x k. h x (ground (arith, y, k))) in
      ground (arith, y, here, rest)
  | inr n ↦
      let rest = keep-contained p ids js (λ x k. h x (ground (arith, n, k))) in
      ground (arith, n, rest)
]

contains-ids : (x : String) (js : List HostJob) → any (λ i. i.id == x) js ≡ contains x (job_ids js)
contains-ids x [] = refl
contains-ids x (j ∷ js) = ap (λ b. (j.id == x) || b) (contains-ids x js)

not_any :
    (now : Text) (js : List HostJob) → all_due_in now [] js ≡ true → any (is_due_job now) js ≡ false
not_any now [] h = refl
not_any now (j ∷ js) h = ground (arith, h, not_any now js)

-- If no exception ends the loop over the host jobs of the database, every job that was due has run,
-- in the order of the times at which they were due, and no job is due any more at the time at which
-- the loop began. A command ends after the loop has begun.
pub poll_database_host_jobs_once :
    (cal : Calendar) (c : IsCalendar cal) (tz : String) (exit_code clock : HostJob → ℕ) (now : ℕ)
    (db : Db)
    → ((j : HostJob) → leb now (clock j) ≡ true)
    → (poll_database_host_jobs cal tz exit_code clock now db).raised ≡ false
    → let after = poll_database_host_jobs cal tz exit_code clock now db in
      (any (is_due_job (cal.iso now)) after.db.jobs ≡ false)
      × (after.started ≡ job_ids (get_due_host_jobs (cal.iso now) db))
unfolding poll_database_host_jobs get_due_host_jobs
poll_database_host_jobs_once cal c tz exit_code clock now db late fine =
    let due =
      keep-contained (is_due_job (cal.iso now)) (job_ids (get_due_host_jobs (cal.iso now) db))
        db.jobs
        (λ x k.
          sym (contains-ids x (get_due_host_jobs (cal.iso now) db))
          ∙ any-sort_by _ (λ i. i.id == x) (keep (is_due_job (cal.iso now)) db.jobs)
          ∙ k) in
    let r =
      run_host_jobs-due cal c tz exit_code clock now (get_due_host_jobs (cal.iso now) db) _ late due
        fine in
    (not_any (cal.iso now) (poll_database_host_jobs cal tz exit_code clock now db).db.jobs r.0, r.1)
