-- ===== src/Schedule/AgentLaws.antt =====
-- What a scheduled task's run leaves in the tables.
use pynchy.Base.{
  Bool, Bool-cases, List, Option, String, String-eq, Text, [], all, ap, arith, contains, false, inl,
  inr, keep, length, length-append, list-eq, none, not, refl, some, subst, suc, true, ℕ, ℕ-eq, ◌&&◌,
  ◌++◌, ◌==◌, ◌||◌, ◌∙◌, ◌∷◌, ◌≡◌,
}
use pynchy.Schedule.Rows.{ScheduledTask, Db, update_where}
use pynchy.Schedule.NextRun.{Calendar, at, compute_next_run}
use pynchy.Schedule.Tasks.{
  has_come, is_due_task, task_after, update_task, update_task_after_run, log_task_run,
}
use pynchy.Schedule.Calendar.{IsCalendar, NotYet, compute_next_run-NotYet}
use pynchy.Schedule.Agent.{
  AgentRun, run_scheduled_agent, begin_run, end_run, progress_of, result_summary,
}

-- A property of every row with the id.
abbrev pub all_rows : String → (ScheduledTask → Bool) → List ScheduledTask → Bool
all_rows id p ts = all (λ t. not (t.id == id) || p t) ts

-- The rows with another id.
abbrev pub others : String → List ScheduledTask → List ScheduledTask
others id ts = keep (λ t. not (t.id == id)) ts

abbrev is_done : ScheduledTask → Bool
is_done t = t.status == "completed"

abbrev has_next : ScheduledTask → Bool
has_next t = elim t.next_run [ none ↦ false | some n ↦ true ]

-- What a run leaves a task in: not due, and completed or with a next run.
abbrev pub settled : Text → ScheduledTask → Bool
settled now t = not (is_due_task now t) && (is_done t || has_next t)

all_rows-update :
    (id : String) (p : ScheduledTask → Bool) (f : ScheduledTask → ScheduledTask)
    (ts : List ScheduledTask)
    → ((t : ScheduledTask) → (t.id == id) ≡ true → p (f t) ≡ true)
    → all_rows id p (update_where (λ t. t.id == id) f ts) ≡ true
all_rows-update id p f [] h = refl
all_rows-update id p f (t ∷ ts) h = elim (Bool-cases (t.id == id)) [
  | inl y ↦ rw y (ground (arith, h t y, all_rows-update id p f ts h))
  | inr n ↦ rw n (ground (arith, n, all_rows-update id p f ts h))
]

others-update :
    (id : String) (f : ScheduledTask → ScheduledTask) (ts : List ScheduledTask)
    → ((t : ScheduledTask) → (f t).id ≡ t.id)
    → others id (update_where (λ t. t.id == id) f ts) ≡ others id ts
others-update id f [] h = refl
others-update id f (t ∷ ts) h =
    let same : (f t).id ≡ t.id = h t in ground (arith, same, others-update id f ts h)

length-snoc {ℓ} : {A : Type ℓ} (xs : List A) (x : A) → length (xs ++ x ∷ []) ≡ suc (length xs)
length-snoc xs x = omega (arith, length-append xs (x ∷ []))

not_due :
    (now : Text) (t : ScheduledTask)
    → has_come now t.next_run ≡ false
    → not (is_due_task now t) ≡ true
not_due now t h = ground (arith, h)

module _ (cal : Calendar) (c : IsCalendar cal) (tz : String) (task : ScheduledTask)
    (started : ℕ) where
  -- Once the run has begun, no row of the task is due at the time at which it began.
  begun_not_due :
      (db : Db) (next : Option Text)
      → NotYet (cal.iso started) (at next)
      → (all_rows task.id
            (λ t. not (is_due_task (cal.iso started) t))
            (begin_run task next db).tasks
          ≡ true)
        × (others task.id (begin_run task next db).tasks ≡ others task.id db.tasks)
  unfolding update_task
  begun_not_due db next h = (
    all_rows-update task.id (λ t. not (is_due_task (cal.iso started) t)) _ db.tasks
        (λ t y. not_due (cal.iso started) (record t { next_run = next }) h),
    others-update task.id _ db.tasks (λ t. refl),
  )

  -- A run that is not left by an exception, of a task whose group is registered.
  module _ (run : AgentRun) (ended : ℕ) (db : Db) (next later : Option Text)
      (first : compute_next_run cal tz task.schedule_type task.schedule_value started ≡ at next)
      (second : compute_next_run cal tz task.schedule_type task.schedule_value ended ≡ at later)
      (known : contains task.group_folder run.folders ≡ true) where
    settled_after :
        (summary : Text) (t : ScheduledTask) (o : Option Text)
        → has_come (cal.iso ended) o ≡ false
        → settled (cal.iso ended) (task_after o (cal.iso ended) summary t) ≡ true
    settled_after summary t none h = ground arith
    settled_after summary t (some n) h = ground (arith, h)

    run_result :
        run_scheduled_agent cal tz task run started ended db
        ≡ end_run task
            (cal.iso ended)
            (progress_of run task.repo_access)
            (at later)
            (begin_run task next db)
    unfolding run_scheduled_agent
    run_result = rw (first, second, known) refl

    -- Nothing leaves the run. When it has begun the task is not due, so that the loop does not hand
    -- it to the queue again; when it has ended it is not due, and has a next run or is completed.
    -- The other tasks are as they were, and the run is logged once.
    pub run_scheduled_agent_settles :
        let after = run_scheduled_agent cal tz task run started ended db in
        (after.1 ≡ false)
        × (all_rows task.id
              (λ t. not (is_due_task (cal.iso started) t))
              (begin_run task next db).tasks
            ≡ true)
        × (all_rows task.id (settled (cal.iso ended)) after.0.tasks ≡ true)
        × (others task.id after.0.tasks ≡ others task.id db.tasks)
        × (length after.0.logs ≡ suc (length db.logs))
    unfolding update_task_after_run log_task_run update_task
    run_scheduled_agent_settles =
        let begun = begin_run task next db in
        let later_ok : NotYet (cal.iso ended) (at later) =
          subst (NotYet (cal.iso ended)) second
            (compute_next_run-NotYet cal c tz task.schedule_type task.schedule_value ended) in
        let next_ok : NotYet (cal.iso started) (at next) =
          subst (NotYet (cal.iso started)) first
            (compute_next_run-NotYet cal c tz task.schedule_type task.schedule_value started) in
        let summary = result_summary (progress_of run task.repo_access) in
        let start = begun_not_due db next next_ok in
        (
          ap (λ r. r.1) run_result,
          start.0,
          ap (λ r. all_rows task.id (settled (cal.iso ended)) r.0.tasks) run_result
              ∙ all_rows-update task.id (settled (cal.iso ended))
                  (task_after later (cal.iso ended) summary) begun.tasks
                  (λ t y. settled_after summary t later later_ok),
          ap (λ r. others task.id r.0.tasks) run_result
              ∙ others-update task.id (task_after later (cal.iso ended) summary) begun.tasks
                  (λ t. refl)
              ∙ start.1,
          ap (λ r. length r.0.logs) run_result ∙ length-snoc db.logs _,
        )
