-- ===== src/Schedule/CronLaws.antt =====
-- One loop over the configured jobs in task_scheduler.py.
use pynchy.Base.{
  Bool, Bool-cases, Dict, Option, Option-cases, String, String-eq, Text, [], all, any, ap, arith,
  equal_refl, false, inl, inr, insert, leb, list-eq, lookup, lookup-insert, none, not, refl, some,
  sym, true, ℕ, ℕ-eq, ◌&&◌, ◌==◌, ◌||◌, ◌∙◌, ◌∷◌, ◌≡◌,
}
use pynchy.Delivery.Cursors.{text_lt}
use pynchy.Schedule.NextRun.{Calendar, NextRun, raises, at, compute_next_run}
use pynchy.Schedule.Calendar.{IsCalendar, NotYet, compute_next_run-NotYet, earlier-NotYet}
use pynchy.Schedule.Poll.{CronJob, CronState, cron_due, stored_or, cron_turn, poll_host_cron_jobs}

-- The next run that is kept for a job is after `now`.
abbrev pub waits_on : Text → Option Text → Bool
waits_on now none = false
waits_on now (some t) = text_lt now t

abbrev pub all_wait : Text → Dict String Text → Dict String CronJob → Bool
all_wait now next_runs jobs = all (λ p. not p.1.enabled || waits_on now (lookup p.0 next_runs)) jobs

cron_due-waits :
    (now : Text) (name k : String) (st : CronState) (due computed : NextRun)
    → NotYet now computed
    → ((name == k) || waits_on now (lookup k st.next_runs)) ≡ true
    → let after = cron_due now name st due computed in
      after.raised ≡ false → waits_on now (lookup k after.next_runs) ≡ true
cron_due-waits now name k st raises computed c h fine = cc
cron_due-waits now name k st (at none) computed c h fine = cc
cron_due-waits now name k st (at (some t)) raises c h fine = elim (Bool-cases (text_lt now t)) [
  | inl y ↦ ground (arith, y, h, lookup-insert name k t st.next_runs)
  | inr n ↦ ground (arith, n, fine)
]
cron_due-waits now name k st (at (some t)) (at none) c h fine = elim (Bool-cases (text_lt now t)) [
  | inl y ↦ ground (arith, y, h, lookup-insert name k t st.next_runs)
  | inr n ↦ ground (arith, n, fine)
]
cron_due-waits now name k st (at (some t)) (at (some u)) c h fine =
    elim (Bool-cases (text_lt now t)) [
      | inl y ↦ ground (arith, y, h, lookup-insert name k t st.next_runs)
      | inr n ↦ ground (
        arith,
        n,
        h,
        c,
        lookup-insert name k u (insert name t st.next_runs),
        lookup-insert name k t st.next_runs,
      )
    ]

cron_turn-waits :
    (now : Text) (name k : String) (job : CronJob) (computed : NextRun) (st : CronState)
    → NotYet now computed
    → ((job.enabled && (name == k)) || waits_on now (lookup k st.next_runs)) ≡ true
    → let after = cron_turn now name job computed st in
      after.raised ≡ false → waits_on now (lookup k after.next_runs) ≡ true
unfolding cron_turn
cron_turn-waits now name k job computed st c h = elim (Bool-cases job.enabled) [
  | inl y ↦ rw y (
      cron_due-waits now name k st (stored_or (lookup name st.next_runs) computed) computed c
        (ground (arith, h, y)))
  | inr n ↦ rw n (λ fine. ground (arith, h, n))
]

-- Some enabled job has the name.
abbrev is_job : String → Dict String CronJob → Bool
is_job k jobs = any (λ p. p.1.enabled && (p.0 == k)) jobs

module _ (cal : Calendar) (c : IsCalendar cal) (tz : String) (clock : String → ℕ) (now : ℕ)
    (late : (name : String) → leb now (clock name) ≡ true) where
  poll-waits :
      (jobs : Dict String CronJob) (k : String) (st : CronState)
      → (is_job k jobs || waits_on (cal.iso now) (lookup k st.next_runs)) ≡ true
      → let after = poll_host_cron_jobs cal tz clock now jobs st in
        after.raised ≡ false → waits_on (cal.iso now) (lookup k after.next_runs) ≡ true
  unfolding poll_host_cron_jobs
  poll-waits [] k st h = λ fine. h
  poll-waits ((name, job) ∷ jobs) k st h =
      let computed = compute_next_run cal tz "cron" job.schedule (clock name) in
      let after = cron_turn (cal.iso now) name job computed st in
      let soon =
        earlier-NotYet cal c now (clock name) computed (late name)
          (compute_next_run-NotYet cal c tz "cron" job.schedule (clock name)) in
      elim (Bool-cases after.raised) [
        | inl y ↦ rw y (λ fine. absurd (ground (arith, fine, y)))
        | inr n ↦ rw n (
            poll-waits jobs k after
              (elim (Bool-cases
                ((job.enabled && (name == k)) || waits_on (cal.iso now) (lookup k st.next_runs))) [
                  | inl w ↦
                      let waits = cron_turn-waits (cal.iso now) name k job computed st soon w n in
                      ground (arith, waits)
                  | inr m ↦ ground (arith, h, m)
                ]))
      ]

  all_jobs :
      (p : String → Bool) (jobs : Dict String CronJob)
      → ((k : String) → is_job k jobs ≡ true → p k ≡ true)
      → all (λ q. not q.1.enabled || p q.0) jobs ≡ true
  all_jobs p [] h = refl
  all_jobs p ((name, job) ∷ jobs) h =
      let rest = all_jobs p jobs (λ k y. h k (ground (arith, y))) in
      elim (Bool-cases job.enabled) [
        | inl y ↦
            let here : p name ≡ true = h name (ground (arith, y, equal_refl name)) in
            ground (arith, y, here, rest)
        | inr n ↦ ground (arith, n, rest)
      ]

  -- A job that waits is not started.
  turn_idle :
      (name : String) (job : CronJob) (computed : NextRun) (st : CronState) (k : String)
      → (not job.enabled || waits_on (cal.iso now) (lookup name st.next_runs)) ≡ true
      → let after = cron_turn (cal.iso now) name job computed st in
        (after.started ≡ st.started)
        × (after.raised ≡ st.raised)
        × (lookup k after.next_runs ≡ lookup k st.next_runs)
  unfolding cron_turn
  turn_idle name job computed st k h = elim (Bool-cases job.enabled) [
    | inr n ↦ rw n (refl, refl, refl)
    | inl y ↦ elim (Option-cases (lookup name st.next_runs)) [
      | inl e ↦ absurd (ground (arith, h, y, e))
      | inr (t, e) ↦
          let w : text_lt (cal.iso now) t ≡ true = ground (arith, h, y, e) in
          let same : lookup k (insert name t st.next_runs) ≡ lookup k st.next_runs =
            lookup-insert name k t st.next_runs ∙ elim (Bool-cases (name == k)) [
              | inl yk ↦
                  rw yk
                    (sym e ∙ ap (λ x. lookup x st.next_runs) ((String-eq.equal_iff name k).0 yk))
              | inr nk ↦ rw nk refl
            ] in
          rw (y, e, w) (refl, refl, same)
    ]
  ]

  all_wait-same :
      (a b : Dict String Text) (jobs : Dict String CronJob)
      → ((k : String) → lookup k a ≡ lookup k b)
      → all_wait (cal.iso now) a jobs ≡ all_wait (cal.iso now) b jobs
  all_wait-same a b [] h = refl
  all_wait-same a b ((name, job) ∷ jobs) h = ground (arith, h name, all_wait-same a b jobs h)

  poll_idle :
      (clock' : String → ℕ) (jobs : Dict String CronJob) (st : CronState)
      → all_wait (cal.iso now) st.next_runs jobs ≡ true
      → st.raised ≡ false
      → (poll_host_cron_jobs cal tz clock' now jobs st).started ≡ st.started
  unfolding poll_host_cron_jobs
  poll_idle clock' [] st h fine = refl
  poll_idle clock' ((name, job) ∷ jobs) st h fine =
      let computed = compute_next_run cal tz "cron" job.schedule (clock' name) in
      let after = cron_turn (cal.iso now) name job computed st in
      let here : (not job.enabled || waits_on (cal.iso now) (lookup name st.next_runs)) ≡ true =
        ground (arith, h) in
      let others : all_wait (cal.iso now) st.next_runs jobs ≡ true = ground (arith, h) in
      let idle = turn_idle name job computed st name here in
      rw (idle.1 ∙ fine) (
        poll_idle clock' jobs after
          (all_wait-same after.next_runs st.next_runs jobs
              (λ k. (turn_idle name job computed st k here).2)
            ∙ others)
          (idle.1 ∙ fine)
        ∙ idle.0)

  -- If no exception ends the loop over the configured jobs, then every enabled job's next run is
  -- after the time at which the loop began, so that a loop that begins at the same time again
  -- starts nothing. The loop comes to each job when it has begun.
  pub poll_host_cron_jobs_once :
      (clock' : String → ℕ) (jobs : Dict String CronJob) (st : CronState)
      → (poll_host_cron_jobs cal tz clock now jobs st).raised ≡ false
      → let after = poll_host_cron_jobs cal tz clock now jobs st in
        (all_wait (cal.iso now) after.next_runs jobs ≡ true)
        × ((poll_host_cron_jobs cal tz clock' now jobs after).started ≡ after.started)
  poll_host_cron_jobs_once clock' jobs st fine =
      let after = poll_host_cron_jobs cal tz clock now jobs st in
      let waits =
        all_jobs (λ k. waits_on (cal.iso now) (lookup k after.next_runs)) jobs
          (λ k y. poll-waits jobs k st (ground (arith, y)) fine) in
      (waits, poll_idle clock' jobs after waits fine)
