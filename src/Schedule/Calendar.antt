-- ===== src/Schedule/Calendar.antt =====
-- What the scheduler relies on of times and of croniter.
use pynchy.Base.{
  Bool, Bool-cases, Option, String, String-eq, Text, ap, arith, codes, false, if_cases, inl, inr,
  leb, list-eq, ltb, none, not, refl, some, true, ℕ, ℕ-eq, ◌*◌, ◌+◌, ◌==◌, ◌∙◌, ◌≡◌,
}
use pynchy.Delivery.Cursors.{text_lt}
use pynchy.Delivery.CursorLaws.{text_lt_asym, text_lt_irrefl, text_lt_trans}
use pynchy.Schedule.NextRun.{
  Calendar, NextRun, raises, at, compute_next_run, int_of, end_of_time, interval_next, cron_result,
}
use pynchy.Schedule.Tasks.{has_come}

-- A later time has a later text, and croniter's next time is after the one it starts from.
pub record IsCalendar (cal : Calendar) : Type 0 where
  pub iso_later : (a b : ℕ) → ltb a b ≡ true → text_lt (cal.iso a) (cal.iso b) ≡ true
  pub cron_later :
      (timezone expression : String) (now : ℕ) (t : Text)
      → cal.cron_next timezone expression now ≡ some t
      → text_lt (cal.iso now) t ≡ true

-- A next run that is a later time than `now`.
abbrev pub NotYet : Text → NextRun → Type 0
NotYet now raises = Unit {0}
NotYet now (at next) = has_come now next ≡ false

module _ (cal : Calendar) (c : IsCalendar cal) where
  interval-NotYet :
      (now : ℕ) (ms : Option (Bool × ℕ)) → NotYet (cal.iso now) (interval_next cal now ms)
  interval-NotYet now none = tt
  interval-NotYet now (some (true, ms)) = tt
  interval-NotYet now (some (false, ms)) =
      if_cases (NotYet (cal.iso now)) (ms == 0) (λ y. tt)
        (λ n.
          let late : ltb now (now + ms * 1000) ≡ true = ground (arith, n) in
          if_cases (NotYet (cal.iso now)) (ltb (now + ms * 1000) end_of_time)
            (λ y. ap not (c.iso_later now (now + ms * 1000) late)) (λ n. tt))

  cron-NotYet :
      (tz value : String) (now : ℕ) (o : Option Text)
      → cal.cron_next tz value now ≡ o
      → NotYet (cal.iso now) (cron_result o)
  cron-NotYet tz value now none h = tt
  cron-NotYet tz value now (some t) h = ap not (c.cron_later tz value now t h)

  pub compute_next_run-NotYet :
      (tz type value : String) (now : ℕ)
      → NotYet (cal.iso now) (compute_next_run cal tz type value now)
  unfolding compute_next_run
  compute_next_run-NotYet tz type value now =
      if_cases (NotYet (cal.iso now)) (type == "cron") (λ y. cron-NotYet tz value now _ refl)
        (λ n.
          if_cases (NotYet (cal.iso now)) (type == "interval")
            (λ y. interval-NotYet now (int_of (codes value))) (λ n. refl))

  iso_not_before : (a b : ℕ) → leb a b ≡ true → text_lt (cal.iso b) (cal.iso a) ≡ false
  iso_not_before a b h = elim (Bool-cases (ltb a b)) [
    | inl y ↦ text_lt_asym (cal.iso a) (cal.iso b) (c.iso_later a b y)
    | inr n ↦
        let same : a ≡ b = ground (arith, h, n) in
        ap (λ x. text_lt (cal.iso b) (cal.iso x)) same ∙ text_lt_irrefl (cal.iso b)
  ]

  -- What has not come at a time had not come before.
  earlier :
      (a b : ℕ) (next : Option Text)
      → leb a b ≡ true
      → has_come (cal.iso b) next ≡ false
      → has_come (cal.iso a) next ≡ false
  earlier a b none h k = refl
  earlier a b (some t) h k = elim (Bool-cases (text_lt (cal.iso a) t)) [
    | inl y ↦ ap not y
    | inr n ↦
        let never = text_lt_trans t (cal.iso a) (cal.iso b) n (iso_not_before a b h) in
        ground (arith, k, never)
  ]

  pub earlier-NotYet :
      (a b : ℕ) (next : NextRun)
      → leb a b ≡ true
      → NotYet (cal.iso b) next
      → NotYet (cal.iso a) next
  earlier-NotYet a b raises h k = tt
  earlier-NotYet a b (at next) h k = earlier a b next h k
