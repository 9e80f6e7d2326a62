-- ===== src/Schedule/NextRun.antt =====
-- `compute_next_run` of src/pynchy/utils.py, and of src/pynchy/host/container_manager/ipc/
-- handlers_tasks.py.
use pynchy.Base.{
  Bool, Option, String, String-eq, Text, [], codes, false, if◌then◌else◌, last, leb, list-eq, ltb,
  none, some, strip, true, ℕ, ℕ-eq, ◌&&◌, ◌*◌, ◌+◌, ◌-◌, ◌==◌, ◌∷◌,
}

-- The calendar. `iso` is the UTC `isoformat` of a time, which is a number of microseconds;
-- `cron_next zone expression now` what croniter gives as the next time, in the same format, or none
-- if it raises; `reformat` is `fromisoformat` followed by `isoformat`.
pub record Calendar : Type 0 where
  pub iso : ℕ → Text
  pub cron_next : String → String → ℕ → Option Text
  pub reformat : Text → Option Text

-- The next run, or an exception.
pub data NextRun : Type 0 where
  raises : NextRun
  at : Option Text → NextRun

-- The digits that are left, those before, and whether the last character was a digit.
unfoldable pub digits : Text → ℕ → Bool → Option ℕ
digits [] n last = if last then some n else none
digits (c ∷ t) n last =
    let taken = digits t (n * 10 + (c - 48)) true in
    let skipped = digits t n false in
    if leb 48 c && leb c 57 then taken else if (c == 95) && last then skipped else none

abbrev signed : Text → Option (Bool × ℕ)
signed [] = none
signed (c ∷ t) =
    if c == 45
    then (elim (digits t 0 false) [ none ↦ none | some n ↦ some (true, n) ])
    else elim (digits (if c == 43 then t else c ∷ t) 0 false) [
      | none ↦ none
      | some n ↦ some (false, n)
    ]

-- `int(s)`: whether there is a minus sign, and the number; the digits are those of ASCII.
unfoldable pub int_of : Text → Option (Bool × ℕ)
unfolding digits strip
int_of s = signed (strip s)

-- The first microsecond of the year 10000, which no `datetime` reaches: `fromtimestamp` raises.
abbrev pub end_of_time : ℕ
end_of_time = 253402300800000000

abbrev pub interval_next : Calendar → ℕ → Option (Bool × ℕ) → NextRun
interval_next cal now none = raises
interval_next cal now (some (true, ms)) = raises
interval_next cal now (some (false, ms)) =
    if ms == 0
    then raises
    else if ltb (now + ms * 1000) end_of_time
    then at (some (cal.iso (now + ms * 1000)))
    else raises

abbrev pub cron_result : Option Text → NextRun
cron_result none = raises
cron_result (some t) = at (some t)

unfoldable pub compute_next_run :
    Calendar → (timezone schedule_type schedule_value : String) → (now : ℕ) → NextRun
unfolding int_of
compute_next_run cal tz type value now =
    if type == "cron"
    then cron_result (cal.cron_next tz value now)
    else if type == "interval"
    then interval_next cal now (int_of (codes value))
    else at none

unfoldable pub compute_next_run_from_ipc :
    Calendar → (timezone schedule_type schedule_value : String) → (now : ℕ) → NextRun
unfolding compute_next_run
compute_next_run_from_ipc cal tz type value now =
    if type == "once"
    then cron_result (cal.reformat (codes value))
    else compute_next_run cal tz type value now
