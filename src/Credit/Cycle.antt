-- ===== src/Credit/Cycle.antt =====
-- `calculate_cycle_window` of `src/foundry_router/credit.py`. The arithmetic of `datetime` is an
-- argument: `at` gives the seconds from a fixed time to midnight UTC of a date.
pub mod Bounds
mod Tests
use foundry_router.Base.{
  ℕ, suc, ◌+◌, ◌-◌, ◌*◌, ◌/◌, max, Bool, true, false, ◌&&◌, ◌||◌, ltb, leb, ◌==◌, nat_eq,
  if◌then◌else◌,
}

abbrev pub day_seconds : ℕ
day_seconds = 86400

pub record Date : Type 0 where
  pub year : ℕ
  pub month : ℕ
  pub day : ℕ

-- A time in UTC: its date, and the same in seconds.
pub record Time : Type 0 where
  pub date : Date
  pub seconds : ℕ

pub record CycleWindow : Type 0 where
  pub current_cycle_start : Date
  pub next_reset : Date
  pub days_elapsed : ℕ
  pub days_remaining : ℕ

-- The month before, at this day.
unfoldable pub month_before : Date → ℕ → Date
month_before d day =
    if d.month == 1
    then record { year = d.year - 1; month = 12; day = day }
    else record { year = d.year; month = d.month - 1; day = day }

unfoldable pub cycle_start : Date → ℕ → Date
unfolding month_before
cycle_start d start_day =
    if leb start_day d.day
    then record { year = d.year; month = d.month; day = start_day }
    else month_before d start_day

-- The same day of the month after.
unfoldable pub month_after : Date → Date
month_after d =
    if d.month == 12
    then record { year = d.year + 1; month = 1; day = d.day }
    else record { year = d.year; month = d.month + 1; day = d.day }

unfoldable pub calculate_cycle_window : (Date → ℕ) → Time → ℕ → CycleWindow
unfolding cycle_start month_after
calculate_cycle_window at now start_day =
    let start = cycle_start now.date start_day in
    let next = month_after start in
    record {
      current_cycle_start = start;
      next_reset = next;
      days_elapsed = (now.seconds - at start) / day_seconds;
      days_remaining = max 1 ((at next - now.seconds + (day_seconds - 1)) / day_seconds);
    }
