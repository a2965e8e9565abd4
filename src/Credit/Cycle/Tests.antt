-- ===== src/Credit/Cycle/Tests.antt =====
-- Runs of the cycle window of `src/foundry_router/credit.py`.
use foundry_router.Base.{ℕ, ◌+◌, ◌*◌, ◌≤◌, ◌<◌, ◌≡◌, refl, arith}
use foundry_router.Credit.Cycle.{
  Date, Time, cycle_start, month_before, calculate_cycle_window, day_seconds,
}
use foundry_router.Credit.Cycle.Bounds.{IsBefore, IsCalendar, calculate_cycle_window-bounds}

-- Days counted with thirty-one to a month keep the order of the calendar.
abbrev day_count : Date → ℕ
day_count d = ((d.year * 12 + d.month) * 31 + d.day) * 86400

abbrev new_year : Time
new_year = record {
  date = record { year = 2026; month = 1; day = 5 };
  seconds = ((2026 * 12 + 1) * 31 + 5) * 86400 + 43200;
}

last_month : cycle_start new_year.date 10 ≡ record { year = 2025; month = 12; day = 10 }
unfolding cycle_start month_before
last_month = refl

abbrev new_year-IsCalendar : IsCalendar day_count new_year
new_year-IsCalendar d v = ((λ h. ground arith), (λ h. ground arith))

calculate_cycle_window-bounds_example :
    let w = calculate_cycle_window day_count new_year 10 in
    ((IsBefore new_year.date w.current_cycle_start → ⊥) × IsBefore new_year.date w.next_reset)
    × ((w.current_cycle_start.day ≡ 10) × (w.next_reset.day ≡ 10))
    × ((day_count w.current_cycle_start + w.days_elapsed * day_seconds ≤ new_year.seconds)
        × (new_year.seconds < day_count w.current_cycle_start + (w.days_elapsed + 1) * day_seconds))
    × ((day_count w.next_reset ≤ new_year.seconds + w.days_remaining * day_seconds)
        × (new_year.seconds + w.days_remaining * day_seconds
            < day_count w.next_reset + day_seconds))
    × (1 ≤ w.days_remaining)
calculate_cycle_window-bounds_example =
    calculate_cycle_window-bounds day_count new_year 10
      ((omega arith, omega arith), omega arith, (omega arith, omega arith)) (omega arith)
      (omega arith, omega arith) new_year-IsCalendar
