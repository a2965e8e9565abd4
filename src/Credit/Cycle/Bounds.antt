-- ===== src/Credit/Cycle/Bounds.antt =====
-- The bounds and the day counts of a cycle of `src/foundry_router/credit.py`.
use foundry_router.Base.{
  ℕ, ◌+◌, ◌-◌, ◌*◌, ◌/◌, ◌≤◌, ◌<◌, ◌≡◌, ◌⊎◌, max, ◌∙◌, arith, nat_eq, nat_beq_iff,
}
use foundry_router.Credit.Cycle.{
  Date, Time, month_before, cycle_start, month_after, calculate_cycle_window, day_seconds,
}

-- Before in the calendar.
abbrev pub IsBefore : Date → Date → Type 0
IsBefore a b =
    (a.year < b.year)
    ⊎ ((a.year ≡ b.year) × ((a.month < b.month) ⊎ ((a.month ≡ b.month) × (a.day < b.day))))

abbrev pub IsDate : Date → Type 0
IsDate d = ((1 ≤ d.month) × (d.month ≤ 12)) × (1 ≤ d.year) × ((1 ≤ d.day) × (d.day ≤ 31))

-- The seconds of midnight of each date stand to those of `now` as the dates do.
abbrev pub IsCalendar : (Date → ℕ) → Time → Type 0
IsCalendar at now =
    (d : Date)
    → IsDate d
    → (IsBefore now.date d → now.seconds < at d) × ((IsBefore now.date d → ⊥) → at d ≤ now.seconds)

cycle_start-le : (d : Date) (start_day : ℕ) → IsDate d → IsBefore d (cycle_start d start_day) → ⊥
unfolding cycle_start month_before
cycle_start-le d start_day m h = ground (arith, nat_beq_iff d.month 1)

cycle_start-next :
    (d : Date) (start_day : ℕ) → IsDate d → IsBefore d (month_after (cycle_start d start_day))
unfolding cycle_start month_before month_after
cycle_start-next d start_day m =
    ground (arith, nat_beq_iff d.month 1, nat_beq_iff d.month 12, nat_beq_iff (d.month - 1) 12)

days_elapsed-bounds :
    (a n : ℕ)
    → a ≤ n
    → (a + (n - a) / day_seconds * day_seconds ≤ n)
      × (n < a + ((n - a) / day_seconds + 1) * day_seconds)
days_elapsed-bounds a n h = (omega arith, omega arith)

days_remaining-bounds :
    (b n : ℕ)
    → n < b
    → (b ≤ n + max 1 ((b - n + (day_seconds - 1)) / day_seconds) * day_seconds)
      × (n + max 1 ((b - n + (day_seconds - 1)) / day_seconds) * day_seconds < b + day_seconds)
days_remaining-bounds b n h = (omega arith, omega arith)

cycle_start-IsDate :
    (d : Date) (day : ℕ)
    → IsDate d
    → 1 < d.year
    → (1 ≤ day) × (day ≤ 28)
    → IsDate (cycle_start d day) × ((cycle_start d day).day ≡ day)
unfolding cycle_start month_before
cycle_start-IsDate d day m later on = (ground (arith, nat_beq_iff d.month 1), ground arith)

month_after-IsDate : (d : Date) → IsDate d → IsDate (month_after d) × ((month_after d).day ≡ d.day)
unfolding month_after
month_after-IsDate d m = (ground (arith, nat_beq_iff d.month 12), ground arith)

-- For a start day from 1 to 28 and a time whose seconds stand to midnight of each date as the
-- dates do, the window begins on a start day that is not after today and ends on one that is; the days that have elapsed have gone by in full, and no further one has; and with the
-- days that remain, at least one, its end is reached, and not with one day less.
pub calculate_cycle_window-bounds :
    (at : Date → ℕ) (now : Time) (start_day : ℕ)
    → IsDate now.date
    → 1 < now.date.year
    → (1 ≤ start_day) × (start_day ≤ 28)
    → IsCalendar at now
    → let w = calculate_cycle_window at now start_day in
      ((IsBefore now.date w.current_cycle_start → ⊥) × IsBefore now.date w.next_reset)
      × ((w.current_cycle_start.day ≡ start_day) × (w.next_reset.day ≡ start_day))
      × ((at w.current_cycle_start + w.days_elapsed * day_seconds ≤ now.seconds)
          × (now.seconds < at w.current_cycle_start + (w.days_elapsed + 1) * day_seconds))
      × ((at w.next_reset ≤ now.seconds + w.days_remaining * day_seconds)
          × (now.seconds + w.days_remaining * day_seconds < at w.next_reset + day_seconds))
      × (1 ≤ w.days_remaining)
unfolding calculate_cycle_window
calculate_cycle_window-bounds at now start_day m later on ordered =
    let start = cycle_start now.date start_day in
    let next = month_after start in
    let started = cycle_start-IsDate now.date start_day m later on in
    let ended = month_after-IsDate start started.0 in
    let not_after = cycle_start-le now.date start_day m in
    let before = cycle_start-next now.date start_day m in
    (
      (not_after, before),
      (started.1, ended.1 ∙ started.1),
      days_elapsed-bounds (at start) now.seconds ((ordered start started.0).1 not_after),
      days_remaining-bounds (at next) now.seconds ((ordered next ended.0).0 before),
      omega arith,
    )
