-- ===== src/KraTasks/Periods.antt =====
-- app/services/kra_task_service.py, `period_for` and `periods_newest_first`.
pub mod Tiling
pub mod Newest
use ski_tech_backend.Base.{
  ℕ, zero, suc, ◌+◌, ◌-◌, ◌*◌, ◌/◌, Bool, true, false, List, [], ◌∷◌, leb, ltb, if◌then◌else◌,
}
use ski_tech_backend.Models.Kra.{Frequency, daily, weekly, monthly, quarterly}
use ski_tech_backend.KraTasks.Calendar.{Date, days_in_month, first_day, year_of, month_of, weekday}

-- The first and the last day of the period of a date.
unfoldable pub period_for : Frequency → Date → Date × Date
period_for daily day = (day, day)
period_for weekly day = let start = day - weekday day in (start, start + 6)
period_for monthly day =
    let y = year_of day in
    let m = month_of day in (first_day y m, first_day y m + days_in_month y m - 1)
period_for quarterly day =
    let y = year_of day in
    let first_month = 3 * ((month_of day - 1) / 3) + 1 in
    let last_month = first_month + 2 in
    (first_day y first_month, first_day y last_month + days_in_month y last_month - 1)

-- The loop, on fuel. There is no date before 1, at which the source raises `OverflowError`; here
-- the list ends.
unfoldable pub periods_back : ℕ → Frequency → Date → Date × Date → List (Date × Date)
unfolding period_for
periods_back zero frequency first_start current = []
periods_back (suc fuel) frequency first_start current =
    let rest = periods_back fuel frequency first_start (period_for frequency (current.0 - 1)) in
    if ltb current.0 first_start
    then []
    else if leb current.0 1
    then current ∷ []
    else current ∷ rest

unfoldable pub periods_newest_first : Frequency → Date → Date → List (Date × Date)
unfolding period_for periods_back
periods_newest_first frequency start_date up_to_date =
    if ltb up_to_date start_date
    then []
    else periods_back (up_to_date + 1) frequency (period_for frequency start_date).0
        (period_for frequency up_to_date)
