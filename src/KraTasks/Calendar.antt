-- ===== src/KraTasks/Calendar.antt =====
-- The dates of Python's `datetime.date` that app/services/kra_task_service.py computes with. A date
-- is its number, `date.toordinal()`: 1 is 0001-01-01, a Monday.
pub mod Months
use ski_tech_backend.Base.{
  ℕ, zero, suc, ◌+◌, ◌-◌, ◌*◌, ◌/◌, ◌%◌, Bool, true, false, not, ◌||◌, ◌==◌, ltb, if◌then◌else◌,
}

abbrev pub Date : Type 0
Date = ℕ

unfoldable pub is_leap : ℕ → Bool
is_leap y = if not (y % 4 == 0) then false else if not (y % 100 == 0) then true else y % 400 == 0

-- `calendar.monthrange(year, month)[1]`
unfoldable pub days_in_month : ℕ → ℕ → ℕ
unfolding is_leap
days_in_month y m =
    if m == 2
    then (if is_leap y then 29 else 28)
    else if m == 4 || (m == 6 || (m == 9 || m == 11))
    then 30
    else 31

unfoldable pub days_before_year : ℕ → ℕ
days_before_year y = let p = y - 1 in p * 365 + p / 4 - p / 100 + p / 400

-- The days of the year before a month.
unfoldable pub days_before_month : ℕ → ℕ → ℕ
unfolding days_in_month
days_before_month y zero = 0
days_before_month y (suc zero) = 0
days_before_month y (suc (suc m)) = days_before_month y (suc m) + days_in_month y (suc m)

-- `date(year, month, 1)`
unfoldable pub first_day : ℕ → ℕ → Date
unfolding days_before_year days_before_month
first_day y m = days_before_year y + days_before_month y m + 1

-- Months are counted from January of the year 1, which is 0.
abbrev pub year_at : ℕ → ℕ
year_at k = k / 12 + 1

abbrev pub month_at : ℕ → ℕ
month_at k = k % 12 + 1

unfoldable pub first_day_at : ℕ → Date
unfolding first_day
first_day_at k = first_day (year_at k) (month_at k)

-- The month of a date, sought from a month that is not later.
unfoldable pub seek_month : ℕ → ℕ → Date → ℕ
unfolding first_day_at
seek_month zero k day = k
seek_month (suc fuel) k day =
    let later = seek_month fuel (suc k) day in if ltb day (first_day_at (suc k)) then k else later

-- No month is longer than 31 days, so the search starts early enough.
unfoldable pub month_index : Date → ℕ
unfolding seek_month
month_index day = seek_month day ((day - 1) / 31) day

-- `day.year` and `day.month`
unfoldable pub year_of : Date → ℕ
unfolding month_index
year_of day = year_at (month_index day)

unfoldable pub month_of : Date → ℕ
unfolding month_index
month_of day = month_at (month_index day)

-- `day.weekday()`, with Monday as 0
abbrev pub weekday : Date → ℕ
weekday day = (day - 1) % 7
