-- ===== src/KraTasks/Periods/Tiling.antt =====
-- Every date lies in its period, and a period is that of each of its dates.
use ski_tech_backend.Base.{
  ℕ, suc, ◌+◌, ◌-◌, ◌*◌, ◌/◌, ◌%◌, ◌≤◌, ◌<◌, ◌≡◌, ◌↔◌, refl, ap, ap₂, inl, inr, arith, ltb,
  Bool-cases,
}
use ski_tech_backend.Models.Kra.{Frequency, daily, weekly, monthly, quarterly}
use ski_tech_backend.KraTasks.Calendar.{
  Date, days_in_month, first_day, first_day_at, year_at, month_at, month_index, year_of, month_of,
}
use ski_tech_backend.KraTasks.Calendar.Months.{
  first_day_at-suc, first_day_at-le, first_day_at_pos, month_index_lem,
}
use ski_tech_backend.KraTasks.Periods.{period_for}

first_day-eq : (k y m : ℕ) → year_at k ≡ y → month_at k ≡ m → first_day y m ≡ first_day_at k
unfolding first_day_at
first_day-eq k y m e f = rw (e, f) refl

-- The first month of the quarter of a month.
abbrev quarter_at : ℕ → ℕ
quarter_at k = 12 * (k / 12) + 3 * (k % 12 / 3)

monthly-eq :
    (day : Date)
    → period_for monthly day
      ≡ (first_day_at (month_index day), first_day_at (month_index day + 1) - 1)
unfolding period_for year_of month_of
monthly-eq day =
    let k = month_index day in
    let start = first_day-eq k (year_at k) (month_at k) refl refl in
    let next : first_day_at (k + 1) ≡ first_day_at (suc k) = ap first_day_at (omega arith) in
    let end : first_day (year_at k) (month_at k) + days_in_month (year_at k) (month_at k) - 1
        ≡ first_day_at (k + 1) - 1 =
      omega (arith, start, first_day_at-suc k, next) in
    ap₂ (λ (a b : ℕ). (a, b)) start end

quarterly-eq :
    (day : Date)
    → period_for quarterly day ≡ (
      first_day_at (quarter_at (month_index day)),
      first_day_at (quarter_at (month_index day) + 3) - 1,
    )
unfolding period_for year_of month_of
quarterly-eq day =
    let k = month_index day in
    let q = quarter_at k in
    let y = year_at k in
    let m = 3 * ((month_at k - 1) / 3) + 1 in
    let start = first_day-eq q y m (omega arith) (omega arith) in
    let last = first_day-eq (q + 2) y (m + 2) (omega arith) (omega arith) in
    let year : year_at (q + 2) ≡ y = omega arith in
    let month : month_at (q + 2) ≡ m + 2 = omega arith in
    let next = rw (year, month) at (first_day_at-suc (q + 2)) in
    let third : suc (q + 2) ≡ q + 3 = omega arith in
    let next' = rw third at next in
    let end : first_day y (m + 2) + days_in_month y (m + 2) - 1 ≡ first_day_at (q + 3) - 1 =
      omega (arith, last, next') in
    ap₂ (λ (a b : ℕ). (a, b)) start end

-- The dates of the months from `q` to before `r` are those between their first days.
months_between :
    (q r day : ℕ)
    → 1 ≤ day
    → first_day_at q ≤ day
    → day < first_day_at r
    → (q ≤ month_index day) × (month_index day < r)
months_between q r day h lo hi =
    let found = month_index_lem day h in
    (
      elim (Bool-cases (ltb (month_index day) q)) [
        | inl e ↦
            absurd (omega (arith, found, first_day_at-le (suc (month_index day)) q (ground arith)))
        | inr e ↦ ground arith
      ],
      elim (Bool-cases (ltb (month_index day) r)) [
        | inl e ↦ ground arith
        | inr e ↦ absurd (omega (arith, found, first_day_at-le r (month_index day) (ground arith)))
      ],
    )

-- A period as it is found for a date: it holds the date, and is the period of each date in it.
abbrev pub IsPeriodOf : Frequency → Date → Date × Date → Type 0
IsPeriodOf frequency day p =
    (1 ≤ p.0)
    × (p.0 ≤ day)
    × (day ≤ p.1)
    × ((x : Date) → p.0 ≤ x → x ≤ p.1 → period_for frequency x ≡ p)

weekly_lem : (day : Date) → 1 ≤ day → IsPeriodOf weekly day (period_for weekly day)
unfolding period_for
weekly_lem day h = (
  omega arith,
  omega arith,
  omega arith,
  λ x lo hi. ap₂ (λ (a b : ℕ). (a, b)) (omega arith) (omega arith),
)

-- A run of whole months from the month `q` to before `r`.
months_lem :
    (frequency : Frequency) (block : ℕ → ℕ) (size : ℕ)
    → ((x : Date)
        → period_for frequency x
          ≡ (first_day_at (block (month_index x)), first_day_at (block (month_index x) + size) - 1))
    → ((k : ℕ) → (block k ≤ k) × (k < block k + size))
    → ((k j : ℕ) → block k ≤ j → j < block k + size → block j ≡ block k)
    → (day : Date) → 1 ≤ day
    → IsPeriodOf frequency day (period_for frequency day)
months_lem frequency block size eq inside same day h =
    let k = month_index day in
    let q = block k in
    let found = month_index_lem day h in
    let start = first_day_at-le q k (inside k).0 in
    let end = first_day_at-le (suc k) (q + size) (inside k).1 in
    let pos = first_day_at_pos q in
    rw eq (
      pos,
      omega (arith, found, start),
      omega (arith, found, end),
      λ x lo hi.
          let between =
            months_between q (q + size) x (omega (arith, pos, lo)) lo
              (omega (arith, found, end, pos, start, hi)) in
          rw (eq x, same k (month_index x) between.0 between.1) refl,
    )

quarter_inside : (k : ℕ) → (quarter_at k ≤ k) × (k < quarter_at k + 3)
quarter_inside k = (omega arith, omega arith)

quarter_same : (k j : ℕ) → quarter_at k ≤ j → j < quarter_at k + 3 → quarter_at j ≡ quarter_at k
quarter_same k j lo hi = omega arith

pub period_for-IsPeriodOf :
    (frequency : Frequency) (day : Date)
    → 1 ≤ day
    → IsPeriodOf frequency day (period_for frequency day)
period_for-IsPeriodOf daily day h =
    unfold period_for in
    (h, omega arith, omega arith, λ x lo hi. ap₂ (λ (a b : ℕ). (a, b)) (omega arith) (omega arith))
period_for-IsPeriodOf weekly day h = weekly_lem day h
period_for-IsPeriodOf monthly day h =
    months_lem monthly (λ k. k) 1 monthly-eq (λ k. (omega arith, omega arith))
      (λ k j lo hi. omega arith) day h
period_for-IsPeriodOf quarterly day h =
    months_lem quarterly quarter_at 3 quarterly-eq quarter_inside quarter_same day h

-- The periods of a frequency partition the calendar from 0001-01-01 on: a date lies within the
-- period of another exactly when the two have the same period.
pub same_period_iff :
    (frequency : Frequency) (day x : Date)
    → 1 ≤ day
    → 1 ≤ x
    → (((period_for frequency day).0 ≤ x) × (x ≤ (period_for frequency day).1))
      ↔ (period_for frequency x ≡ period_for frequency day)
same_period_iff frequency day x h k =
    let (_, _, _, same) = period_for-IsPeriodOf frequency day h in
    let (_, lo, hi, _) = period_for-IsPeriodOf frequency x k in
    (λ p. same x p.0 p.1, λ e. (rw e at lo, rw e at hi))
