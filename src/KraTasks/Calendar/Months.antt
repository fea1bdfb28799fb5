-- ===== src/KraTasks/Calendar/Months.antt =====
-- The months follow each other without a gap, and the month found for a date holds it.
use native.Mathlib.Nat.{add-zero, add-suc}
use ski_tech_backend.Base.{
  ℕ, zero, suc, ◌+◌, ◌-◌, ◌*◌, ◌/◌, ◌%◌, ◌≤◌, ◌<◌, ◌≡◌, refl, inl, inr, arith, ltb, Bool-cases,
}
use ski_tech_backend.KraTasks.Calendar.{
  Date, is_leap, days_in_month, days_before_year, days_before_month, first_day, year_at, month_at,
  first_day_at, seek_month, month_index,
}

pub days_in_month_range : (y m : ℕ) → (28 ≤ days_in_month y m) × (days_in_month y m ≤ 31)
unfolding days_in_month
days_in_month_range y m = ground arith

-- The twelve months make up the year.
twelve_months :
    (p : ℕ)
    → days_before_year (suc (suc p))
      ≡ days_before_year (suc p) + days_before_month (suc p) 12 + days_in_month (suc p) 12
unfolding days_before_year days_before_month days_in_month is_leap
twelve_months p = ground arith

days_before_month-suc :
    (y j m : ℕ)
    → m ≡ suc j
    → days_before_month y (suc m) ≡ days_before_month y m + days_in_month y m
unfolding days_before_month
days_before_month-suc y j m e = rw e refl

january_first : (y : ℕ) → days_before_month y 1 ≡ 0
unfolding days_before_month
january_first y = refl

pub first_day_at-eq :
    (k y m : ℕ)
    → year_at k ≡ y
    → month_at k ≡ m
    → first_day_at k ≡ days_before_year y + days_before_month y m + 1
unfolding first_day_at first_day
first_day_at-eq k y m e f = rw (e, f) refl

-- A month starts where the one before it ends.
pub first_day_at-suc :
    (k : ℕ) → first_day_at (suc k) ≡ first_day_at k + days_in_month (year_at k) (month_at k)
first_day_at-suc k = elim (Bool-cases (ltb (k % 12) 11)) [
  | inl e ↦
      let here = first_day_at-eq k (year_at k) (month_at k) refl refl in
      let next =
        first_day_at-eq (suc k) (year_at k) (suc (month_at k)) (ground arith) (ground arith) in
      omega
        (arith, here, next, days_before_month-suc (year_at k) (k % 12) (month_at k) (omega arith))
  | inr e ↦
      let here = first_day_at-eq k (suc (k / 12)) 12 (omega arith) (ground arith) in
      let next = first_day_at-eq (suc k) (suc (suc (k / 12))) 1 (ground arith) (ground arith) in
      let year : year_at k ≡ suc (k / 12) = omega arith in
      let month : month_at k ≡ 12 = ground arith in
      rw (year, month)
        (omega (arith, here, next, twelve_months (k / 12), january_first (suc (suc (k / 12)))))
]

-- What the search finds holds the date, when it starts at a month that is not later and has a
-- round for each day until the date.
seek_month_lem :
    (fuel k day : ℕ)
    → first_day_at k ≤ day
    → day < first_day_at k + fuel
    → (first_day_at (seek_month fuel k day) ≤ day)
      × (day < first_day_at (suc (seek_month fuel k day)))
unfolding seek_month
seek_month_lem zero k day lo hi = absurd (omega arith)
seek_month_lem (suc fuel) k day lo hi =
    let step = first_day_at-suc k in
    let range = days_in_month_range (year_at k) (month_at k) in
    elim (Bool-cases (ltb day (first_day_at (suc k)))) [
      | inl e ↦ rw e (lo, ground arith)
      | inr e ↦ rw e (seek_month_lem fuel (suc k) day (ground arith) (omega (arith, step, range)))
    ]

first_month : first_day_at 0 ≡ 1
unfolding first_day_at
first_month = refl

first_day_at_bound : (k : ℕ) → first_day_at k ≤ 31 * k + 1
first_day_at_bound zero = omega (arith, first_month)
first_day_at_bound (suc k) =
    omega (
      arith,
      first_day_at_bound k,
      first_day_at-suc k,
      days_in_month_range (year_at k) (month_at k),
    )

pub first_day_at_pos : (k : ℕ) → 1 ≤ first_day_at k
unfolding first_day_at
first_day_at_pos k = omega arith

-- Every date lies in the month that is found for it.
pub month_index_lem :
    (day : Date)
    → 1 ≤ day
    → (first_day_at (month_index day) ≤ day) × (day < first_day_at (suc (month_index day)))
unfolding month_index
month_index_lem day h =
    seek_month_lem day ((day - 1) / 31) day (omega (arith, first_day_at_bound ((day - 1) / 31)))
      (omega (arith, first_day_at_pos ((day - 1) / 31)))

first_day_at_mono : (i n : ℕ) → first_day_at i + n ≤ first_day_at (i + n)
first_day_at_mono i zero = rw (add-zero i) (omega arith)
first_day_at_mono i (suc n) = rw (add-suc i n) (
    omega (
      arith,
      first_day_at_mono i n,
      first_day_at-suc (i + n),
      days_in_month_range (year_at (i + n)) (month_at (i + n)),
    ))

pub first_day_at-le : (i j : ℕ) → i ≤ j → first_day_at i ≤ first_day_at j
first_day_at-le i j h =
    let e : i + (j - i) ≡ j = omega arith in
    let m = rw e at (first_day_at_mono i (j - i)) in omega (arith, m)

-- A month that holds a date is the one found for it.
pub month_index_unique :
    (day : Date) (k : ℕ)
    → 1 ≤ day
    → first_day_at k ≤ day
    → day < first_day_at (suc k)
    → month_index day ≡ k
month_index_unique day k h lo hi =
    let found = month_index_lem day h in
    let i = month_index day in
    elim (Bool-cases (ltb i k)) [
      | inl e ↦ absurd (omega (arith, found, first_day_at-le (suc i) k (ground arith)))
      | inr e ↦ elim (Bool-cases (ltb k i)) [
        | inl f ↦ absurd (omega (arith, found, first_day_at-le (suc k) i (ground arith)))
        | inr f ↦ ground arith
      ]
    ]
