-- ===== src/KraTasks/Periods/Newest.antt =====
-- The periods from one date back to another: all of them, each once, and the loop ends.
use ski_tech_backend.Base.{
  ℕ, zero, suc, ◌+◌, ◌-◌, ◌≤◌, ◌<◌, ◌≡◌, refl, ap, inl, inr, arith, leb, ltb, Bool-cases, true,
  false, All, All-imp, Distinct, List, [], ◌∷◌, map, contains, ==_refl,
}
use ski_tech_backend.Models.Kra.{Frequency}
use ski_tech_backend.KraTasks.Calendar.{Date}
use ski_tech_backend.KraTasks.Periods.{period_for, periods_back, periods_newest_first}
use ski_tech_backend.KraTasks.Periods.Tiling.{IsPeriodOf, period_for-IsPeriodOf}

abbrev pub start_of : Date × Date → Date
start_of p = p.0

-- A period between two first days.
abbrev pub IsBetween : Frequency → Date → Date → Date × Date → Type 0
IsBetween frequency lo hi p = (lo ≤ p.0) × (p.0 ≤ hi) × (period_for frequency p.0 ≡ p)

not_listed :
    (frequency : Frequency) (lo hi i : Date) (ps : List (Date × Date))
    → hi < i
    → All (IsBetween frequency lo hi) ps
    → contains (map start_of ps) i ≡ false
not_listed frequency lo hi i [] h all = refl
not_listed frequency lo hi i (p ∷ ps) h all =
    ground (arith, all.0, not_listed frequency lo hi i ps h all.1)

module _ (frequency : Frequency) (start_date : Date) (1≤start : 1 ≤ start_date) where
  abbrev first_start : Date
  first_start = (period_for frequency start_date).0

  -- What the loop returns from a current period, the period of `day`.
  record IsListFrom (current : Date × Date) (ps : List (Date × Date)) : Type 0 where
    between : All (IsBetween frequency first_start current.0) ps
    distinct : Distinct (map start_of ps)
    covers :
        (x : Date)
        → start_date ≤ x
        → x ≤ current.1
        → contains (map start_of ps) (period_for frequency x).0 ≡ true

  own_start : (day : Date) → 1 ≤ day → IsPeriodOf frequency day (period_for frequency day)
  own_start = period_for-IsPeriodOf frequency

  past_none :
      (current : Date × Date) (day x : Date)
      → IsPeriodOf frequency day current
      → current.0 < first_start
      → start_date ≤ x
      → x ≤ current.1
      → ⊥
  past_none current day x (pos, lo, hi, same) past from upto =
      let (_, slo, _, _) = own_start start_date 1≤start in
      let e = ap start_of (same start_date (omega arith) (omega arith)) in omega (arith, e)

  -- The current period is listed first, and its own dates find it there.
  covers_current :
      (current : Date × Date) (day x : Date) (ps : List (Date × Date))
      → IsPeriodOf frequency day current
      → current.0 ≤ x
      → x ≤ current.1
      → contains (map start_of (current ∷ ps)) (period_for frequency x).0 ≡ true
  covers_current current day x ps (pos, lo, hi, same) from upto =
      rw (same x from upto) (ground (arith, ==_refl current.0))

  own_period :
      (current : Date × Date) (day : Date)
      → IsPeriodOf frequency day current
      → period_for frequency current.0 ≡ current
  own_period current day (pos, lo, hi, same) = same current.0 (omega arith) (omega arith)

  last-IsListFrom :
      (current : Date × Date) (day : Date)
      → IsPeriodOf frequency day current
      → first_start ≤ current.0
      → current.0 ≤ 1
      → IsListFrom current (current ∷ [])
  last-IsListFrom current day period from one = record {
    between = ((from, omega arith, own_period current day period), tt);
    distinct = (refl, tt);
    covers = λ x lo hi. covers_current current day x [] period (omega arith) hi;
  }

  more-IsListFrom :
      (current : Date × Date) (day : Date) (ps : List (Date × Date))
      → IsPeriodOf frequency day current
      → first_start ≤ current.0
      → 1 < current.0
      → IsListFrom (period_for frequency (current.0 - 1)) ps
      → IsListFrom current (current ∷ ps)
  more-IsListFrom current day ps period from many rest =
      let (_, lo, hi, _) = own_start (current.0 - 1) (omega arith) in
      record {
        between = (
          (from, omega arith, own_period current day period),
          All-imp _ _ ps (λ p h. (h.0, omega (arith, h.1), h.2)) rest.between,
        );
        distinct = (
          not_listed frequency first_start (period_for frequency (current.0 - 1)).0 current.0 ps
              (omega arith) rest.between,
          rest.distinct,
        );
        covers = λ x from_x upto_x. elim (Bool-cases (ltb x current.0)) [
          | inl e ↦ let listed = rest.covers x from_x (ground arith) in ground (arith, listed)
          | inr e ↦ covers_current current day x ps period (ground arith) upto_x
        ];
      }

  periods_back-IsListFrom :
      (fuel : ℕ) (current : Date × Date) (day : Date)
      → IsPeriodOf frequency day current
      → current.0 < fuel
      → IsListFrom current (periods_back fuel frequency first_start current)
  unfolding periods_back
  periods_back-IsListFrom zero current day is_period enough = absurd (omega arith)
  periods_back-IsListFrom (suc fuel) current day period enough =
      let (pos, _, _, _) = period in
      elim (Bool-cases (ltb current.0 first_start)) [
        | inl e ↦ rw e (record {
          between = tt;
          distinct = tt;
          covers = λ x lo_x hi_x. absurd (past_none current day x period (ground arith) lo_x hi_x);
        })
        | inr e ↦ elim (Bool-cases (leb current.0 1)) [
          | inl f ↦ rw (e, f) (last-IsListFrom current day period (ground arith) (ground arith))
          | inr f ↦
              let many : 1 < current.0 = ground arith in
              let (_, before, _, _) = own_start (current.0 - 1) (omega arith) in
              let rest =
                periods_back-IsListFrom fuel (period_for frequency (current.0 - 1)) (current.0 - 1)
                  (own_start (current.0 - 1) (omega arith)) (omega arith) in
              rw (e, f) (more-IsListFrom current day _ period (ground arith) many rest)
        ]
      ]

  -- From the period that holds one date back to the one that holds an earlier date, every period
  -- is listed, none twice: those of the dates between the two are there, and each listed one is a
  -- period that starts from the first one's start on and up to the later date.
  pub periods_newest_first_lem :
      (up_to x : Date)
      → start_date ≤ x
      → x ≤ up_to
      → let ps = periods_newest_first frequency start_date up_to in
        (contains (map start_of ps) (period_for frequency x).0 ≡ true)
        × Distinct (map start_of ps)
        × All (IsBetween frequency first_start up_to) ps
  unfolding periods_newest_first
  periods_newest_first_lem up_to x lo hi =
      let started : ltb up_to start_date ≡ false = ground arith in
      let period = own_start up_to (omega arith) in
      let (_, before, after, _) = period in
      let from =
        periods_back-IsListFrom (up_to + 1) (period_for frequency up_to) up_to period
          (omega arith) in
      rw started (
        from.covers x lo (omega arith),
        from.distinct,
        All-imp _ _ _ (λ p h. (h.0, omega (arith, h.1), h.2)) from.between,
      )
