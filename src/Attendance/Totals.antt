-- ===== src/Attendance/Totals.antt =====
-- app/services/attendance_service.py: the user's hours (`get_user_totals`), the running shift as
-- the status endpoint of app/api/v1/endpoints/attendance.py shows it, and the daily summary.
pub mod Laws
use ski_tech_backend.Base.{
  ℕ, ◌+◌, ◌-◌, ◌*◌, ◌/◌, Bool, true, false, not, ◌&&◌, ◌||◌, Option, none, some, List, [], ◌∷◌,
  ◌==◌, leb, ltb, if◌then◌else◌, is_none, is_some, get_or, select, length, first, sub_ℕ, pos,
}
use ski_tech_backend.Runtime.{Runtime, Uuid, Instant}
use ski_tech_backend.Models.{AttendanceRecord, is_active, is_completed, is_auto_closed, Db}
use ski_tech_backend.Attendance.Records.{
  as_utc, is_stale, punched_in_at, open_records, max_shift_hours, max_plausible_hours,
}

-- The answer of `get_user_totals`.
pub record UserTotals (Float : Type 0) : Type 0 where
  pub hours_today : Float
  pub hours_this_week : Float
  pub open_shift_hours : Float
  pub needs_review_this_week : ℕ

-- The answer of `/attendance/status`.
pub data PunchStatus (Float : Type 0) : Type 0 where
  not_punched_in : PunchStatus Float
  stale_shift : Uuid → PunchStatus Float
  punched_in : Uuid → Float → PunchStatus Float

-- The answer of `get_daily_summary`, without the date and the records themselves.
pub record DailySummary (Float : Type 0) : Type 0 where
  pub total_records : ℕ
  pub total_hours_worked : Float
  pub within_fence_count : ℕ
  pub outside_fence_count : ℕ

-- `min` of the two starts.
abbrev pub earlier : Instant → Instant → Instant
earlier a b = if ltb b a then b else a

-- The date of a clock reading as its first microsecond.
abbrev pub start_of_day : ℕ → Instant
start_of_day clock = clock / 86400000000 * 86400000000

module _ {Float : Type 0} where
  -- The records of the user at the property.
  abbrev pub is_users : Uuid → Uuid → Uuid → AttendanceRecord Float → Bool
  is_users user_id property_id tenant_id r =
      r.user_id == user_id && (r.property_id == property_id && r.tenant_id == tenant_id)

  abbrev pub starts_from : Instant → AttendanceRecord Float → Bool
  starts_from start r = leb start (punched_in_at r)

  -- The query's filter: the user's records from the earlier of the two starts.
  abbrev pub is_counted_from :
      Uuid → Uuid → Uuid → Instant → Instant → AttendanceRecord Float → Bool
  is_counted_from user_id property_id tenant_id day_start week_start r =
      is_users user_id property_id tenant_id r && starts_from (earlier day_start week_start) r

  abbrev pub is_in_summary : Uuid → Uuid → ℕ → AttendanceRecord Float → Bool
  is_in_summary user_id tenant_id clock r =
      r.user_id == user_id
      && (r.tenant_id == tenant_id
          && (leb (start_of_day clock) (punched_in_at r)
              && (ltb (punched_in_at r) (start_of_day clock + 86400000000)
                  && is_completed r.status)))

module _ {Float : Type 0} (rt : Runtime Float) where
  open rt use {of_int, div, lt, le, sum, round2, total_seconds}

  -- `min(max(elapsed, 0.0), MAX_SHIFT_HOURS)` of the hours since the punch-in.
  unfoldable pub running_hours : Instant → AttendanceRecord Float → Float
  running_hours now r =
      let elapsed = div (total_seconds (sub_ℕ now (as_utc r.punch_in_time))) (of_int (pos 3600)) in
      let at_least = if lt elapsed (of_int (pos 0)) then of_int (pos 0) else elapsed in
      if lt (of_int (pos max_shift_hours)) at_least then of_int (pos max_shift_hours) else at_least

  abbrev pub is_implausible : Option Float → Bool
  is_implausible none = false
  is_implausible (some h) = lt (of_int (pos max_plausible_hours)) h

  -- Countable hours of a record, or none if it needs review or has none.
  unfoldable pub hours_of : Instant → AttendanceRecord Float → Option Float
  unfolding running_hours
  hours_of now r =
      if is_completed r.status
      then if is_implausible r.hours_worked then none else r.hours_worked
      else if is_active r.status && (is_none r.punch_out_time && not (is_stale r now))
      then some (running_hours now r)
      else none

  unfoldable pub needs_review : AttendanceRecord Float → Bool
  needs_review r =
      is_auto_closed r.status || (is_completed r.status && is_implausible r.hours_worked)

  -- The generator of `total`: the countable hours of the records since `start`.
  unfoldable pub counted_hours : Instant → Instant → List (AttendanceRecord Float) → List Float
  counted_hours now start [] = []
  counted_hours now start (r ∷ rs) =
      if starts_from start r
      then elim (hours_of now r) [
        | none ↦ counted_hours now start rs
        | some h ↦ h ∷ counted_hours now start rs
      ]
      else counted_hours now start rs

  unfoldable pub total_hours : Instant → Instant → List (AttendanceRecord Float) → Float
  unfolding counted_hours
  total_hours now start records = round2 (sum (counted_hours now start records))

  -- `next((h for r in records if ...), 0.0)`
  unfoldable pub open_shift : Instant → List (AttendanceRecord Float) → Float
  open_shift now [] = of_int (pos 0)
  open_shift now (r ∷ rs) =
      if is_active r.status && is_some (hours_of now r)
      then get_or (hours_of now r) (of_int (pos 0))
      else open_shift now rs

  unfoldable pub get_user_totals :
      Uuid → Uuid → Uuid → Instant → Instant → Instant → Db Float → UserTotals Float
  unfolding total_hours open_shift needs_review
  get_user_totals user_id property_id tenant_id day_start week_start now d =
      let records =
        select (is_counted_from user_id property_id tenant_id day_start week_start)
          d.attendance_records in
      record {
        hours_today = total_hours now day_start records;
        hours_this_week = total_hours now week_start records;
        open_shift_hours = round2 (open_shift now records);
        needs_review_this_week =
            length (select (λ r. starts_from week_start r && needs_review r) records);
      }

  -- `get_punch_status` from the record that `get_active_punch_in` returns.
  status_of : Instant → Option (AttendanceRecord Float) → PunchStatus Float
  status_of now none = not_punched_in
  status_of now (some r) =
      if is_stale r now then stale_shift r.id else punched_in r.id (round2 (running_hours now r))

  unfoldable pub get_punch_status : Instant → Uuid → Uuid → Uuid → Db Float → PunchStatus Float
  unfolding status_of running_hours
  get_punch_status now user_id property_id tenant_id d =
      status_of now (first (open_records user_id property_id tenant_id d))

  plausible_hours : List (AttendanceRecord Float) → List Float
  plausible_hours [] = []
  plausible_hours (r ∷ rs) =
      let h = get_or r.hours_worked (of_int (pos 0)) in
      if le h (of_int (pos max_plausible_hours)) then h ∷ plausible_hours rs else plausible_hours rs

  unfoldable pub get_daily_summary : Uuid → Uuid → ℕ → Db Float → DailySummary Float
  unfolding plausible_hours
  get_daily_summary user_id tenant_id clock d =
      let records = select (is_in_summary user_id tenant_id clock) d.attendance_records in
      let within = length (select (λ r. r.is_within_fence) records) in
      record {
        total_records = length records;
        total_hours_worked = round2 (sum (plausible_hours records));
        within_fence_count = within;
        outside_fence_count = length records - within;
      }
