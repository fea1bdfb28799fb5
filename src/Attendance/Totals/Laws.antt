-- ===== src/Attendance/Totals/Laws.antt =====
-- What the totals count.
use ski_tech_backend.Base.{
  ℕ, ◌+◌, ◌≤◌, Bool, true, ◌&&◌, none, some, List, [], ◌∷◌, ◌≡◌, refl, arith, select, not, length,
  pos, sub_ℕ, if◌then◌else◌, ap,
}
use ski_tech_backend.Runtime.{Runtime, Uuid, Instant, IsOrdered}
use ski_tech_backend.Models.{AttendanceRecord, Db}
use ski_tech_backend.Attendance.Records.{as_utc, max_shift_hours, max_plausible_hours}
use ski_tech_backend.Attendance.Totals.{
  is_in_summary, is_users, starts_from, earlier, is_counted_from, running_hours, hours_of,
  needs_review, counted_hours, total_hours, get_user_totals, get_daily_summary,
}

module _ {Float : Type 0} (rt : Runtime Float) where
  -- A record that needs review is never counted.
  pub needs_review_not_counted :
      (now : Instant) (r : AttendanceRecord Float)
      → needs_review rt r ≡ true
      → hours_of rt now r ≡ none
  unfolding needs_review hours_of
  needs_review_not_counted now r h = ground arith

  -- `max(elapsed, 0.0)`
  abbrev capped_below : Instant → AttendanceRecord Float → Float
  capped_below now r =
      let elapsed =
        rt.div (rt.total_seconds (sub_ℕ now (as_utc r.punch_in_time))) (rt.of_int (pos 3600)) in
      if rt.lt elapsed (rt.of_int (pos 0)) then rt.of_int (pos 0) else elapsed

  running_hours_capped :
      IsOrdered rt
      → (now : Instant) (r : AttendanceRecord Float)
      → rt.le (running_hours rt now r) (rt.of_int (pos max_shift_hours)) ≡ true
  unfolding running_hours
  running_hours_capped laws now r = ground (
    arith,
    laws.le_of_not_lt (capped_below now r) (rt.of_int (pos max_shift_hours)),
    laws.le_refl (rt.of_int (pos max_shift_hours)),
  )

  -- Where float comparison is an order, the hours counted for one record never pass 24.
  pub hours_of_capped :
      IsOrdered rt
      → (now : Instant) (r : AttendanceRecord Float) (h : Float) → hours_of rt now r ≡ some h
      → rt.le h (rt.of_int (pos max_plausible_hours)) ≡ true
  unfolding hours_of
  hours_of_capped laws now r h e = ground (
    arith,
    laws.le_of_not_lt h (rt.of_int (pos max_plausible_hours)),
    laws.le_trans h (rt.of_int (pos max_shift_hours)) (rt.of_int (pos max_plausible_hours)),
    laws.of_int_mono max_shift_hours max_plausible_hours (omega arith),
    running_hours_capped laws now r,
  )

  -- The query drops no record that a total counts.
  counted_hours-select :
      (now start a b : Instant) (user_id property_id tenant_id : Uuid)
      (rs : List (AttendanceRecord Float))
      → earlier a b ≤ start
      → counted_hours rt now start (select (is_counted_from user_id property_id tenant_id a b) rs)
        ≡ counted_hours rt now start (select (is_users user_id property_id tenant_id) rs)
  unfolding counted_hours
  counted_hours-select now start a b user_id property_id tenant_id [] h = refl
  counted_hours-select now start a b user_id property_id tenant_id (r ∷ rs) h =
      ground (arith, counted_hours-select now start a b user_id property_id tenant_id rs h)

  length-select_review :
      (start a b : Instant) (user_id property_id tenant_id : Uuid)
      (rs : List (AttendanceRecord Float))
      → earlier a b ≤ start
      → length (
          select
            (λ r. starts_from start r && needs_review rt r)
            (select (is_counted_from user_id property_id tenant_id a b) rs))
        ≡ length (
            select
              (λ r. starts_from start r && needs_review rt r)
              (select (is_users user_id property_id tenant_id) rs))
  length-select_review start a b user_id property_id tenant_id [] h = refl
  length-select_review start a b user_id property_id tenant_id (r ∷ rs) h =
      ground (arith, length-select_review start a b user_id property_id tenant_id rs h)

  -- The totals are those over all of the user's records at the property: the query, which reads
  -- only from the earlier of the two starts, drops none that a total or the review count takes in.
  pub get_user_totals_complete :
      (user_id property_id tenant_id : Uuid) (day_start week_start now : Instant) (d : Db Float)
      → let all = select (is_users user_id property_id tenant_id) d.attendance_records in
        let totals = get_user_totals rt user_id property_id tenant_id day_start week_start now d in
        (totals.hours_today ≡ total_hours rt now day_start all)
        × (totals.hours_this_week ≡ total_hours rt now week_start all)
        × (totals.needs_review_this_week
            ≡ length (select (λ r. starts_from week_start r && needs_review rt r) all))
  unfolding get_user_totals
  get_user_totals_complete user_id property_id tenant_id day_start week_start now d = (
    ap (λ hs. rt.round2 (rt.sum hs))
        (counted_hours-select now day_start day_start week_start user_id property_id tenant_id
          d.attendance_records (ground arith)),
    ap (λ hs. rt.round2 (rt.sum hs))
        (counted_hours-select now week_start day_start week_start user_id property_id tenant_id
          d.attendance_records (ground arith)),
    length-select_review week_start day_start week_start user_id property_id tenant_id
        d.attendance_records (ground arith),
  )

  length-partition :
      (p : AttendanceRecord Float → Bool) (rs : List (AttendanceRecord Float))
      → length (select p rs) + length (select (λ r. not (p r)) rs) ≡ length rs
  length-partition p [] = refl
  length-partition p (r ∷ rs) = ground (arith, length-partition p rs)

  -- The summary's outside count is the number of the day's completed records that are not within
  -- the fence, and its total is the number of those records.
  pub get_daily_summary_counts :
      (user_id tenant_id : Uuid) (clock : ℕ) (d : Db Float)
      → let records = select (is_in_summary user_id tenant_id clock) d.attendance_records in
        let summary = get_daily_summary rt user_id tenant_id clock d in
        (summary.outside_fence_count ≡ length (select (λ r. not r.is_within_fence) records))
        × (summary.within_fence_count + summary.outside_fence_count ≡ summary.total_records)
  unfolding get_daily_summary
  get_daily_summary_counts user_id tenant_id clock d =
      let records = select (is_in_summary user_id tenant_id clock) d.attendance_records in
      let partition = length-partition (λ r. r.is_within_fence) records in
      (omega (arith, partition), omega (arith, partition))
