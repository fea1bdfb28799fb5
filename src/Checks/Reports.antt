-- ===== src/Checks/Reports.antt =====
-- The totals and the property's day at concrete data.
use ski_tech_backend.Base.{
  All, ◌≤◌, ℕ, ◌+◌, true, ◌&&◌, not, none, some, map, ◌≡◌, refl, arith, select, length, contains,
  Distinct,
}
use ski_tech_backend.Runtime.{Uuid, IsOrdered, aware, hours}
use ski_tech_backend.Models.{AttendanceRecord, completed}
use ski_tech_backend.Attendance.Records.{is_stale}
use ski_tech_backend.Attendance.Totals.{
  is_users, starts_from, is_in_summary, running_hours, hours_of, needs_review, total_hours,
  get_user_totals, get_daily_summary,
}
use ski_tech_backend.Attendance.Totals.Laws.{get_user_totals_complete}
use ski_tech_backend.Attendance.Today.{user_of, is_today, get_property_attendance_today}
use ski_tech_backend.Attendance.History.{HistoryFilter, is_in_history, get_attendance_history}
use ski_tech_backend.Checks.{rt, start, colleague, at_1000}

is_ordered : IsOrdered rt
is_ordered = record {
  le_of_not_lt = λ a b h. ground arith;
  le_refl = λ a. ground arith;
  le_trans = λ a b c h k. ground arith;
  of_int_mono = λ a b h. ground arith;
}

abbrev worked : AttendanceRecord ℕ
worked = record colleague {
  status = completed;
  punch_out_time = some (aware at_1000);
  hours_worked = some 7;
}

worked_hours : hours_of rt at_1000 worked ≡ some 7
unfolding hours_of is_stale running_hours
worked_hours = refl

abbrev Totals : Type 0
Totals =
    let all = select (is_users 100 10 1) start.attendance_records in
    let totals = get_user_totals rt 100 10 1 (hours 984) (hours 840) at_1000 start in
    (totals.hours_today ≡ total_hours rt at_1000 (hours 984) all)
    × (totals.hours_this_week ≡ total_hours rt at_1000 (hours 840) all)
    × (totals.needs_review_this_week
        ≡ length (select (λ r. starts_from (hours 840) r && needs_review rt r) all))

get_user_totals_complete_example : Totals
get_user_totals_complete_example =
    get_user_totals_complete rt 100 10 1 (hours 984) (hours 840) at_1000 start

abbrev Summary : Type 0
Summary =
    let records = select (is_in_summary 101 1 at_1000) start.attendance_records in
    let summary = get_daily_summary rt 101 1 at_1000 start in
    (summary.outside_fence_count ≡ length (select (λ r. not r.is_within_fence) records))
    × (summary.within_fence_count + summary.outside_fence_count ≡ summary.total_records)

abbrev Rows : Type 0
Rows =
    let rows = get_property_attendance_today 10 1 at_1000 start in
    Distinct (map user_of rows)
    × ((u : Uuid)
        → contains (map user_of rows) u
          ≡ contains (map user_of (select (is_today 10 1 at_1000) start.attendance_records)) u)

abbrev completed_only : HistoryFilter
completed_only = record {
  property_id = some 10;
  start_date = none;
  end_date = none;
  is_within_fence = none;
  status = some completed;
}

abbrev History : Type 0
History =
    let (page, total) = get_attendance_history 100 1 completed_only 0 50 start in
    All (λ r. is_in_history 100 1 completed_only r ≡ true) page
    × (length page ≤ 50)
    × (total ≡ length (select (is_in_history 100 1 completed_only) start.attendance_records))
