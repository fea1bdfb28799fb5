-- ===== src/Attendance/Today.antt =====
-- app/services/attendance_service.py, `get_property_attendance_today`: one row for each user.
pub mod Laws
use ski_tech_backend.Base.{
  ℕ, ◌+◌, Bool, true, false, ◌&&◌, List, [], ◌∷◌, map, ◌==◌, leb, ltb, if◌then◌else◌, select,
  contains, order_by,
}
use ski_tech_backend.Runtime.{Uuid, Instant}
use ski_tech_backend.Models.{AttendanceRecord, is_active, is_completed, Db}
use ski_tech_backend.Attendance.Records.{punched_in_at}
use ski_tech_backend.Attendance.Totals.{start_of_day}

module _ {Float : Type 0} where
  abbrev pub user_of : AttendanceRecord Float → Uuid
  user_of r = r.user_id

  abbrev pub is_today : Uuid → Uuid → Instant → AttendanceRecord Float → Bool
  is_today property_id tenant_id now r =
      r.property_id == property_id
      && (r.tenant_id == tenant_id
          && (leb (start_of_day now) (punched_in_at r)
              && ltb (punched_in_at r) (start_of_day now + 86400000000)))

  -- Python's `max(..., key=punch_in_time)`, which keeps the first of equals.
  unfoldable pub latest :
      AttendanceRecord Float → List (AttendanceRecord Float) → AttendanceRecord Float
  latest best [] = best
  latest best (r ∷ rs) = latest (if ltb (punched_in_at best) (punched_in_at r) then r else best) rs

  -- The row of a user: the latest active record, else the latest completed one, else the latest.
  -- `recs` starts with `r`.
  row_from :
      AttendanceRecord Float
      → List (AttendanceRecord Float)
      → List (AttendanceRecord Float)
      → List (AttendanceRecord Float)
      → AttendanceRecord Float
  unfolding latest
  row_from r rs (a ∷ active_rest) completed_recs = latest a active_rest
  row_from r rs [] (c ∷ completed_rest) = latest c completed_rest
  row_from r rs [] [] = latest r rs

  unfoldable pub row_for :
      AttendanceRecord Float → List (AttendanceRecord Float) → AttendanceRecord Float
  unfolding row_from
  row_for r rs =
      row_from r rs (select (λ x. is_active x.status) (r ∷ rs))
        (select (λ x. is_completed x.status) (r ∷ rs))

  -- The row of a user's group; no user's group is empty.
  rows_of_group : List (AttendanceRecord Float) → List (AttendanceRecord Float)
  unfolding row_for
  rows_of_group [] = []
  rows_of_group (r ∷ rs) = row_for r rs ∷ []

  -- The keys of the dict of groups, in insertion order; `found` holds those already there.
  unfoldable pub group_keys : List Uuid → List (AttendanceRecord Float) → List Uuid
  group_keys found [] = []
  group_keys found (r ∷ rs) =
      if contains found r.user_id
      then group_keys found rs
      else r.user_id ∷ group_keys (r.user_id ∷ found) rs

  unfoldable pub rows_for :
      List Uuid → List (AttendanceRecord Float) → List (AttendanceRecord Float)
  unfolding rows_of_group
  rows_for [] records = []
  rows_for (u ∷ us) records = elim (select (λ r. r.user_id == u) records) [
    | [] ↦ rows_for us records
    | r ∷ rs ↦ row_for r rs ∷ rows_for us records
  ]

  unfoldable pub get_property_attendance_today :
      Uuid → Uuid → Instant → Db Float → List (AttendanceRecord Float)
  unfolding rows_for group_keys
  get_property_attendance_today property_id tenant_id now d =
      let records =
        order_by punched_in_at (select (is_today property_id tenant_id now) d.attendance_records) in
      order_by punched_in_at (rows_for (group_keys [] records) records)
