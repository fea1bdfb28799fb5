-- ===== src/Attendance/History.antt =====
-- app/services/attendance_service.py: the user's history and the property's week.
use ski_tech_backend.Base.{
  ℕ, ◌-◌, ◌*◌, ◌≤◌, Bool, true, false, ◌&&◌, Option, none, some, All, List, ◌≡◌, refl, ◌==◌, leb,
  if◌then◌else◌, select, take, drop, length, order_by, order_by_desc, All-select, All-order_by_desc,
  All-take, All-drop, length-take, not,
}
use ski_tech_backend.Runtime.{Uuid, Instant}
use ski_tech_backend.Models.{AttendanceStatus, active, completed, auto_closed, AttendanceRecord, Db}
use ski_tech_backend.Attendance.Records.{punched_in_at}
use ski_tech_backend.Attendance.Totals.{start_of_day}

-- The optional arguments of `get_attendance_history`.
pub record HistoryFilter : Type 0 where
  pub property_id : Option Uuid
  pub start_date : Option Instant
  pub end_date : Option Instant
  pub is_within_fence : Option Bool
  pub status : Option AttendanceStatus

abbrev is_status : AttendanceStatus → AttendanceStatus → Bool
is_status active active = true
is_status completed completed = true
is_status auto_closed auto_closed = true
is_status _ _ = false

-- A filter that is left out holds of everything.
abbrev holds_of {ℓ} : {A : Type ℓ} → Option A → (A → Bool) → Bool
holds_of none test = true
holds_of (some a) test = test a

module _ {Float : Type 0} where
  unfoldable pub is_in_history : Uuid → Uuid → HistoryFilter → AttendanceRecord Float → Bool
  is_in_history user_id tenant_id f r =
      r.user_id == user_id
      && (r.tenant_id == tenant_id
          && (holds_of f.property_id (λ p. r.property_id == p)
              && (holds_of f.start_date (λ t. leb t (punched_in_at r))
                  && (holds_of f.end_date (λ t. leb (punched_in_at r) t)
                      && (holds_of f.is_within_fence
                            (λ w. if w then r.is_within_fence else not r.is_within_fence)
                          && holds_of f.status (λ s. is_status s r.status))))))

  -- The page, newest first, and the total count.
  unfoldable pub get_attendance_history :
      Uuid → Uuid → HistoryFilter → ℕ → ℕ → Db Float → List (AttendanceRecord Float) × ℕ
  unfolding is_in_history
  get_attendance_history user_id tenant_id f skip limit d =
      let found = select (is_in_history user_id tenant_id f) d.attendance_records in
      (take limit (drop skip (order_by_desc punched_in_at found)), length found)

  -- The records from six days before today's first moment, oldest first.
  unfoldable pub get_property_attendance_week :
      Uuid → Uuid → Instant → Db Float → List (AttendanceRecord Float)
  get_property_attendance_week property_id tenant_id now d = order_by punched_in_at (
      select
        (λ r.
          r.property_id == property_id
          && (r.tenant_id == tenant_id
              && leb (start_of_day (now - 6 * 86400000000)) (punched_in_at r)))
        d.attendance_records)

  -- Every record of a page of the history is the user's own in the tenant and meets the filters.
  -- The page has at most `limit` records, and the total is the number of records that meet them.
  pub get_attendance_history_filtered :
      (user_id tenant_id : Uuid) (f : HistoryFilter) (skip limit : ℕ) (d : Db Float)
      → let (page, total) = get_attendance_history user_id tenant_id f skip limit d in
        All (λ r. is_in_history user_id tenant_id f r ≡ true) page
        × (length page ≤ limit)
        × (total ≡ length (select (is_in_history user_id tenant_id f) d.attendance_records))
  unfolding get_attendance_history
  get_attendance_history_filtered user_id tenant_id f skip limit d =
      let P : AttendanceRecord Float → Type 0 = λ r. is_in_history user_id tenant_id f r ≡ true in
      (
        All-take P limit _ (
            All-drop P skip _ (
              All-order_by_desc P punched_in_at _
                (All-select (is_in_history user_id tenant_id f) d.attendance_records))),
        length-take limit _,
        refl,
      )
