-- ===== src/Attendance/Punch.antt =====
-- app/services/attendance_service.py, `AttendanceService`: punching in and out.
pub mod In
pub mod Out
pub mod Outcome
pub mod Inside
pub mod Others
use ski_tech_backend.Base.{
  Bool, not, Option, none, some, List, [], ◌∷◌, ◌++◌, map, String, if◌then◌else◌, any,
  update_listed, update_row, first, truthy, sub_ℕ, pos,
}
use ski_tech_backend.Runtime.{Runtime, Uuid, Instant, aware}
use ski_tech_backend.Session.{
  Action, already_punched_in, no_active_punch_in, value_error, pure, raise, raise_if, gets, modify,
  commit, ◌>>=◌, ◌>>◌,
}
use ski_tech_backend.Models.{AttendanceRecord, active, completed, Db}
use ski_tech_backend.Attendance.Records.{
  GeolocationData, as_utc, is_stale, auto_close, open_records, check_punch_location,
}

-- `PunchInRequest` and `PunchOutRequest`, without the device text that is not stored.
pub record PunchRequest (Float : Type 0) : Type 0 where
  pub geolocation : GeolocationData Float
  pub notes : Option String

module _ {Float : Type 0} where
  abbrev pub record_id : AttendanceRecord Float → Uuid
  record_id r = r.id

  -- The loop of `auto_close` over some of the session's records.
  unfoldable pub auto_close_all : List (AttendanceRecord Float) → Db Float → Db Float
  auto_close_all rs d = record d {
    attendance_records = update_listed record_id (map record_id rs) auto_close d.attendance_records;
  }

  unfoldable pub add_record : AttendanceRecord Float → Db Float → Db Float
  add_record r d = record d { attendance_records = d.attendance_records ++ r ∷ [] }

  -- The session's changes to one record.
  unfoldable pub save_record : AttendanceRecord Float → Db Float → Db Float
  save_record r d = record d {
    attendance_records = update_row record_id r.id (λ _. r) d.attendance_records;
  }

  -- The record that a punch-in adds.
  unfoldable pub new_record :
      Instant
      → Uuid
      → Uuid
      → Uuid
      → Uuid
      → PunchRequest Float
      → Bool
      → Float
      → AttendanceRecord Float
  new_record now new_id user_id property_id tenant_id req is_within distance = record {
    id = new_id;
    tenant_id = tenant_id;
    user_id = user_id;
    property_id = property_id;
    punch_in_time = aware now;
    punch_in_lat = req.geolocation.latitude;
    punch_in_lon = req.geolocation.longitude;
    punch_in_acc = req.geolocation.accuracy;
    is_within_fence = is_within;
    distance_meters = some distance;
    punch_out_time = none;
    punch_out_lat = none;
    punch_out_lon = none;
    punch_out_acc = none;
    punch_out_within_fence = none;
    punch_out_distance_meters = none;
    hours_worked = none;
    status = active;
    current_status = none;
    notes = req.notes;
  }

module _ {Float : Type 0} (rt : Runtime Float) where
  open rt use {of_int, div, round2, total_seconds}

  -- `create_punch_in`; the flag that the source returns beside the record is always False.
  unfoldable pub create_punch_in :
      Instant
      → Uuid
      → Uuid
      → Uuid
      → Uuid
      → PunchRequest Float
      → Action (Db Float) (AttendanceRecord Float)
  create_punch_in now new_id user_id property_id tenant_id req = do
    open_now ← gets (open_records user_id property_id tenant_id)
    raise_if (any (λ r. not (is_stale r now)) open_now) (value_error already_punched_in)
    where_at ← check_punch_location rt property_id tenant_id req.geolocation
    modify (auto_close_all open_now)
    modify
        (add_record (new_record now new_id user_id property_id tenant_id req where_at.0 where_at.1))
    commit
    pure (new_record now new_id user_id property_id tenant_id req where_at.0 where_at.1)

  -- `round(duration.total_seconds() / 3600, 2)`
  unfoldable pub hours_from : Instant → Instant → Float
  hours_from start end = round2 (div (total_seconds (sub_ℕ end start)) (of_int (pos 3600)))

  -- The assignments that complete a record.
  unfoldable pub complete_record :
      Instant → PunchRequest Float → Bool → Float → AttendanceRecord Float → AttendanceRecord Float
  unfolding hours_from
  complete_record now req is_within distance r = record r {
    punch_out_time = some (aware now);
    punch_out_lat = some req.geolocation.latitude;
    punch_out_lon = some req.geolocation.longitude;
    punch_out_acc = req.geolocation.accuracy;
    punch_out_within_fence = some is_within;
    punch_out_distance_meters = some distance;
    status = completed;
    notes = if truthy req.notes then req.notes else r.notes;
    hours_worked = some (hours_from (as_utc r.punch_in_time) now);
  }

  -- The newest open record after the punch-out: closed without hours if it is stale.
  abbrev pub closed_record :
      Instant → PunchRequest Float → Bool → Float → AttendanceRecord Float → AttendanceRecord Float
  closed_record now req is_within distance r =
      if is_stale r now then auto_close r else complete_record now req is_within distance r

  -- Everything after the query: `older` is what `open_records[1:]` holds. The result's flag says
  -- that the shift was stale.
  unfoldable pub punch_out_from :
      Instant
      → Uuid
      → Uuid
      → PunchRequest Float
      → List (AttendanceRecord Float)
      → Action (Db Float) (AttendanceRecord Float × Bool)
  punch_out_from now property_id tenant_id req [] = raise (value_error no_active_punch_in)
  punch_out_from now property_id tenant_id req (attendance ∷ older) = do
    where_at ← check_punch_location rt property_id tenant_id req.geolocation
    modify (auto_close_all older)
    modify (save_record (closed_record now req where_at.0 where_at.1 attendance))
    commit
    pure (closed_record now req where_at.0 where_at.1 attendance, is_stale attendance now)

  unfoldable pub create_punch_out :
      Instant
      → Uuid
      → Uuid
      → Uuid
      → PunchRequest Float
      → Action (Db Float) (AttendanceRecord Float × Bool)
  unfolding punch_out_from
  create_punch_out now user_id property_id tenant_id req = do
    open_now ← gets (open_records user_id property_id tenant_id)
    punch_out_from now property_id tenant_id req open_now

module _ {Float : Type 0} where
  unfoldable pub get_active_punch_in :
      Uuid → Uuid → Uuid → Db Float → Option (AttendanceRecord Float)
  get_active_punch_in user_id property_id tenant_id d =
      first (open_records user_id property_id tenant_id d)
