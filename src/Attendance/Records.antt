-- ===== src/Attendance/Records.antt =====
-- app/services/attendance_service.py: the limits, stale and open records, and the location check
-- that every punch passes.
use ski_tech_backend.Base.{
  ℕ, ◌-◌, Bool, true, ◌&&◌, not, Option, none, List, ◌==◌, ltb, is_none, is_some, get_or, select,
  first, order_by_desc, pos,
}
use ski_tech_backend.Runtime.{Runtime, Uuid, Instant, DateTime, aware, naive, hours}
use ski_tech_backend.Session.{
  Action, invalid_coordinates, no_geofence, low_accuracy, outside_fence, value_error, pure,
  raise_if, gets, or_raise, ◌>>=◌, ◌>>◌,
}
use ski_tech_backend.Models.{AttendanceRecord, PropertyGeofence, is_active, auto_closed, Db}
use ski_tech_backend.Geolocation.{haversine_distance, validate_coordinates, get_accuracy_warning}

abbrev pub stale_shift_hours : ℕ
stale_shift_hours = 16

abbrev pub max_shift_hours : ℕ
max_shift_hours = 12

abbrev pub max_plausible_hours : ℕ
max_plausible_hours = 24

-- A naive value is read as UTC.
abbrev pub as_utc : DateTime → Instant
as_utc (aware t) = t
as_utc (naive t) = t

-- The location part of a punch request.
pub record GeolocationData (Float : Type 0) : Type 0 where
  pub latitude : Float
  pub longitude : Float
  pub accuracy : Option Float

module _ {Float : Type 0} where
  -- A punch-in later than `now` is not stale: the truncated difference is then 0.
  unfoldable pub is_stale : AttendanceRecord Float → Instant → Bool
  is_stale r now = ltb (hours stale_shift_hours) (now - as_utc r.punch_in_time)

  abbrev pub auto_close : AttendanceRecord Float → AttendanceRecord Float
  auto_close r = record r { status = auto_closed; current_status = none }

  -- The filter of `_open_records`.
  abbrev pub is_open_for : Uuid → Uuid → Uuid → AttendanceRecord Float → Bool
  is_open_for user_id property_id tenant_id r =
      r.user_id == user_id
      && (r.property_id == property_id
          && (r.tenant_id == tenant_id && (is_active r.status && is_none r.punch_out_time)))

  abbrev pub punched_in_at : AttendanceRecord Float → ℕ
  punched_in_at r = as_utc r.punch_in_time

  -- The user's open records at a property, newest first.
  unfoldable pub open_records : Uuid → Uuid → Uuid → Db Float → List (AttendanceRecord Float)
  open_records user_id property_id tenant_id d =
      order_by_desc punched_in_at
        (select (is_open_for user_id property_id tenant_id) d.attendance_records)

  abbrev pub is_fence_of : Uuid → Uuid → PropertyGeofence Float → Bool
  is_fence_of property_id tenant_id g = g.property_id == property_id && g.tenant_id == tenant_id

  unfoldable pub find_geofence : Uuid → Uuid → Db Float → Option (PropertyGeofence Float)
  find_geofence property_id tenant_id d =
      first (select (is_fence_of property_id tenant_id) d.property_geofences)

module _ {Float : Type 0} (rt : Runtime Float) where
  open rt use {of_int, sub, le}

  -- `distance - (accuracy or 0.0) <= radius_meters`
  unfoldable pub is_inside_fence : Float → Option Float → ℕ → Bool
  is_inside_fence distance accuracy radius_meters =
      le (sub distance (get_or accuracy (of_int (pos 0)))) (of_int (pos radius_meters))

  unfoldable pub distance_to : GeolocationData Float → PropertyGeofence Float → Float
  distance_to geo fence =
      haversine_distance rt geo.latitude geo.longitude fence.center_lat fence.center_lng

  -- Whether a punch may be recorded here: that it is inside, and the distance.
  unfoldable pub check_punch_location :
      Uuid → Uuid → GeolocationData Float → Action (Db Float) (Bool × Float)
  check_punch_location property_id tenant_id geo = do
    raise_if (is_some (validate_coordinates rt geo.latitude geo.longitude geo.accuracy))
        (value_error invalid_coordinates)
    found ← gets (find_geofence property_id tenant_id)
    geofence ← or_raise found (value_error no_geofence)
    raise_if (get_accuracy_warning rt geo.accuracy) (value_error low_accuracy)
    raise_if (not (is_inside_fence (distance_to geo geofence) geo.accuracy geofence.radius_meters))
        (value_error outside_fence)
    pure (true, distance_to geo geofence)
