-- ===== src/Geolocation.antt =====
-- app/utils/geolocation.py: the distance between two points, the checks on coordinates, and the
-- geofence test with its boundary.
use ski_tech_backend.Base.{
  ℕ, ◌+◌, Bool, true, false, not, ◌&&◌, Option, none, some, if◌then◌else◌, pos, negsuc, sub_ℕ,
}
use ski_tech_backend.Runtime.{Runtime}

pub data LocationStatus : Type 0 where
  inside_geofence outside_geofence at_boundary : LocationStatus

pub data CoordinateError : Type 0 where
  bad_latitude bad_longitude negative_accuracy : CoordinateError

module _ {Float : Type 0} (rt : Runtime Float) where
  open rt use {of_int, add, sub, mul, div, le, lt, radians, sin, cos, asin, sqrt}

  unfoldable pub square : Float → Float
  square x = mul x x

  -- The distance in metres, which is the unit of every call.
  unfoldable pub haversine_distance : Float → Float → Float → Float → Float
  unfolding square
  haversine_distance lat1 lon1 lat2 lon2 =
      let lat1_rad = radians lat1 in
      let lat2_rad = radians lat2 in
      let dlat = sub lat2_rad lat1_rad in
      let dlon = sub (radians lon2) (radians lon1) in
      let a =
        add (square (sin (div dlat (of_int (pos 2)))))
          (mul (mul (cos lat1_rad) (cos lat2_rad)) (square (sin (div dlon (of_int (pos 2)))))) in
      mul (of_int (pos 12742000)) (asin (sqrt a))

  -- The first check that fails, if any.
  unfoldable pub validate_coordinates : Float → Float → Option Float → Option CoordinateError
  validate_coordinates latitude longitude accuracy =
      if not (le (of_int (negsuc 89)) latitude && le latitude (of_int (pos 90)))
      then some bad_latitude
      else if not (le (of_int (negsuc 179)) longitude && le longitude (of_int (pos 180)))
      then some bad_longitude
      else elim accuracy [
        | none ↦ none
        | some a ↦ if lt a (of_int (pos 0)) then some negative_accuracy else none
      ]

  -- Whether `get_accuracy_warning` has a warning, at its default threshold of 100 m.
  unfoldable pub get_accuracy_warning : Option Float → Bool
  get_accuracy_warning none = false
  get_accuracy_warning (some a) = lt (of_int (pos 100)) a

  unfoldable pub is_within_geofence :
      Float → Float → Float → Float → ℕ → ℕ → Bool × Float × LocationStatus
  is_within_geofence user_lat user_lon center_lat center_lon radius_meters boundary_buffer =
      let distance = haversine_distance user_lat user_lon center_lat center_lon in
      if le distance (of_int (sub_ℕ radius_meters boundary_buffer))
      then (true, distance, inside_geofence)
      else if le distance (of_int (pos (radius_meters + boundary_buffer)))
      then (true, distance, at_boundary)
      else (false, distance, outside_geofence)
