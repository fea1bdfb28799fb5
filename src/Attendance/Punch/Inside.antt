-- ===== src/Attendance/Punch/Inside.antt =====
-- Where a punch is accepted: the tests on its coordinates, written out.
use ski_tech_backend.Base.{
  Bool, true, false, inl, inr, ◌⊎◌, Option, none, some, ◌≡◌, refl, ap, arith, Option-cases, get_or,
  pos, negsuc,
}
use ski_tech_backend.Runtime.{Runtime, Uuid}
use ski_tech_backend.Session.{ok, begin}
use ski_tech_backend.Models.{PropertyGeofence, Db}
use ski_tech_backend.Geolocation.{haversine_distance, validate_coordinates, get_accuracy_warning}
use ski_tech_backend.Attendance.Records.{
  GeolocationData, find_geofence, is_inside_fence, distance_to, check_punch_location,
}

module _ {Float : Type 0} (rt : Runtime Float) where
  open rt use {of_int, sub, le, lt}

  -- No accuracy is given, or one from 0 to 100 metres.
  abbrev pub IsAccurate : Option Float → Type 0
  IsAccurate accuracy =
      (accuracy ≡ none)
      ⊎ ((a : Float) × (accuracy ≡ some a)
          × (lt a (of_int (pos 0)) ≡ false)
          × (lt (of_int (pos 100)) a ≡ false))

  -- The coordinates are in range, and their distance from the centre, less the accuracy, is at most
  -- the radius.
  abbrev pub IsInside : GeolocationData Float → PropertyGeofence Float → Float → Type 0
  IsInside geo fence distance =
      (distance
        ≡ haversine_distance rt geo.latitude geo.longitude fence.center_lat fence.center_lng)
      × (le (sub distance (get_or geo.accuracy (of_int (pos 0)))) (of_int (pos fence.radius_meters))
          ≡ true)
      × (le (of_int (negsuc 89)) geo.latitude ≡ true)
      × (le geo.latitude (of_int (pos 90)) ≡ true)
      × (le (of_int (negsuc 179)) geo.longitude ≡ true)
      × (le geo.longitude (of_int (pos 180)) ≡ true)
      × IsAccurate geo.accuracy

  coordinates_in_range :
      (latitude longitude : Float) (accuracy : Option Float)
      → validate_coordinates rt latitude longitude accuracy ≡ none
      → (le (of_int (negsuc 89)) latitude ≡ true)
        × (le latitude (of_int (pos 90)) ≡ true)
        × (le (of_int (negsuc 179)) longitude ≡ true)
        × (le longitude (of_int (pos 180)) ≡ true)
  unfolding validate_coordinates
  coordinates_in_range latitude longitude none h =
      (ground arith, ground arith, ground arith, ground arith)
  coordinates_in_range latitude longitude (some a) h =
      (ground arith, ground arith, ground arith, ground arith)

  accuracy_in_range :
      (latitude longitude : Float) (accuracy : Option Float)
      → validate_coordinates rt latitude longitude accuracy ≡ none
      → get_accuracy_warning rt accuracy ≡ false
      → IsAccurate accuracy
  unfolding validate_coordinates get_accuracy_warning
  accuracy_in_range latitude longitude none h w = inl refl
  accuracy_in_range latitude longitude (some a) h w = inr (a, refl, ground arith, w)

  -- An accepted location is inside the geofence that the property has in the tenant.
  pub check_punch_location-IsInside :
      (property_id tenant_id : Uuid) (geo : GeolocationData Float) (d : Db Float) (w : Bool × Float)
      → (check_punch_location rt property_id tenant_id geo (begin d)).0 ≡ ok w
      → (fence : PropertyGeofence Float) × (find_geofence property_id tenant_id d ≡ some fence)
        × (w.0 ≡ true)
        × IsInside geo fence w.1
  unfolding check_punch_location is_inside_fence distance_to
  check_punch_location-IsInside property_id tenant_id geo d w h =
      elim (Option-cases (find_geofence property_id tenant_id d)) [
        | inl e ↦ ground arith
        | inr (fence, e) ↦
            let valid : validate_coordinates rt geo.latitude geo.longitude geo.accuracy ≡ none =
              ground arith in
            let accurate : get_accuracy_warning rt geo.accuracy ≡ false = ground arith in
            let at : w ≡ (true, distance_to rt geo fence) = ground arith in
            let near : is_inside_fence rt (distance_to rt geo fence) geo.accuracy
                  fence.radius_meters
                ≡ true =
              ground arith in
            let (a, b, x, y) = coordinates_in_range geo.latitude geo.longitude geo.accuracy valid in
            let distance = ap (λ (v : Bool × Float). v.1) at in
            (
              fence,
              e,
              ap (λ (v : Bool × Float). v.0) at,
              (
                distance,
                rw distance near,
                a,
                b,
                x,
                y,
                accuracy_in_range geo.latitude geo.longitude geo.accuracy valid accurate,
              ),
            )
      ]
