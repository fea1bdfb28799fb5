-- ===== src/GeofenceRequests/Review/Live.antt =====
-- What an approval makes the live geofence.
use ski_tech_backend.Base.{
  Bool, false, Option, none, some, ◌≡◌, refl, arith, is_none, ==_refl, String, first-update_row,
  first-append, first-select,
}
use ski_tech_backend.Runtime.{Uuid, Instant}
use ski_tech_backend.Session.{ok, run_request}
use ski_tech_backend.Models.{approved, GeofenceChangeRequest, PropertyGeofence, Token, Db}
use ski_tech_backend.Scope.{find_property}
use ski_tech_backend.Attendance.Records.{find_geofence, is_fence_of}
use ski_tech_backend.Attendance.Geofences.{geofence_id}
use ski_tech_backend.GeofenceRequests.Submit.{close_inbox_item}
use ski_tech_backend.GeofenceRequests.Review.{
  moved_geofence, proposed_geofence, closed_as, save_request, notify_requester, approved_geofence,
  write_geofence, approve_request,
}
use ski_tech_backend.GeofenceRequests.Review.Guards.{MayReview, approve_request_ok}

module _ {Float : Type 0} where
  -- The write of an approval is what a later query of the geofence finds.
  find-write_geofence :
      (new_id : Uuid) (r : GeofenceChangeRequest Float) (d : Db Float)
      (before : Option (PropertyGeofence Float))
      → find_geofence r.property_id r.tenant_id d ≡ before
      → find_geofence r.property_id r.tenant_id (write_geofence new_id r before d)
        ≡ some (approved_geofence new_id r before)
  unfolding find_geofence write_geofence approved_geofence moved_geofence proposed_geofence
  find-write_geofence new_id r d none e =
      first-append (is_fence_of r.property_id r.tenant_id) (proposed_geofence new_id r)
        d.property_geofences e (ground (arith, ==_refl r.property_id, ==_refl r.tenant_id))
  find-write_geofence new_id r d (some g) e =
      first-update_row geofence_id (is_fence_of r.property_id r.tenant_id) (moved_geofence r g)
        d.property_geofences e (first-select _ d.property_geofences e) refl

  -- The geofence that an approval leaves has the centre and radius that the request proposed.
  abbrev pub IsAsProposed : GeofenceChangeRequest Float → PropertyGeofence Float → Type 0
  IsAsProposed r g =
      (g.center_lat ≡ r.center_lat)
      × (g.center_lng ≡ r.center_lng)
      × (g.radius_meters ≡ r.radius_meters)

  approved_geofence-IsAsProposed :
      (new_id : Uuid) (r : GeofenceChangeRequest Float) (before : Option (PropertyGeofence Float))
      → IsAsProposed r (approved_geofence new_id r before)
  unfolding approved_geofence moved_geofence proposed_geofence
  approved_geofence-IsAsProposed new_id r none = (refl, refl, refl)
  approved_geofence-IsAsProposed new_id r (some g) = (refl, refl, refl)

  -- After an approval that succeeds, the tenant's geofence of the property is the one that was
  -- answered, with the centre and radius that the request proposed. The caller is a geofence
  -- administrator by the role stored now, is not the one who made the request, and the request was
  -- pending and its property not deleted.
  pub approve_request_applies :
      (write_fails : Bool) (item_id new_id : Uuid) (now : Instant) (user : Token) (id : Uuid)
      (note : Option String) (d d' : Db Float) (r : GeofenceChangeRequest Float)
      (g : PropertyGeofence Float)
      → run_request (approve_request write_fails item_id new_id now user id note) d
        ≡ (ok (r, g), d')
      → (find_geofence r.property_id r.tenant_id d' ≡ some g)
        × IsAsProposed r g
        × (request : GeofenceChangeRequest Float) × (reviewer : Uuid) × MayReview d user id request
            reviewer
        × (r ≡ closed_as approved reviewer now note request)
        × (is_none (find_property r.property_id r.tenant_id d) ≡ false)
  unfolding save_request close_inbox_item notify_requester find_geofence
  approve_request_applies write_fails item_id new_id now user id note d d' r g h =
      let (request, reviewer, may, live, free, p, q, e) =
        approve_request_ok write_fails item_id now user id note new_id d d' r g h in
      let before = find_geofence request.property_id request.tenant_id d in
      let found = find-write_geofence new_id request d before refl in
      let proposed = approved_geofence-IsAsProposed new_id request before in
      (rw (e, p, q) found, rw (p, q) proposed, request, reviewer, may, p, rw p live)
