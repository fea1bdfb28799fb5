-- ===== src/GeofenceRequests/Review.antt =====
-- Reviewing a geofence change request: only an approval reaches the live geofence.
pub mod Guards
pub mod Live
pub mod Kept
use ski_tech_backend.Base.{
  ℕ, Bool, true, false, not, ◌&&◌, ◌||◌, Option, none, some, List, [], ◌∷◌, ◌++◌, String, ◌==◌,
  if◌then◌else◌, is_none, is_some, get_or, opt_eq, any, select, first, update_row, truthy,
}
use ski_tech_backend.Runtime.{Runtime, Uuid, Instant}
use ski_tech_backend.Text.{joined}
use ski_tech_backend.Session.{
  Action, request_not_found, own_request, not_requester, already_closed, role_changed,
  property_deleted, concurrent_submit, pure, raise, raise_if, gets, or_raise, modify, commit,
  rollback_if, ◌>>=◌, ◌>>◌,
}
use ski_tech_backend.Models.{
  RequestStatus, approved, rejected, cancelled, is_pending, status_text, GeofenceChangeRequest,
  PropertyGeofence, Property, Token, Db,
}
use ski_tech_backend.Scope.{
  caller_tenant, user_uuid, assigned_property, find_property, still_geofence_admin, is_manager,
  is_elsewhere,
}
use ski_tech_backend.Inbox.{ItemFields, notify}
use ski_tech_backend.Attendance.Records.{find_geofence}
use ski_tech_backend.Attendance.Geofences.{add_geofence, save_geofence, has_fence}
use ski_tech_backend.GeofenceRequests.Submit.{inbox_module, request_id, close_inbox_item}

-- The name by which a notification calls the property.
property_name_of : Option Property → String
property_name_of none = "your property"
property_name_of (some p) = if truthy (some p.name) then p.name else "your property"

module _ {Float : Type 0} where
  -- `_close`
  abbrev pub closed_as :
      RequestStatus
      → Uuid
      → Instant
      → Option String
      → GeofenceChangeRequest Float
      → GeofenceChangeRequest Float
  closed_as status reviewer now note r = record r {
    status = status;
    reviewed_by = some reviewer;
    reviewed_at = some now;
    review_note = note;
  }

  unfoldable pub find_request : Uuid → Uuid → Db Float → Option (GeofenceChangeRequest Float)
  find_request id tenant_id d =
      first (select (λ r. r.id == id && r.tenant_id == tenant_id) d.geofence_change_requests)

  -- `_get_for_update`
  unfoldable pub get_for_update : Uuid → Token → Action (Db Float) (GeofenceChangeRequest Float)
  get_for_update id user = do
    tenant_id ← or_raise (caller_tenant user) request_not_found
    found ← gets (find_request id tenant_id)
    request ← or_raise found request_not_found
    raise_if
        (not (is_manager user.role) && is_elsewhere (assigned_property user) request.property_id)
        request_not_found
    pure request

  unfoldable pub ensure_reviewable :
      GeofenceChangeRequest Float → Uuid → Action (Db Float) (Unit {0})
  ensure_reviewable request reviewer = do
    raise_if (not (is_pending request.status)) already_closed
    raise_if (opt_eq request.requested_by (some reviewer)) own_request

  unfoldable pub save_request : GeofenceChangeRequest Float → Db Float → Db Float
  save_request r d = record d {
    geofence_change_requests = update_row request_id r.id (λ _. r) d.geofence_change_requests;
  }

  find_any_property : Uuid → Db Float → Option Property
  find_any_property id d = first (select (λ p. p.id == id) d.properties)

  -- `_notify_requester`
  outcome_item : Uuid → GeofenceChangeRequest Float → String → Bool → ItemFields
  outcome_item item_id r property_name is_approved = record {
    new_id = item_id;
    tenant_id = r.tenant_id;
    property_id = some r.property_id;
    source_module = inbox_module;
    item_type = joined ("geofence_request_" ∷ status_text r.status ∷ []);
    source_record_id = r.id;
    recipient_user_id = r.requested_by;
    recipient_role = none;
    title = joined ("Punch location request " ∷ status_text r.status ∷ []);
    body = joined (
        "The punch location you proposed for "
        ∷ property_name
        ∷ (if is_approved then " is now in use." else " was not applied.")
        ∷ []);
  }

  unfoldable pub notify_requester :
      Bool → Uuid → GeofenceChangeRequest Float → Bool → Db Float → Db Float
  unfolding notify outcome_item property_name_of find_any_property
  notify_requester write_fails item_id r is_approved d = record d {
    inbox_items =
        notify write_fails
          (outcome_item item_id r (property_name_of (find_any_property r.property_id d))
            is_approved)
          d.inbox_items;
  }

  -- The geofence that an approval leaves: a new one, or the live one moved.
  unfoldable pub proposed_geofence : Uuid → GeofenceChangeRequest Float → PropertyGeofence Float
  proposed_geofence new_id r = record {
    id = new_id;
    tenant_id = r.tenant_id;
    property_id = r.property_id;
    property_name = none;
    center_lat = r.center_lat;
    center_lng = r.center_lng;
    radius_meters = r.radius_meters;
    address = r.address;
    city = none;
    country = none;
    alert_on_breach = true;
  }

  unfoldable pub moved_geofence :
      GeofenceChangeRequest Float → PropertyGeofence Float → PropertyGeofence Float
  moved_geofence r g = record g {
    center_lat = r.center_lat;
    center_lng = r.center_lng;
    radius_meters = r.radius_meters;
    address = if truthy r.address then r.address else g.address;
  }

  unfoldable pub approved_geofence :
      Uuid → GeofenceChangeRequest Float → Option (PropertyGeofence Float) → PropertyGeofence Float
  unfolding proposed_geofence moved_geofence
  approved_geofence new_id r none = proposed_geofence new_id r
  approved_geofence new_id r (some g) = moved_geofence r g

  unfoldable pub write_geofence :
      Uuid → GeofenceChangeRequest Float → Option (PropertyGeofence Float) → Db Float → Db Float
  unfolding proposed_geofence moved_geofence
  write_geofence new_id r none d = add_geofence (proposed_geofence new_id r) d
  write_geofence new_id r (some g) d = save_geofence (moved_geofence r g) d

  -- Whether the flush that `notify` begins with fails on the insert: the unique
  -- constraint on property_id refuses it where the property has a geofence of another tenant.
  abbrev pub is_insert_refused :
      GeofenceChangeRequest Float → Option (PropertyGeofence Float) → Db Float → Bool
  is_insert_refused r (some g) d = false
  is_insert_refused r none d = has_fence r.property_id d

  unfoldable pub approve_request :
      Bool
      → Uuid
      → Uuid
      → Instant
      → Token
      → Uuid
      → Option String
      → Action (Db Float) (GeofenceChangeRequest Float × PropertyGeofence Float)
  approve_request write_fails item_id new_id now user id note = do
    request ← get_for_update id user
    reviewer ← user_uuid user
    ensure_reviewable request reviewer
    admin ← gets (still_geofence_admin user)
    raise_if (not admin) role_changed
    live ← gets (find_property request.property_id request.tenant_id)
    raise_if (is_none live) property_deleted
    fence ← gets (find_geofence request.property_id request.tenant_id)
    refused ← gets (is_insert_refused request fence)
    modify (write_geofence new_id request fence)
    modify (save_request (closed_as approved reviewer now note request))
    modify (close_inbox_item (closed_as approved reviewer now note request))
    rollback_if refused concurrent_submit
    modify
        (notify_requester write_fails item_id (closed_as approved reviewer now note request) true)
    commit
    pure (closed_as approved reviewer now note request, approved_geofence new_id request fence)

  unfoldable pub reject_request :
      Bool
      → Uuid
      → Instant
      → Token
      → Uuid
      → Option String
      → Action (Db Float) (GeofenceChangeRequest Float)
  reject_request write_fails item_id now user id note = do
    request ← get_for_update id user
    reviewer ← user_uuid user
    ensure_reviewable request reviewer
    admin ← gets (still_geofence_admin user)
    raise_if (not admin) role_changed
    modify (save_request (closed_as rejected reviewer now note request))
    modify (close_inbox_item (closed_as rejected reviewer now note request))
    modify
        (notify_requester write_fails item_id (closed_as rejected reviewer now note request) false)
    commit
    pure (closed_as rejected reviewer now note request)

  unfoldable pub cancel_request :
      Instant → Token → Uuid → Action (Db Float) (GeofenceChangeRequest Float)
  cancel_request now user id = do
    request ← get_for_update id user
    requester ← user_uuid user
    raise_if (not (opt_eq request.requested_by (some requester))) not_requester
    raise_if (not (is_pending request.status)) already_closed
    modify (save_request (closed_as cancelled requester now none request))
    modify (close_inbox_item (closed_as cancelled requester now none request))
    commit
    pure (closed_as cancelled requester now none request)
