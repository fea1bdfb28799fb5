-- ===== src/Checks/Fences.antt =====
-- Geofences, their change requests, the property check and inbox items at concrete data.
use ski_tech_backend.Base.{
  ℕ, true, false, none, some, List, [], ◌∷◌, ◌≡◌, refl, arith, is_none, get_or, HasUniqueKeys,
}
use ski_tech_backend.Runtime.{Uuid}
use ski_tech_backend.Session.{Action, ok, begin, run_request}
use ski_tech_backend.Models.{
  approved, GeofenceChangeRequest, PropertyGeofence, Property, InboxItem, uuid, Db,
}
use ski_tech_backend.Scope.{
  as_uuid, caller_tenant, current_role, find_property, property_in_scope, still_geofence_admin,
}
use ski_tech_backend.Scope.Laws.{IsWithin, property_in_scope_ok}
use ski_tech_backend.Inbox.{
  ItemFields, new_item, create_inbox_item, notify, mark_inbox_items_actioned,
}
use ski_tech_backend.Inbox.Laws.{HasSingleOpen, inbox_keeps_single_open}
use ski_tech_backend.Attendance.Records.{find_geofence}
use ski_tech_backend.Attendance.Geofences.{
  GeofenceData, geofence_id, new_geofence, create_geofence, update_geofence, delete_geofence,
}
use ski_tech_backend.Attendance.Geofences.Laws.{
  fences_at, others, create_geofence_single, geofence_writes_keep_other_tenants,
}
use ski_tech_backend.GeofenceRequests.Submit.{
  ProposalData, has_two_pending, close_inbox_item, close_inbox_items, pending_for, cancel_pending,
  add_request, add_inbox_item, commit_request, new_request, submit_request, create_request,
}
use ski_tech_backend.GeofenceRequests.Submit.Single.{create_request_single}
use ski_tech_backend.GeofenceRequests.Review.{
  closed_as, find_request, get_for_update, ensure_reviewable, save_request, notify_requester,
  moved_geofence, write_geofence, approved_geofence, approve_request, reject_request,
  cancel_request,
}
use ski_tech_backend.GeofenceRequests.Review.Guards.{MayReview}
use ski_tech_backend.GeofenceRequests.Review.Live.{IsAsProposed, approve_request_applies}
use ski_tech_backend.GeofenceRequests.Review.Kept.{
  geofences_after, unapproved_leaves_geofences, SucceedsOrKeeps, failed_review_changes_nothing,
}
use ski_tech_backend.Checks.{rt, start, fence, manager_token, owner_token, at_1000, at_1005}

abbrev passed : Uuid
passed = 10

abbrev own_tenant : Uuid
own_tenant = 1

property_passes : (property_in_scope 10 manager_token (begin start)).0 ≡ ok 10
unfolding property_in_scope
property_passes = refl

property_in_scope_ok_example :
    (passed ≡ passed)
    × (p : Property) × (tenant_id : Uuid) × (find_property 10 tenant_id start ≡ some p)
    × (p.id ≡ passed)
    × (p.tenant_id ≡ tenant_id)
    × (p.is_deleted ≡ false)
    × (caller_tenant manager_token ≡ some tenant_id)
    × IsWithin manager_token passed
property_in_scope_ok_example =
    property_in_scope_ok 10 passed manager_token (begin start) property_passes

abbrev proposal : ProposalData ℕ
proposal = record {
  property_id = 10;
  center_lat = 11;
  center_lng = 21;
  radius_meters = 150;
  address = some "Pier 4";
  note = none;
}

abbrev proposed : GeofenceChangeRequest ℕ
proposed = new_request 710 at_1000 1 10 101 proposal

abbrev after_create : Db ℕ
after_create = (run_request (create_request rt 710 810 at_1000 manager_token proposal []) start).1

proposes :
    run_request (create_request rt 710 810 at_1000 manager_token proposal []) start
    ≡ (ok proposed, after_create)
unfolding create_request property_in_scope submit_request pending_for cancel_pending
    close_inbox_items add_request add_inbox_item commit_request has_two_pending new_request
proposes = refl

create_request_single_example :
    (pending_for proposed.tenant_id proposed.property_id after_create ≡ proposed ∷ [])
    × (proposed.requested_by ≡ as_uuid manager_token.user_id)
    × (proposed.center_lat ≡ proposal.center_lat)
    × (proposed.center_lng ≡ proposal.center_lng)
    × (proposed.radius_meters ≡ proposal.radius_meters)
    × (some proposed.tenant_id ≡ caller_tenant manager_token)
    × (proposed.property_id ≡ proposal.property_id)
    × (p : Property) × (find_property proposed.property_id proposed.tenant_id start ≡ some p)
    × (p.is_deleted ≡ false)
    × IsWithin manager_token proposed.property_id
create_request_single_example =
    create_request_single rt 710 810 at_1000 proposal [] manager_token start after_create proposed
      proposes

abbrev accepted : GeofenceChangeRequest ℕ
accepted = closed_as approved 102 at_1005 none proposed

abbrev moved : PropertyGeofence ℕ
moved = moved_geofence proposed fence

abbrev after_approve : Db ℕ
after_approve =
    (run_request (approve_request false 811 601 at_1005 owner_token 710 none) after_create).1

approves :
    run_request (approve_request false 811 601 at_1005 owner_token 710 none) after_create
    ≡ (ok (accepted, moved), after_approve)
unfolding create_request property_in_scope submit_request pending_for cancel_pending
    close_inbox_items add_request add_inbox_item commit_request has_two_pending new_request
    approve_request find_request get_for_update ensure_reviewable still_geofence_admin current_role
    find_geofence write_geofence approved_geofence moved_geofence save_request close_inbox_item
    notify_requester
approves = refl

approve_request_applies_example :
    (find_geofence accepted.property_id accepted.tenant_id after_approve ≡ some moved)
    × IsAsProposed accepted moved
    × (request : GeofenceChangeRequest ℕ) × (reviewer : Uuid) × MayReview after_create owner_token
        710 request reviewer
    × (accepted ≡ closed_as approved reviewer at_1005 none request)
    × (is_none (find_property accepted.property_id accepted.tenant_id after_create) ≡ false)
approve_request_applies_example =
    approve_request_applies false 811 601 at_1005 owner_token 710 none after_create after_approve
      accepted moved approves

unapproved_leaves_geofences_example :
    (geofences_after (create_request rt 710 810 at_1000 manager_token proposal []) start
      ≡ start.property_geofences)
    × (geofences_after (reject_request false 810 at_1000 manager_token 710 none) start
        ≡ start.property_geofences)
    × (geofences_after (cancel_request at_1000 manager_token 710) start ≡ start.property_geofences)
unapproved_leaves_geofences_example =
    unapproved_leaves_geofences rt false 710 810 at_1000 manager_token 710 none proposal [] start

abbrev own_review : Action (Db ℕ) (GeofenceChangeRequest ℕ × PropertyGeofence ℕ)
own_review = approve_request false 811 601 at_1005 manager_token 710 none

failed_review_changes_nothing_example :
    SucceedsOrKeeps own_review after_create
    × SucceedsOrKeeps (reject_request false 811 at_1005 manager_token 710 none) after_create
    × SucceedsOrKeeps (cancel_request at_1005 manager_token 710) after_create
failed_review_changes_nothing_example =
    failed_review_changes_nothing false 811 601 at_1005 manager_token 710 none after_create

abbrev item : ItemFields
item = record {
  new_id = 900;
  tenant_id = 1;
  property_id = some 10;
  source_module = "attendance";
  item_type = "geofence_change_request";
  source_record_id = 710;
  recipient_user_id = none;
  recipient_role = some "owner";
  title = "Punch location change requested";
  body = "New punch location proposed";
}

none_open : HasSingleOpen []
none_open t s y = omega arith

inbox_keeps_single_open_example :
    HasSingleOpen (create_inbox_item item [])
    × HasSingleOpen (notify false item [])
    × HasSingleOpen (mark_inbox_items_actioned 1 710 none [])
inbox_keeps_single_open_example = inbox_keeps_single_open item false 1 710 none [] none_open

abbrev open_items : List InboxItem
open_items = new_item item ∷ []

abbrev annex : GeofenceData ℕ
annex = record {
  property_id = uuid 11;
  property_name = none;
  center_lat = 30;
  center_lng = 40;
  radius_meters = none;
  address = none;
  city = none;
  country = none;
  alert_on_breach = some false;
}

abbrev annex_fence : PropertyGeofence ℕ
annex_fence = new_geofence 602 11 1 annex

abbrev after_fence : Db ℕ
after_fence = (run_request (create_geofence 602 1 annex) start).1

creates_fence : run_request (create_geofence 602 1 annex) start ≡ (ok annex_fence, after_fence)
unfolding create_geofence find_geofence new_geofence
creates_fence = refl

create_geofence_single_example :
    (fences_at annex_fence.property_id start ≡ [])
    × (fences_at annex_fence.property_id after_fence ≡ annex_fence ∷ [])
    × (as_uuid annex.property_id ≡ some annex_fence.property_id)
    × (annex_fence.tenant_id ≡ own_tenant)
    × (annex_fence.radius_meters ≡ get_or annex.radius_meters 200)
    × (annex_fence.alert_on_breach ≡ true)
create_geofence_single_example =
    create_geofence_single 602 own_tenant annex start after_fence annex_fence creates_fence

fence_ids : HasUniqueKeys geofence_id start.property_geofences
fence_ids = (refl, tt)

geofence_writes_keep_other_tenants_example :
    (others 1 (run_request (update_geofence 600 1 annex) start).1 ≡ others 1 start)
    × (others 1 (run_request (delete_geofence 600 1) start).1 ≡ others 1 start)
geofence_writes_keep_other_tenants_example =
    geofence_writes_keep_other_tenants 600 1 annex start fence_ids
