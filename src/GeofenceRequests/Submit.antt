-- ===== src/GeofenceRequests/Submit.antt =====
-- Submitting and listing geofence change requests.
pub mod Single
use ski_tech_backend.Base.{
  ℕ, Bool, true, false, ◌&&◌, ◌||◌, Option, none, some, List, [], ◌∷◌, ◌++◌, map, String, ◌==◌,
  if◌then◌else◌, is_none, opt_eq, any, select, first, take, update_listed, order_by_desc,
}
use ski_tech_backend.Runtime.{Runtime, Uuid, Instant}
use ski_tech_backend.Text.{joined}
use ski_tech_backend.Session.{
  Action, Result, ok, err, property_not_in_scope, request_not_found, concurrent_submit, pure,
  raise_if, gets, or_raise, modify, ◌>>=◌, ◌>>◌,
}
use ski_tech_backend.Models.{
  RequestStatus, pending, cancelled, is_pending, GeofenceChangeRequest, InboxItem, Token, Db,
}
use ski_tech_backend.Scope.{
  caller_tenant, user_uuid, assigned_property, property_in_scope, is_manager,
}
use ski_tech_backend.Inbox.{ItemFields, create_inbox_item, mark_inbox_items_actioned}

-- `GeofenceChangeRequestCreate`.
pub record ProposalData (Float : Type 0) : Type 0 where
  pub property_id : Uuid
  pub center_lat : Float
  pub center_lng : Float
  pub radius_meters : ℕ
  pub address : Option String
  pub note : Option String

abbrev pub inbox_module : String
inbox_module = "attendance"

abbrev pub inbox_item_type : String
inbox_item_type = "geofence_change_request"

module _ {Float : Type 0} where
  abbrev pub request_id : GeofenceChangeRequest Float → Uuid
  request_id r = r.id

  -- The filter of the pending requests that a new one replaces.
  abbrev pub is_pending_for : Uuid → Uuid → GeofenceChangeRequest Float → Bool
  is_pending_for tenant_id property_id r =
      r.tenant_id == tenant_id && (r.property_id == property_id && is_pending r.status)

  -- What the unique index on property_id looks at.
  abbrev pub is_pending_at : Uuid → GeofenceChangeRequest Float → Bool
  is_pending_at property_id r = r.property_id == property_id && is_pending r.status

  abbrev pub replaced : Uuid → Instant → GeofenceChangeRequest Float → GeofenceChangeRequest Float
  replaced requester now r = record r {
    status = cancelled;
    reviewed_by = some requester;
    reviewed_at = some now;
    review_note = some "Replaced by a newer request";
  }

  unfoldable pub has_two_pending : List (GeofenceChangeRequest Float) → Bool
  has_two_pending [] = false
  has_two_pending (r ∷ rs) =
      (is_pending r.status && any (is_pending_at r.property_id) rs) || has_two_pending rs

  -- `_close_inbox_item`
  unfoldable pub close_inbox_item : GeofenceChangeRequest Float → Db Float → Db Float
  close_inbox_item request d = record d {
    inbox_items =
        mark_inbox_items_actioned request.tenant_id request.id (some inbox_item_type) d.inbox_items;
  }

  unfoldable pub close_inbox_items : List (GeofenceChangeRequest Float) → Db Float → Db Float
  unfolding close_inbox_item
  close_inbox_items [] d = d
  close_inbox_items (r ∷ rs) d = close_inbox_items rs (close_inbox_item r d)

  unfoldable pub pending_for : Uuid → Uuid → Db Float → List (GeofenceChangeRequest Float)
  pending_for tenant_id property_id d =
      select (is_pending_for tenant_id property_id) d.geofence_change_requests

  -- The loop that cancels the pending requests and closes their inbox items.
  unfoldable pub cancel_pending :
      List (GeofenceChangeRequest Float) → Uuid → Instant → Db Float → Db Float
  unfolding close_inbox_items
  cancel_pending rs requester now d = close_inbox_items rs (record d {
    geofence_change_requests =
        update_listed request_id (map request_id rs) (replaced requester now)
          d.geofence_change_requests;
  })

  unfoldable pub add_request : GeofenceChangeRequest Float → Db Float → Db Float
  add_request r d = record d { geofence_change_requests = d.geofence_change_requests ++ r ∷ [] }

  unfoldable pub add_inbox_item : ItemFields → Db Float → Db Float
  unfolding create_inbox_item
  add_inbox_item f d = record d { inbox_items = create_inbox_item f d.inbox_items }

  -- The final commit; `rivals` are the requests that other transactions have committed meanwhile.
  unfoldable pub commit_request : List (GeofenceChangeRequest Float) → Action (Db Float) (Unit {0})
  commit_request rivals s =
      let merge : Db Float → Db Float =
        λ d. record d { geofence_change_requests = d.geofence_change_requests ++ rivals } in
      if has_two_pending (s.work.geofence_change_requests ++ rivals)
      then (
        err concurrent_submit,
        record { committed = merge s.committed; work = merge s.committed },
      )
      else (ok tt, record { committed = merge s.work; work = merge s.work })

  unfoldable pub new_request :
      Uuid → Instant → Uuid → Uuid → Uuid → ProposalData Float → GeofenceChangeRequest Float
  new_request new_id now tenant_id property_id requester data_in = record {
    id = new_id;
    tenant_id = tenant_id;
    property_id = property_id;
    requested_by = some requester;
    center_lat = data_in.center_lat;
    center_lng = data_in.center_lng;
    radius_meters = data_in.radius_meters;
    address = data_in.address;
    note = data_in.note;
    status = pending;
    reviewed_by = none;
    reviewed_at = none;
    review_note = none;
    created_at = now;
  }

  -- Which requests a caller of the tenant sees: a Manager their own, anyone else those of the
  -- property that they are limited to, if any.
  abbrev is_at_property : Option Uuid → GeofenceChangeRequest Float → Bool
  is_at_property none r = true
  is_at_property (some property_id) r = r.property_id == property_id

  abbrev has_status : Option RequestStatus → GeofenceChangeRequest Float → Bool
  has_status none r = true
  has_status (some pending) r = is_pending r.status
  has_status (some cancelled) r = elim r.status [ cancelled ↦ true | _ ↦ false ]
  has_status (some RequestStatus.approved) r = elim r.status [
    | RequestStatus.approved ↦ true
    | _ ↦ false
  ]
  has_status (some RequestStatus.rejected) r = elim r.status [
    | RequestStatus.rejected ↦ true
    | _ ↦ false
  ]

  -- `caller` is the caller's own id, which only the Manager's filter reads.
  unfoldable pub is_shown : Token → Uuid → GeofenceChangeRequest Float → Bool
  is_shown user caller r =
      if is_manager user.role
      then opt_eq r.requested_by (some caller)
      else is_at_property (assigned_property user) r

  -- `list_requests` for a caller whose tenant and id are known.
  unfoldable pub list_requests :
      Token
      → Uuid
      → Uuid
      → Option RequestStatus
      → Option Uuid
      → ℕ
      → Db Float
      → List (GeofenceChangeRequest Float)
  unfolding is_shown
  list_requests user tenant_id caller status property_id limit d = take limit (
      order_by_desc (λ r. r.created_at)
        (select
          (λ r.
            r.tenant_id == tenant_id
            && (is_shown user caller r && (has_status status r && is_at_property property_id r)))
          d.geofence_change_requests))

module _ {Float : Type 0} (rt : Runtime Float) where
  request_item : Uuid → GeofenceChangeRequest Float → ItemFields
  request_item item_id r = record {
    new_id = item_id;
    tenant_id = r.tenant_id;
    property_id = some r.property_id;
    source_module = inbox_module;
    item_type = inbox_item_type;
    source_record_id = r.id;
    recipient_user_id = none;
    recipient_role = some "owner";
    title = "Punch location change requested";
    body = joined (
        "New punch location proposed: "
        ∷ rt.fixed 6 r.center_lat
        ∷ ", "
        ∷ rt.fixed 6 r.center_lng
        ∷ ", radius "
        ∷ rt.show_int r.radius_meters
        ∷ " m. It takes effect only after you approve it."
        ∷ []);
  }

  -- Everything after the property, the tenant and the caller are known.
  unfoldable pub submit_request :
      Uuid
      → Uuid
      → Instant
      → Uuid
      → Uuid
      → Uuid
      → ProposalData Float
      → List (GeofenceChangeRequest Float)
      → Action (Db Float) (GeofenceChangeRequest Float)
  unfolding new_request request_item
  submit_request new_id item_id now tenant_id property_id requester data_in rivals = do
    let request = new_request new_id now tenant_id property_id requester data_in
    old ← gets (pending_for tenant_id property_id)
    modify (cancel_pending old requester now)
    modify (add_request request)
    modify (add_inbox_item (request_item item_id request))
    commit_request rivals
    pure request

  unfoldable pub create_request :
      Uuid
      → Uuid
      → Instant
      → Token
      → ProposalData Float
      → List (GeofenceChangeRequest Float)
      → Action (Db Float) (GeofenceChangeRequest Float)
  unfolding submit_request
  create_request new_id item_id now user data_in rivals = do
    property_id ← property_in_scope data_in.property_id user
    tenant_id ← or_raise (caller_tenant user) property_not_in_scope
    requester ← user_uuid user
    submit_request new_id item_id now tenant_id property_id requester data_in rivals
