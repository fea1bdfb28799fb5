-- ===== src/Corrections/Review.antt =====
-- Reviewing a correction: who may, and what approving, rejecting and cancelling write.
pub mod Guards
pub mod Stored
use ski_tech_backend.Base.{
  ℕ, Bool, true, false, not, ◌&&◌, ◌||◌, Option, none, some, List, [], ◌∷◌, String, ◌==◌,
  if◌then◌else◌, is_none, is_some, get_or, opt_eq, select, first, update_row, order_by_desc, take,
}
use ski_tech_backend.Runtime.{Runtime, Uuid, Instant, DateTime}
use ski_tech_backend.Text.{joined}
use ski_tech_backend.Session.{
  Action, request_not_found, own_request, already_closed, role_changed, record_changed, pure,
  raise_if, gets, or_raise, modify, commit, ◌>>=◌, ◌>>◌,
}
use ski_tech_backend.Models.{
  AttendanceRecord, completed, is_auto_closed, RequestStatus, approved, rejected, cancelled,
  is_pending, status_text, AttendanceCorrectionRequest, RoleName, Token, Db,
}
use ski_tech_backend.Scope.{
  caller_tenant, user_uuid, assigned_property, current_role, is_geofence_admin, is_manager,
  is_staff,
}
use ski_tech_backend.Inbox.{ItemFields, notify}
use ski_tech_backend.Attendance.Records.{as_utc, punched_in_at}
use ski_tech_backend.Attendance.Punch.{hours_from, save_record}
use ski_tech_backend.Corrections.Claim.{inbox_module, request_id, close_inbox}

-- `token_role in ADMIN_ROLES and ...` or the Manager of a staff member's property.
abbrev pub is_in_review_scope : Token → AttendanceCorrectionRequest → Bool
is_in_review_scope user r =
    (is_geofence_admin user.role
      && (is_none (assigned_property user) || opt_eq (assigned_property user) (some r.property_id)))
    || (is_manager user.role
        && (is_staff r.requester_role && opt_eq (assigned_property user) (some r.property_id)))

-- Whether the role stored now still allows the review.
abbrev pub may_still_review : Token → AttendanceCorrectionRequest → Option RoleName → Bool
may_still_review user r stored =
    (is_geofence_admin stored || (is_staff r.requester_role && is_manager stored))
    && (not (is_manager user.role) || is_manager stored)

-- `_close`
abbrev pub closed_as :
    RequestStatus
    → Uuid
    → Instant
    → Option String
    → AttendanceCorrectionRequest
    → AttendanceCorrectionRequest
closed_as status reviewer now note r = record r {
  status = status;
  reviewed_by = some reviewer;
  reviewed_at = some now;
  review_note = note;
}

module _ {Float : Type 0} where
  unfoldable pub find_request : Uuid → Uuid → Db Float → Option AttendanceCorrectionRequest
  find_request id tenant_id d =
      first (select (λ r. r.id == id && r.tenant_id == tenant_id) d.attendance_correction_requests)

  -- `_get_locked`: another tenant's request behaves as missing.
  unfoldable pub get_locked : Uuid → Token → Action (Db Float) AttendanceCorrectionRequest
  get_locked id user = do
    tenant_id ← or_raise (caller_tenant user) request_not_found
    found ← gets (find_request id tenant_id)
    or_raise found request_not_found

  unfoldable pub ensure_reviewer : AttendanceCorrectionRequest → Token → Action (Db Float) Uuid
  ensure_reviewer r user = do
    reviewer ← user_uuid user
    raise_if (opt_eq r.requested_by (some reviewer)) own_request
    raise_if (not (is_in_review_scope user r)) request_not_found
    raise_if (not (is_pending r.status)) already_closed
    stored ← gets (current_role user)
    raise_if (not (may_still_review user r stored)) role_changed
    pure reviewer

  unfoldable pub save_request : AttendanceCorrectionRequest → Db Float → Db Float
  save_request r d = record d {
    attendance_correction_requests =
        update_row request_id r.id (λ _. r) d.attendance_correction_requests;
  }

  unfoldable pub find_record : Uuid → Uuid → Db Float → Option (AttendanceRecord Float)
  find_record id tenant_id d =
      first (select (λ r. r.id == id && r.tenant_id == tenant_id) d.attendance_records)

  -- The record of a request, if it is still auto-closed.
  abbrev pub unchanged_record : Option (AttendanceRecord Float) → Option (AttendanceRecord Float)
  unchanged_record none = none
  unchanged_record (some r) = if is_auto_closed r.status then some r else none

module _ {Float : Type 0} (rt : Runtime Float) where
  -- `_notify_requester`
  outcome_item : Uuid → AttendanceCorrectionRequest → String → ItemFields
  outcome_item item_id r body = record {
    new_id = item_id;
    tenant_id = r.tenant_id;
    property_id = some r.property_id;
    source_module = inbox_module;
    item_type = joined ("attendance_correction_" ∷ status_text r.status ∷ []);
    source_record_id = r.id;
    recipient_user_id = r.requested_by;
    recipient_role = none;
    title = joined ("Punch-out correction " ∷ status_text r.status ∷ []);
    body = body;
  }

  approved_body : Float → String
  approved_body h = joined (
      "Your missed punch-out correction was approved; the shift now counts "
      ∷ rt.show h
      ∷ " h."
      ∷ [])

  pub rejected_body : String
  rejected_body = "Your missed punch-out correction was rejected."

  unfoldable pub notify_requester :
      Bool → Uuid → AttendanceCorrectionRequest → String → Db Float → Db Float
  unfolding notify outcome_item
  notify_requester write_fails item_id r body d = record d {
    inbox_items = notify write_fails (outcome_item item_id r body) d.inbox_items;
  }

  -- The record with the claimed punch-out and the hours up to it.
  unfoldable pub corrected_record :
      AttendanceCorrectionRequest → AttendanceRecord Float → AttendanceRecord Float
  corrected_record r rec = record rec {
    punch_out_time = some r.claimed_punch_out_time;
    hours_worked = some (hours_from rt (punched_in_at rec) (as_utc r.claimed_punch_out_time));
    status = completed;
  }

  -- The writes of an approval, in their order.
  unfoldable pub write_approval :
      Bool
      → Uuid
      → Instant
      → Uuid
      → Option String
      → AttendanceCorrectionRequest
      → AttendanceRecord Float
      → Db Float
      → Db Float
  unfolding approved_body
  write_approval write_fails item_id now reviewer note r rec d =
      let done = closed_as approved reviewer now note r in
      notify_requester write_fails item_id done
        (approved_body (hours_from rt (punched_in_at rec) (as_utc r.claimed_punch_out_time)))
        (close_inbox done (save_request done (save_record (corrected_record r rec) d)))

  unfoldable pub approve_correction :
      Bool
      → Uuid
      → Instant
      → Token
      → Uuid
      → Option String
      → Action (Db Float) (AttendanceCorrectionRequest × AttendanceRecord Float)
  approve_correction write_fails item_id now user id note = do
    request ← get_locked id user
    reviewer ← ensure_reviewer request user
    found ← gets (find_record request.attendance_id request.tenant_id)
    rec ← or_raise (unchanged_record found) record_changed
    modify (write_approval write_fails item_id now reviewer note request rec)
    commit
    pure (closed_as approved reviewer now note request, corrected_record request rec)

  unfoldable pub reject_correction :
      Bool
      → Uuid
      → Instant
      → Token
      → Uuid
      → Option String
      → Action (Db Float) AttendanceCorrectionRequest
  unfolding rejected_body
  reject_correction write_fails item_id now user id note = do
    request ← get_locked id user
    reviewer ← ensure_reviewer request user
    modify (save_request (closed_as rejected reviewer now note request))
    modify (close_inbox (closed_as rejected reviewer now note request))
    modify (
        notify_requester write_fails item_id (closed_as rejected reviewer now note request)
          rejected_body)
    commit
    pure (closed_as rejected reviewer now note request)

module _ {Float : Type 0} where
  unfoldable pub cancel_correction :
      Instant → Token → Uuid → Action (Db Float) AttendanceCorrectionRequest
  cancel_correction now user id = do
    request ← get_locked id user
    requester ← user_uuid user
    raise_if (not (opt_eq request.requested_by (some requester))) request_not_found
    raise_if (not (is_pending request.status)) already_closed
    modify (save_request (closed_as cancelled requester now none request))
    modify (close_inbox (closed_as cancelled requester now none request))
    commit
    pure (closed_as cancelled requester now none request)
