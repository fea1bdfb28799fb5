-- ===== src/Corrections/Claim.antt =====
-- Submitting a correction: the checks on the claimed time, and `create_correction`.
pub mod Bounds
pub mod Single
use ski_tech_backend.Base.{
  ℕ, ◌+◌, ◌-◌, Bool, true, false, not, ◌&&◌, ◌||◌, Option, none, some, List, [], ◌∷◌, ◌++◌, map,
  String, str_append, ◌==◌, leb, ltb, if◌then◌else◌, is_none, is_some, get_or, opt_eq, any, select,
  first, contains, update_listed, sub_ℕ, pos,
}
use ski_tech_backend.Runtime.{Runtime, Uuid, Instant, DateTime, aware, naive, hours, minutes}
use ski_tech_backend.Text.{strip, joined}
use ski_tech_backend.Session.{
  Action, Result, ok, err, value_error, claim_without_zone, claim_before_punch_in, claim_too_long,
  claim_in_future, request_not_found, not_auto_closed, concurrent_submit, pure, raise, raise_if,
  gets, lift, or_raise, modify, commit, ◌>>=◌, ◌>>◌,
}
use ski_tech_backend.Models.{
  AttendanceRecord, is_auto_closed, RequestStatus, pending, cancelled, is_pending,
  AttendanceCorrectionRequest, InboxItem, RoleName, staff, Token, Db,
}
use ski_tech_backend.Scope.{caller_tenant, user_uuid, current_role, is_staff}
use ski_tech_backend.Inbox.{ItemFields, create_inbox_item, mark_inbox_items_actioned}
use ski_tech_backend.Attendance.Records.{as_utc, stale_shift_hours}
use ski_tech_backend.Attendance.Punch.{hours_from}

-- `AttendanceCorrectionCreate`.
pub record CorrectionData : Type 0 where
  pub attendance_id : Uuid
  pub claimed_punch_out_time : DateTime
  pub reason : String

abbrev pub inbox_module : String
inbox_module = "attendance"

abbrev pub inbox_item_type : String
inbox_item_type = "attendance_correction_request"

-- The claim as a moment, or the check that it fails.
unfoldable pub check_claim : Instant → Instant → Instant → Result Instant
check_claim punch_in now claimed =
    if leb claimed punch_in
    then err (value_error claim_before_punch_in)
    else if ltb (hours stale_shift_hours) (claimed - punch_in)
    then err (value_error claim_too_long)
    else if ltb (now + minutes 1) claimed
    then err (value_error claim_in_future)
    else ok claimed

unfoldable pub validate_claim : Instant → DateTime → Instant → Result Instant
unfolding check_claim
validate_claim punch_in (naive _) now = err (value_error claim_without_zone)
validate_claim punch_in (aware claimed) now = check_claim punch_in now claimed

abbrev pub request_id : AttendanceCorrectionRequest → Uuid
request_id r = r.id

-- A pending request for a shift.
abbrev pub is_pending_for : Uuid → AttendanceCorrectionRequest → Bool
is_pending_for attendance_id r = r.attendance_id == attendance_id && is_pending r.status

-- What replaces a pending request by a newer one.
abbrev pub replaced : Uuid → Instant → AttendanceCorrectionRequest → AttendanceCorrectionRequest
replaced requester now r = record r {
  status = cancelled;
  reviewed_by = some requester;
  reviewed_at = some now;
  review_note = some "Replaced by a newer request";
}

-- The partial unique index on attendance_id over the pending requests.
unfoldable pub has_two_pending : List AttendanceCorrectionRequest → Bool
has_two_pending [] = false
has_two_pending (r ∷ rs) =
    (is_pending r.status && any (is_pending_for r.attendance_id) rs) || has_two_pending rs

module _ {Float : Type 0} where
  -- The caller's own record of their tenant.
  abbrev pub find_own_record : Uuid → Uuid → Uuid → Db Float → Option (AttendanceRecord Float)
  find_own_record attendance_id tenant_id requester d = first (
      select (λ r. r.id == attendance_id && (r.tenant_id == tenant_id && r.user_id == requester))
        d.attendance_records)

  -- `_close_inbox`
  unfoldable pub close_inbox : AttendanceCorrectionRequest → Db Float → Db Float
  close_inbox request d = record d {
    inbox_items =
        mark_inbox_items_actioned request.tenant_id request.id (some inbox_item_type) d.inbox_items;
  }

  -- The loop over the pending requests: each is cancelled and its inbox item closed.
  unfoldable pub close_inboxes : List AttendanceCorrectionRequest → Db Float → Db Float
  unfolding close_inbox
  close_inboxes [] d = d
  close_inboxes (r ∷ rs) d = close_inboxes rs (close_inbox r d)

  unfoldable pub cancel_pending :
      List AttendanceCorrectionRequest → Uuid → Instant → Db Float → Db Float
  unfolding close_inboxes
  cancel_pending rs requester now d = close_inboxes rs (record d {
    attendance_correction_requests =
        update_listed request_id (map request_id rs) (replaced requester now)
          d.attendance_correction_requests;
  })

  unfoldable pub pending_for : Uuid → Db Float → List AttendanceCorrectionRequest
  pending_for attendance_id d =
      select (is_pending_for attendance_id) d.attendance_correction_requests

  unfoldable pub add_request : AttendanceCorrectionRequest → Db Float → Db Float
  add_request r d = record d {
    attendance_correction_requests = d.attendance_correction_requests ++ r ∷ [];
  }

  unfoldable pub add_inbox_item : ItemFields → Db Float → Db Float
  unfolding create_inbox_item
  add_inbox_item f d = record d { inbox_items = create_inbox_item f d.inbox_items }

  -- The final commit. `rivals` are the requests that other transactions have committed since this
  -- one began; the index fails the insert if one of them is pending for the same shift.
  unfoldable pub commit_request : List AttendanceCorrectionRequest → Action (Db Float) (Unit {0})
  unfolding add_request
  commit_request rivals s =
      let merge : Db Float → Db Float = λ d. record d {
        attendance_correction_requests = d.attendance_correction_requests ++ rivals;
      } in
      if has_two_pending (s.work.attendance_correction_requests ++ rivals)
      then (
        err concurrent_submit,
        record { committed = merge s.committed; work = merge s.committed },
      )
      else (ok tt, record { committed = merge s.work; work = merge s.work })

module _ {Float : Type 0} (rt : Runtime Float) where
  -- `await current_role(db, user) or user.get("role") or "Staff"`
  unfoldable pub role_or_staff : Option RoleName → Option RoleName → RoleName
  role_or_staff stored claimed = get_or stored (get_or claimed staff)

  unfoldable pub new_request :
      Uuid
      → Instant
      → Uuid
      → Uuid
      → RoleName
      → AttendanceRecord Float
      → Instant
      → String
      → AttendanceCorrectionRequest
  new_request new_id now tenant_id requester role record_of claimed reason = record {
    id = new_id;
    tenant_id = tenant_id;
    property_id = record_of.property_id;
    attendance_id = record_of.id;
    requested_by = some requester;
    requester_role = role;
    claimed_punch_out_time = aware claimed;
    reason = reason;
    status = pending;
    reviewed_by = none;
    reviewed_at = none;
    review_note = none;
    created_at = now;
  }

  -- The inbox item: a staff member's request goes to the managers, any other to the owners.
  request_item : Uuid → AttendanceCorrectionRequest → Float → ItemFields
  request_item item_id r hours_claimed = record {
    new_id = item_id;
    tenant_id = r.tenant_id;
    property_id = some r.property_id;
    source_module = inbox_module;
    item_type = inbox_item_type;
    source_record_id = r.id;
    recipient_user_id = none;
    recipient_role = some (if is_staff r.requester_role then "manager" else "owner");
    title = "Missed punch-out correction requested";
    body = joined (
        "A shift that was closed without a punch-out is claimed as "
        ∷ rt.show hours_claimed
        ∷ " h. Approve or reject it."
        ∷ []);
  }

  -- Everything after the caller and the record are known. `claimed` has passed the checks.
  unfoldable pub submit_claim :
      Uuid
      → Uuid
      → Instant
      → Uuid
      → Uuid
      → RoleName
      → AttendanceRecord Float
      → Instant
      → String
      → List AttendanceCorrectionRequest
      → Action (Db Float) AttendanceCorrectionRequest
  unfolding new_request request_item
  submit_claim new_id item_id now tenant_id requester role record_of claimed reason rivals = do
    let request = new_request new_id now tenant_id requester role record_of claimed reason
    old ← gets (pending_for record_of.id)
    modify (cancel_pending old requester now)
    modify (add_request request)
    modify (
        add_inbox_item
          (request_item item_id request (hours_from rt (as_utc record_of.punch_in_time) claimed)))
    commit_request rivals
    pure request

  unfoldable pub create_correction :
      Uuid
      → Uuid
      → Instant
      → Token
      → CorrectionData
      → List AttendanceCorrectionRequest
      → Action (Db Float) AttendanceCorrectionRequest
  unfolding role_or_staff submit_claim
  create_correction new_id item_id now user data_in rivals = do
    requester ← user_uuid user
    tenant_id ← or_raise (caller_tenant user) request_not_found
    found ← gets (find_own_record data_in.attendance_id tenant_id requester)
    record_of ← or_raise found request_not_found
    raise_if (not (is_auto_closed record_of.status)) not_auto_closed
    claimed ←
        lift (validate_claim (as_utc record_of.punch_in_time) data_in.claimed_punch_out_time now)
    stored ← gets (current_role user)
    submit_claim new_id item_id now tenant_id requester (role_or_staff stored user.role) record_of
        claimed (strip data_in.reason) rivals
