-- ===== src/Corrections/Review/Stored.antt =====
-- What an approval leaves of the shift and of the request in the database.
use ski_tech_backend.Base.{
  ◌≡◌, refl, true, Option, some, ◌&&◌, ◌==◌, first_overwritten, String, Bool,
}
use ski_tech_backend.Runtime.{Runtime, Uuid, Instant}
use ski_tech_backend.Session.{ok, run_request}
use ski_tech_backend.Models.{
  AttendanceRecord, is_auto_closed, approved, completed, AttendanceCorrectionRequest, Token, Db,
}
use ski_tech_backend.Attendance.Records.{as_utc, punched_in_at}
use ski_tech_backend.Attendance.Punch.{hours_from, record_id, save_record}
use ski_tech_backend.Corrections.Claim.{request_id, close_inbox}
use ski_tech_backend.Corrections.Review.{
  find_request, save_request, find_record, notify_requester, corrected_record, closed_as,
  write_approval, approve_correction,
}
use ski_tech_backend.Corrections.Review.Guards.{MayReview, approve_correction_ok}

module _ {Float : Type 0} (rt : Runtime Float) (write_fails : Bool) (item_id : Uuid) (now : Instant)
    (reviewer : Uuid) (note : Option String) (request : AttendanceCorrectionRequest)
    (before : AttendanceRecord Float) (d : Db Float) where
  shift_found :
      (id tenant_id : Uuid)
      → find_record id tenant_id d ≡ some before
      → find_record id tenant_id
          (write_approval rt write_fails item_id now reviewer note request before d)
        ≡ some (corrected_record rt request before)
  unfolding write_approval notify_requester close_inbox save_request save_record corrected_record
      find_record
  shift_found id tenant_id found =
      first_overwritten record_id (λ r. r.id == id && r.tenant_id == tenant_id)
        (corrected_record rt request before) d.attendance_records found refl refl

  request_found :
      (id tenant_id : Uuid)
      → find_request id tenant_id d ≡ some request
      → find_request id tenant_id
          (write_approval rt write_fails item_id now reviewer note request before d)
        ≡ some (closed_as approved reviewer now note request)
  unfolding write_approval notify_requester close_inbox save_request save_record find_request
  request_found id tenant_id found =
      first_overwritten request_id (λ r. r.id == id && r.tenant_id == tenant_id)
        (closed_as approved reviewer now note request) d.attendance_correction_requests found refl
        refl

-- An approval that succeeds has passed every guard and found the request's shift still auto-closed.
-- The database then holds that shift as completed, with the claimed punch-out and the hours up to
-- it, and the request as approved by the caller, with the time and the note. The two differ from
-- what they were in nothing else.
pub approve_correction_stored :
    {Float : Type 0} (rt : Runtime Float) (write_fails : Bool) (item_id : Uuid) (now : Instant)
    (user : Token) (id : Uuid) (note : Option String) (d d' : Db Float)
    (r : AttendanceCorrectionRequest) (rec : AttendanceRecord Float)
    → run_request (approve_correction rt write_fails item_id now user id note) d ≡ (ok (r, rec), d')
    → (request : AttendanceCorrectionRequest) × (reviewer : Uuid) × (before : AttendanceRecord
        Float)
      × (guards : MayReview d user id request reviewer) × (find_record request.attendance_id
            request.tenant_id d
          ≡ some before)
      × (is_auto_closed before.status ≡ true)
      × (rec ≡ record before {
        punch_out_time = some request.claimed_punch_out_time;
        hours_worked =
            some (hours_from rt (punched_in_at before) (as_utc request.claimed_punch_out_time));
        status = completed;
      })
      × (find_record request.attendance_id request.tenant_id d' ≡ some rec)
      × (r ≡ record request {
        status = approved;
        reviewed_by = some reviewer;
        reviewed_at = some now;
        review_note = note;
      })
      × (find_request id guards.tenant_id d' ≡ some r)
unfolding corrected_record
approve_correction_stored rt write_fails item_id now user id note d d' r rec run =
    let (request, reviewer, before, guards, shift, auto, closed, corrected, after) =
      approve_correction_ok rt write_fails item_id now user id note d d' r rec run in
    (
      request,
      reviewer,
      before,
      guards,
      shift,
      auto,
      corrected,
      rw (after, corrected)
          (shift_found rt write_fails item_id now reviewer note request before d
            request.attendance_id request.tenant_id shift),
      closed,
      rw (after, closed)
          (request_found rt write_fails item_id now reviewer note request before d id
            guards.tenant_id guards.found),
    )
