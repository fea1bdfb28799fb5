-- ===== src/Checks/Reviews.antt =====
-- Corrections at concrete data: two are submitted, one is approved, one rejected or cancelled.
use ski_tech_backend.Base.{
  All, ◌≤◌, List, length, ℕ, true, false, none, some, [], ◌∷◌, ◌≡◌, refl, arith, ◌↔◌, contains, map,
}
use ski_tech_backend.Runtime.{Uuid, aware, hours}
use ski_tech_backend.Session.{ok, run_request}
use ski_tech_backend.Models.{
  AttendanceRecord, completed, is_auto_closed, approved, rejected, cancelled,
  AttendanceCorrectionRequest, staff, Db,
}
use ski_tech_backend.Scope.{as_uuid, caller_tenant}
use ski_tech_backend.Text.{strip}
use ski_tech_backend.Attendance.Records.{as_utc, punched_in_at}
use ski_tech_backend.Attendance.Punch.{hours_from, save_record}
use ski_tech_backend.Corrections.Claim.{
  CorrectionData, find_own_record, request_id, has_two_pending, close_inbox, close_inboxes,
  cancel_pending, pending_for, add_request, add_inbox_item, commit_request, role_or_staff,
  new_request, check_claim, validate_claim, submit_claim, create_correction,
}
use ski_tech_backend.Corrections.Claim.Bounds.{IsClaimFor, validate_claim_iff}
use ski_tech_backend.Corrections.Claim.Single.{
  request_of, submit_claim_succeeds, create_correction_single,
}
use ski_tech_backend.Corrections.Review.{
  closed_as, find_request, get_locked, ensure_reviewer, save_request, find_record, notify_requester,
  corrected_record, write_approval, approve_correction, reject_correction, cancel_correction,
}
use ski_tech_backend.Corrections.Review.Guards.{MayReview}
use ski_tech_backend.Corrections.Review.Stored.{approve_correction_stored}
use ski_tech_backend.Corrections.Decided.{IsDecided, submit, here, next, review_is_final}
use ski_tech_backend.Scope.{current_role}
use ski_tech_backend.Corrections.Listing.{
  reviewer_may_see, listed, list_for, list_corrections, MayBeShown, list_corrections_visible,
}
use ski_tech_backend.Checks.{
  rt, start, missed, missed_again, staff_token, manager_token, at_1000, at_1005,
}

abbrev claim : CorrectionData
claim = record {
  attendance_id = 502;
  claimed_punch_out_time = aware (hours 908);
  reason = "Left by the back door";
}

validate_claim_iff_example :
    (validate_claim (hours 900) (aware (hours 908)) at_1000 ≡ ok (hours 908))
    ↔ ((aware (hours 908) ≡ aware (hours 908)) × IsClaimFor (hours 900) at_1000 (hours 908))
validate_claim_iff_example = validate_claim_iff (hours 900) at_1000 (hours 908) (aware (hours 908))

submit_claim_succeeds_example :
    (run_request
      (submit_claim rt 700 800 at_1000 1 100 staff missed (hours 908) claim.reason [])
      start).0
    ≡ ok (request_of rt 700 800 at_1000 1 100 staff missed (hours 908) claim.reason)
unfolding has_two_pending
submit_claim_succeeds_example =
    submit_claim_succeeds rt 700 800 at_1000 1 100 staff missed (hours 908) claim.reason start refl

abbrev submitted : AttendanceCorrectionRequest
submitted = new_request rt 700 at_1000 1 100 staff missed (hours 908) (strip claim.reason)

abbrev after_submit : Db ℕ
after_submit = (run_request (create_correction rt 700 800 at_1000 staff_token claim []) start).1

submits :
    run_request (create_correction rt 700 800 at_1000 staff_token claim []) start
    ≡ (ok submitted, after_submit)
unfolding create_correction role_or_staff submit_claim validate_claim check_claim current_role
    cancel_pending close_inboxes pending_for add_request add_inbox_item commit_request
    has_two_pending new_request
submits = refl

create_correction_single_example :
    (pending_for submitted.attendance_id after_submit ≡ submitted ∷ [])
    × (requester tenant_id : Uuid) × (record_of : AttendanceRecord ℕ) × (as_uuid staff_token.user_id
        ≡ some requester)
    × (caller_tenant staff_token ≡ some tenant_id)
    × (find_own_record claim.attendance_id tenant_id requester start ≡ some record_of)
    × (record_of.id ≡ submitted.attendance_id)
    × (is_auto_closed record_of.status ≡ true)
    × (some record_of.user_id ≡ as_uuid staff_token.user_id)
    × IsClaimFor (as_utc record_of.punch_in_time) at_1000 (as_utc submitted.claimed_punch_out_time)
create_correction_single_example =
    create_correction_single rt 700 800 at_1000 staff_token claim [] start after_submit submitted
      submits

abbrev done : AttendanceCorrectionRequest
done = closed_as approved 101 at_1000 none submitted

abbrev corrected : AttendanceRecord ℕ
corrected = corrected_record rt submitted missed

abbrev after_approve : Db ℕ
after_approve =
    (run_request (approve_correction rt false 801 at_1000 manager_token 700 none) after_submit).1

approves :
    run_request (approve_correction rt false 801 at_1000 manager_token 700 none) after_submit
    ≡ (ok (done, corrected), after_approve)
unfolding create_correction role_or_staff submit_claim validate_claim check_claim current_role
    cancel_pending close_inboxes pending_for add_request add_inbox_item commit_request
    has_two_pending new_request approve_correction corrected_record find_request get_locked
    ensure_reviewer find_record write_approval save_request save_record close_inbox notify_requester
approves = refl

approve_correction_stored_example :
    (request : AttendanceCorrectionRequest) × (reviewer : Uuid) × (before : AttendanceRecord ℕ)
    × (guards : MayReview after_submit manager_token 700 request reviewer) × (find_record
          request.attendance_id request.tenant_id after_submit
        ≡ some before)
    × (is_auto_closed before.status ≡ true)
    × (corrected ≡ record before {
      punch_out_time = some request.claimed_punch_out_time;
      hours_worked =
          some (hours_from rt (punched_in_at before) (as_utc request.claimed_punch_out_time));
      status = completed;
    })
    × (find_record request.attendance_id request.tenant_id after_approve ≡ some corrected)
    × (done ≡ record request {
      status = approved;
      reviewed_by = some reviewer;
      reviewed_at = some at_1000;
      review_note = none;
    })
    × (find_request 700 guards.tenant_id after_approve ≡ some done)
approve_correction_stored_example =
    approve_correction_stored rt false 801 at_1000 manager_token 700 none after_submit after_approve
      done corrected approves

abbrev claim_again : CorrectionData
claim_again = record {
  attendance_id = 503;
  claimed_punch_out_time = aware (hours 957);
  reason = "Phone was empty";
}

abbrev submitted_again : AttendanceCorrectionRequest
submitted_again =
    new_request rt 701 at_1005 1 100 staff missed_again (hours 957) (strip claim_again.reason)

abbrev after_again : Db ℕ
after_again =
    (run_request (create_correction rt 701 802 at_1005 staff_token claim_again []) after_approve).1

submits_again :
    run_request (create_correction rt 701 802 at_1005 staff_token claim_again []) after_approve
    ≡ (ok submitted_again, after_again)
unfolding create_correction role_or_staff submit_claim validate_claim check_claim current_role
    cancel_pending close_inboxes pending_for add_request add_inbox_item commit_request
    has_two_pending new_request approve_correction corrected_record find_request get_locked
    ensure_reviewer find_record write_approval save_request save_record close_inbox notify_requester
submits_again = refl

is_fresh :
    (i : Uuid)
    → contains (map request_id after_approve.attendance_correction_requests) i ≡ true
    → contains (701 ∷ []) i ≡ false
unfolding create_correction role_or_staff submit_claim validate_claim check_claim current_role
    cancel_pending close_inboxes pending_for add_request add_inbox_item commit_request
    has_two_pending new_request approve_correction corrected_record find_request get_locked
    ensure_reviewer find_record write_approval save_request save_record close_inbox notify_requester
is_fresh i h = ground arith

is_done : IsDecided 700 done after_approve
unfolding create_correction role_or_staff submit_claim validate_claim check_claim current_role
    cancel_pending close_inboxes pending_for add_request add_inbox_item commit_request
    has_two_pending new_request approve_correction corrected_record find_request get_locked
    ensure_reviewer find_record write_approval save_request save_record close_inbox notify_requester
is_done = (refl, refl)

review_is_final_example : IsDecided 700 done after_again
review_is_final_example =
    review_is_final rt 700 done
      (next here
        (submit 701 802 at_1005 staff_token claim_again [] submitted_again is_fresh submits_again))
      is_done

abbrev refused : AttendanceCorrectionRequest
refused = closed_as rejected 101 at_1005 (some "No") submitted_again

abbrev after_reject : Db ℕ
after_reject =
    (run_request (reject_correction rt true 803 at_1005 manager_token 701 (some "No"))
      after_again).1

rejects :
    run_request (reject_correction rt true 803 at_1005 manager_token 701 (some "No")) after_again
    ≡ (ok refused, after_reject)
unfolding create_correction role_or_staff submit_claim validate_claim check_claim current_role
    cancel_pending close_inboxes pending_for add_request add_inbox_item commit_request
    has_two_pending new_request approve_correction reject_correction corrected_record find_request
    get_locked ensure_reviewer find_record write_approval save_request save_record close_inbox
    notify_requester
rejects = refl

abbrev withdrawn : AttendanceCorrectionRequest
withdrawn = closed_as cancelled 100 at_1005 none submitted_again

abbrev after_cancel : Db ℕ
after_cancel = (run_request (cancel_correction at_1005 staff_token 701) after_again).1

cancels :
    run_request (cancel_correction at_1005 staff_token 701) after_again
    ≡ (ok withdrawn, after_cancel)
unfolding create_correction role_or_staff submit_claim validate_claim check_claim current_role
    cancel_pending close_inboxes pending_for add_request add_inbox_item commit_request
    has_two_pending new_request approve_correction cancel_correction corrected_record find_request
    get_locked ensure_reviewer find_record write_approval save_request save_record close_inbox
    notify_requester
cancels = refl

abbrev shown : List AttendanceCorrectionRequest
shown = listed 1 101 (reviewer_may_see manager_token) none 100 after_submit

lists :
    run_request (list_corrections manager_token none false 100) after_submit
    ≡ (ok shown, after_submit)
unfolding list_corrections list_for
lists = refl

list_corrections_visible_example :
    All (MayBeShown manager_token 1 101) shown
    × (length shown ≤ 100)
    × (after_submit ≡ after_submit)
list_corrections_visible_example =
    list_corrections_visible manager_token 1 101 none false 100 after_submit after_submit shown refl
      refl lists
