-- ===== src/Corrections/Decided.antt =====
-- A decided correction is final: no later submission or review changes it.
use ski_tech_backend.Base.{
  Bool, true, false, Option, none, some, inl, inr, List, [], ◌∷◌, map, ◌≡◌, refl, subst, ◌∙◌, arith,
  ◌==◌, select, contains, found_is_row, listed_is_row, row-update_row, row-update_listed,
  row-append, Bool-cases, String, contains_row, append_assoc,
}
use ski_tech_backend.Runtime.{Runtime, Uuid, Instant}
use ski_tech_backend.Text.{strip}
use ski_tech_backend.Scope.{current_role}
use ski_tech_backend.Session.{ok, run_request}
use ski_tech_backend.Models.{
  AttendanceRecord, approved, rejected, cancelled, is_pending, AttendanceCorrectionRequest, Token,
  Db,
}
use ski_tech_backend.Corrections.Claim.{
  CorrectionData, request_id, is_pending_for, replaced, pending_for, create_correction, close_inbox,
  new_request, role_or_staff,
}
use ski_tech_backend.Corrections.Claim.Single.{after_cancel, submit_claim_lem, create_correction_ok}
use ski_tech_backend.Corrections.Review.{
  closed_as, find_request, save_request, approve_correction, reject_correction, cancel_correction,
  write_approval, notify_requester,
}
use ski_tech_backend.Corrections.Review.Guards.{
  approve_correction_ok, reject_correction_ok, cancel_correction_ok,
}

-- The request with id `i` is `x`, and it is no longer pending.
abbrev pub IsDecided : {Float : Type 0} → Uuid → AttendanceCorrectionRequest → Db Float → Type 0
IsDecided i x d =
    (select (λ r. r.id == i) d.attendance_correction_requests ≡ x ∷ [])
    × (is_pending x.status ≡ false)

module _ {Float : Type 0} (rt : Runtime Float) where
  -- One request to the service that succeeds. A new row has an id that no row has.
  pub data Step (d d' : Db Float) : Type 0 where
    submit :
        (new_id item_id : Uuid) (now : Instant) (user : Token) (data_in : CorrectionData)
        (rivals : List AttendanceCorrectionRequest) (r : AttendanceCorrectionRequest)
        → ((i : Uuid)
            → contains (map request_id d.attendance_correction_requests) i ≡ true
            → contains (new_id ∷ map request_id rivals) i ≡ false)
        → run_request (create_correction rt new_id item_id now user data_in rivals) d ≡ (ok r, d')
        → Step d d'
    approve :
        (write_fails : Bool) (item_id : Uuid) (now : Instant) (user : Token) (id : Uuid)
        (note : Option String) (r : AttendanceCorrectionRequest) (rec : AttendanceRecord Float)
        → run_request (approve_correction rt write_fails item_id now user id note) d
          ≡ (ok (r, rec), d')
        → Step d d'
    reject :
        (write_fails : Bool) (item_id : Uuid) (now : Instant) (user : Token) (id : Uuid)
        (note : Option String) (r : AttendanceCorrectionRequest)
        → run_request (reject_correction rt write_fails item_id now user id note) d ≡ (ok r, d')
        → Step d d'
    cancel :
        (now : Instant) (user : Token) (id : Uuid) (r : AttendanceCorrectionRequest)
        → run_request (cancel_correction now user id) d ≡ (ok r, d')
        → Step d d'

  -- Any number of them.
  pub data Reach (d : Db Float) : Db Float → Type 0 where
    here : Reach d d
    next : {d' d'' : Db Float} → Reach d d' → Step d' d'' → Reach d d''

module _ {Float : Type 0} (i : Uuid) (x : AttendanceCorrectionRequest) (d : Db Float) where
  -- A pending request that a review finds is not the decided one.
  found_elsewhere :
      (id tenant_id : Uuid) (request : AttendanceCorrectionRequest)
      → find_request id tenant_id d ≡ some request
      → is_pending request.status ≡ true
      → IsDecided i x d
      → (request.id == i) ≡ false
  unfolding find_request
  found_elsewhere id tenant_id request found p (row, decided) =
      elim (Bool-cases (request.id == i)) [
        | inl same ↦
            let is_x =
              found_is_row _ (λ r. r.id == i) d.attendance_correction_requests found same row in
            let p' : is_pending x.status ≡ true = subst (λ r. is_pending r.status ≡ true) is_x p in
            cc
        | inr other ↦ other
      ]

  save_request_elsewhere :
      (c : AttendanceCorrectionRequest)
      → (c.id == i) ≡ false
      → IsDecided i x d
      → IsDecided i x (save_request c d)
  unfolding save_request
  save_request_elsewhere c ne (row, decided) =
      (row-update_row request_id i c d.attendance_correction_requests ne ∙ row, decided)

  -- Replacing the pending requests of a shift.
  after_cancel_elsewhere :
      (attendance_id requester : Uuid) (now : Instant)
      → IsDecided i x d
      → select (λ r. r.id == i) (after_cancel attendance_id requester now d) ≡ x ∷ []
  unfolding pending_for
  after_cancel_elsewhere attendance_id requester now (row, decided) =
      let ids = map request_id (pending_for attendance_id d) in
      let unlisted : contains ids i ≡ false = elim (Bool-cases (contains ids i)) [
        | inl listed ↦
            let p =
              listed_is_row request_id (is_pending_for attendance_id) i
                d.attendance_correction_requests listed row in
            ground (arith, p)
        | inr other ↦ other
      ] in
      row-update_listed request_id i ids (replaced requester now) d.attendance_correction_requests
        (λ r. refl) unlisted
      ∙ row

  Step-keeps :
      (rt : Runtime Float) (d' : Db Float) → Step rt d d' → IsDecided i x d → IsDecided i x d'
  unfolding write_approval close_inbox notify_requester new_request save_request
      ski_tech_backend.Attendance.Punch.save_record
  Step-keeps rt d' (submit new_id item_id now user data_in rivals r fresh run) (row, decided) =
      let (requester, tenant_id, record_of, claimed, e, f, g, closed, k, run') =
        create_correction_ok rt new_id item_id now user data_in rivals d d' r run in
      let (p, free, q) =
        submit_claim_lem rt new_id item_id now tenant_id requester
          (role_or_staff rt (current_role user d) user.role) record_of claimed
          (strip data_in.reason) rivals d d' r run' in
      let unlisted = fresh i (contains_row request_id i d.attendance_correction_requests row) in
      let kept = after_cancel_elsewhere record_of.id requester now (row, decided) in
      (rw (q, append_assoc) (row-append request_id i _ _ unlisted ∙ kept), decided)
  Step-keeps rt d' (approve write_fails item_id now user id note r rec run) dec =
      let (request, reviewer, before, may, f, closed, p, p', q) =
        approve_correction_ok rt write_fails item_id now user id note d d' r rec run in
      let other = found_elsewhere id may.tenant_id request may.found may.still_pending dec in
      let kept = save_request_elsewhere (closed_as approved reviewer now note request) other dec in
      rw q kept
  Step-keeps rt d' (reject write_fails item_id now user id note r run) dec =
      let (request, reviewer, may, p, q) =
        reject_correction_ok rt write_fails item_id now user id note d d' r run in
      let other = found_elsewhere id may.tenant_id request may.found may.still_pending dec in
      let kept = save_request_elsewhere (closed_as rejected reviewer now note request) other dec in
      rw (q, p) kept
  Step-keeps rt d' (cancel now user id r run) dec =
      let (request, tenant_id, requester, found, e, own, still, p, q) =
        cancel_correction_ok now user id d d' r run in
      let other = found_elsewhere id tenant_id request found still dec in
      let kept =
        save_request_elsewhere (closed_as cancelled requester now none request) other dec in
      rw (q, p) kept

module _ {Float : Type 0} (rt : Runtime Float) where
  -- A request that has been approved, rejected or cancelled is never changed again, by any number
  -- of submissions, approvals, rejections and cancellations that succeed, where new rows have ids
  -- that no row has.
  pub review_is_final :
      (i : Uuid) (x : AttendanceCorrectionRequest) {d d' : Db Float}
      → Reach rt d d'
      → IsDecided i x d
      → IsDecided i x d'
  review_is_final i x here dec = dec
  review_is_final i x (next steps step) dec =
      Step-keeps i x _ rt _ step (review_is_final i x steps dec)
