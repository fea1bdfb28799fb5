-- ===== src/Corrections/Review/Guards.antt =====
-- Who may review a correction, and what each review writes.
use ski_tech_backend.Base.{
  Bool, true, false, not, is_none, ◌&&◌, ◌||◌, inl, inr, Option, none, some, ◌≡◌, ◌≢◌, arith,
  opt_eq, Option-cases, ==_refl, String,
}
use ski_tech_backend.Runtime.{Runtime, Uuid, Instant}
use ski_tech_backend.Session.{ok, begin, run_request, Session, Result-cases}
use ski_tech_backend.Models.{
  AttendanceRecord, is_auto_closed, approved, rejected, cancelled, is_pending,
  AttendanceCorrectionRequest, Token, Db,
}
use ski_tech_backend.Scope.{
  as_uuid, caller_tenant, assigned_property, current_role, is_geofence_admin, is_manager, is_staff,
}
use ski_tech_backend.Corrections.Claim.{close_inbox}
use ski_tech_backend.Corrections.Review.{
  is_in_review_scope, may_still_review, closed_as, find_request, get_locked, ensure_reviewer,
  save_request, find_record, notify_requester, rejected_body, corrected_record, write_approval,
  approve_correction, reject_correction, cancel_correction,
}

not_own_of_test : (o : Option Uuid) (u : Uuid) → opt_eq o (some u) ≡ false → o ≢ some u
not_own_of_test o u e p = let q : opt_eq o (some u) ≡ true = rw p (==_refl u) in cc

module _ {Float : Type 0} where
  -- What holds when a caller passes the review guards on a request: the request is one of their
  -- tenant and still pending, somebody else made it, it is within the caller's scope, and the role
  -- that is stored for them now allows the review.
  pub record MayReview (d : Db Float) (user : Token) (id : Uuid)
      (request : AttendanceCorrectionRequest) (reviewer : Uuid) : Type 0 where
    pub tenant_id : Uuid
    pub in_tenant : caller_tenant user ≡ some tenant_id
    pub found : find_request id tenant_id d ≡ some request
    pub is_caller : as_uuid user.user_id ≡ some reviewer
    pub not_own : request.requested_by ≢ some reviewer
    pub still_pending : is_pending request.status ≡ true
    pub in_scope :
        ((is_geofence_admin user.role
            && (is_none (assigned_property user)
                || opt_eq (assigned_property user) (some request.property_id)))
          || (is_manager user.role
              && (is_staff request.requester_role
                  && opt_eq (assigned_property user) (some request.property_id))))
        ≡ true
    pub role_allows :
        ((is_geofence_admin (current_role user d)
            || (is_staff request.requester_role && is_manager (current_role user d)))
          && (not (is_manager user.role) || is_manager (current_role user d)))
        ≡ true

  get_locked_lem :
      (id : Uuid) (user : Token) (s : Session (Db Float)) (r : AttendanceCorrectionRequest)
      → (get_locked id user s).0 ≡ ok r
      → (tenant_id : Uuid) × (caller_tenant user ≡ some tenant_id)
        × (find_request id tenant_id s.work ≡ some r)
  unfolding get_locked
  get_locked_lem id user s r h = elim (Option-cases (caller_tenant user)) [
    | inl e ↦ ground arith
    | inr (tenant_id, e) ↦ (tenant_id, e, ground arith)
  ]

  get_locked_reads :
      (id : Uuid) (user : Token) (s : Session (Db Float)) → (get_locked id user s).1 ≡ s
  unfolding get_locked
  get_locked_reads id user s = ground arith

  ensure_reviewer_lem :
      (r : AttendanceCorrectionRequest) (user : Token) (s : Session (Db Float)) (reviewer : Uuid)
      → (ensure_reviewer r user s).0 ≡ ok reviewer
      → (as_uuid user.user_id ≡ some reviewer)
        × (opt_eq r.requested_by (some reviewer) ≡ false)
        × (is_pending r.status ≡ true)
        × (is_in_review_scope user r ≡ true)
        × (may_still_review user r (current_role user s.work) ≡ true)
  unfolding ensure_reviewer
  ensure_reviewer_lem r user s reviewer h =
      (ground arith, ground arith, ground arith, ground arith, ground arith)

  ensure_reviewer_reads :
      (r : AttendanceCorrectionRequest) (user : Token) (s : Session (Db Float))
      → (ensure_reviewer r user s).1 ≡ s
  unfolding ensure_reviewer
  ensure_reviewer_reads r user s = ground arith

  -- The guards of a review, from the request's id.
  guards :
      (id : Uuid) (user : Token) (d : Db Float) (r : AttendanceCorrectionRequest) (reviewer : Uuid)
      → (get_locked id user (begin d)).0 ≡ ok r
      → (ensure_reviewer r user (begin d)).0 ≡ ok reviewer
      → MayReview d user id r reviewer
  guards id user d r reviewer g e =
      let (tenant_id, in_tenant, found) = get_locked_lem id user (begin d) r g in
      let (is_caller, own, p, scope, role) = ensure_reviewer_lem r user (begin d) reviewer e in
      record {
        tenant_id = tenant_id;
        in_tenant = in_tenant;
        found = found;
        is_caller = is_caller;
        not_own = not_own_of_test r.requested_by reviewer own;
        still_pending = p;
        in_scope = scope;
        role_allows = role;
      }

module _ {Float : Type 0} (rt : Runtime Float) (write_fails : Bool) (item_id : Uuid) (now : Instant)
    (user : Token) (id : Uuid) (note : Option String) where
  -- An approval that succeeds has passed every guard and found the shift still auto-closed. It
  -- completes the shift with the claimed punch-out and the hours up to it, and closes the request
  -- as approved by the caller, both in one commit.
  pub approve_correction_ok :
      (d d' : Db Float) (r : AttendanceCorrectionRequest) (rec : AttendanceRecord Float)
      → run_request (approve_correction rt write_fails item_id now user id note) d
        ≡ (ok (r, rec), d')
      → (request : AttendanceCorrectionRequest) × (reviewer : Uuid) × (before : AttendanceRecord
          Float)
        × MayReview d user id request reviewer
        × (find_record request.attendance_id request.tenant_id d ≡ some before)
        × (is_auto_closed before.status ≡ true)
        × (r ≡ closed_as approved reviewer now note request)
        × (rec ≡ corrected_record rt request before)
        × (d' ≡ write_approval rt write_fails item_id now reviewer note request before d)
  unfolding approve_correction
  approve_correction_ok d d' r rec h =
      let same = get_locked_reads id user (begin d) in
      elim (Result-cases (get_locked id user (begin d)).0) [
        | inl (x, e) ↦ ground arith
        | inr (request, e) ↦
            let same' = ensure_reviewer_reads request user (begin d) in
            elim (Result-cases (ensure_reviewer request user (begin d)).0) [
              | inl (x, f) ↦ ground arith
              | inr (reviewer, f) ↦
                  elim (Option-cases (find_record request.attendance_id request.tenant_id d)) [
                    | inl g ↦ ground arith
                    | inr (before, g) ↦ (
                      request,
                      reviewer,
                      before,
                      guards id user d request reviewer e f,
                      g,
                      ground arith,
                      ground arith,
                      ground arith,
                      ground arith,
                    )
                  ]
            ]
      ]

  -- A rejection that succeeds has passed every guard and changes no attendance record.
  pub reject_correction_ok :
      (d d' : Db Float) (r : AttendanceCorrectionRequest)
      → run_request (reject_correction rt write_fails item_id now user id note) d ≡ (ok r, d')
      → (request : AttendanceCorrectionRequest) × (reviewer : Uuid) × MayReview d user id request
          reviewer
        × (r ≡ closed_as rejected reviewer now note request)
        × (d'
            ≡ notify_requester rt write_fails item_id r
                (rejected_body rt)
                (close_inbox r (save_request r d)))
  unfolding reject_correction
  reject_correction_ok d d' r h =
      let same = get_locked_reads id user (begin d) in
      elim (Result-cases (get_locked id user (begin d)).0) [
        | inl (x, e) ↦ ground arith
        | inr (request, e) ↦
            let same' = ensure_reviewer_reads request user (begin d) in
            elim (Result-cases (ensure_reviewer request user (begin d)).0) [
              | inl (x, f) ↦ ground arith
              | inr (reviewer, f) ↦ (
                request,
                reviewer,
                guards id user d request reviewer e f,
                ground arith,
                ground arith,
              )
            ]
      ]

module _ {Float : Type 0} (now : Instant) (user : Token) (id : Uuid) where
  -- Only the one who made a request cancels it, while it is pending.
  pub cancel_correction_ok :
      (d d' : Db Float) (r : AttendanceCorrectionRequest)
      → run_request (cancel_correction now user id) d ≡ (ok r, d')
      → (request : AttendanceCorrectionRequest) × (tenant_id requester : Uuid) × (find_request id
            tenant_id d
          ≡ some request)
        × (as_uuid user.user_id ≡ some requester)
        × (opt_eq request.requested_by (some requester) ≡ true)
        × (is_pending request.status ≡ true)
        × (r ≡ closed_as cancelled requester now none request)
        × (d' ≡ close_inbox r (save_request r d))
  unfolding cancel_correction
  cancel_correction_ok d d' r h =
      let same = get_locked_reads id user (begin d) in
      elim (Result-cases (get_locked id user (begin d)).0) [
        | inl (x, e) ↦ ground arith
        | inr (request, e) ↦
            let (tenant_id, _, found) = get_locked_lem id user (begin d) request e in
            elim (Option-cases (as_uuid user.user_id)) [
              | inl f ↦ ground arith
              | inr (requester, f) ↦ (
                request,
                tenant_id,
                requester,
                found,
                f,
                ground arith,
                ground arith,
                ground arith,
                ground arith,
              )
            ]
      ]
