-- ===== src/Corrections/Claim/Single.antt =====
-- One pending request for a shift: a submission replaces what was pending.
use ski_tech_backend.Base.{
  true, false, some, inl, inr, List, [], ◌∷◌, ◌++◌, map, String, ◌≡◌, refl, sym, subst, ap, arith,
  ==_refl, any, select, select-append, update_listed, All-listed, select-update_listed_none,
  append-nil, select_of_any-false, any_of_select_nil, any-snoc, append_assoc, first-select, ==→eq,
  Option-cases,
}
use ski_tech_backend.Runtime.{Runtime, Uuid, Instant, aware}
use ski_tech_backend.Session.{ok, run_request, Result-cases}
use ski_tech_backend.Models.{
  AttendanceRecord, is_auto_closed, is_pending, AttendanceCorrectionRequest, RoleName, Token, Db,
}
use ski_tech_backend.Text.{strip}
use ski_tech_backend.Scope.{as_uuid, caller_tenant, current_role}
use ski_tech_backend.Attendance.Records.{as_utc}
use ski_tech_backend.Corrections.Claim.Bounds.{IsClaimFor, validate_claim_iff}
use ski_tech_backend.Corrections.Claim.{
  find_own_record, role_or_staff, CorrectionData, request_id, is_pending_for, replaced,
  has_two_pending, close_inboxes, cancel_pending, pending_for, add_request, add_inbox_item,
  commit_request, new_request, submit_claim, create_correction, validate_claim,
}

-- What the index leaves after a pending request: none for the same shift.
has_two_pending_after :
    (xs : List AttendanceCorrectionRequest) (r : AttendanceCorrectionRequest)
    (ys : List AttendanceCorrectionRequest)
    → is_pending r.status ≡ true
    → has_two_pending (xs ++ r ∷ ys) ≡ false
    → any (is_pending_for r.attendance_id) ys ≡ false
unfolding has_two_pending
has_two_pending_after [] r ys p h = ground arith
has_two_pending_after (x ∷ xs) r ys p h = ground (arith, has_two_pending_after xs r ys p)

-- A request whose shift has none pending may be added.
has_two_pending-snoc :
    (xs : List AttendanceCorrectionRequest) (r : AttendanceCorrectionRequest)
    → has_two_pending xs ≡ false
    → any (is_pending_for r.attendance_id) xs ≡ false
    → has_two_pending (xs ++ r ∷ []) ≡ false
unfolding has_two_pending
has_two_pending-snoc [] r h n = ground arith
has_two_pending-snoc (x ∷ xs) r h n =
    ground (arith, has_two_pending-snoc xs r, any-snoc (is_pending_for x.attendance_id) xs r)

-- Cancelling requests leaves no more pending than there were.
any-update :
    (a : Uuid) (ids : List Uuid) (requester : Uuid) (now : Instant)
    (xs : List AttendanceCorrectionRequest)
    → any (is_pending_for a) xs ≡ false
    → any (is_pending_for a) (update_listed request_id ids (replaced requester now) xs) ≡ false
any-update a ids requester now [] h = refl
any-update a ids requester now (x ∷ xs) h = ground (arith, any-update a ids requester now xs)

has_two_pending-update :
    (ids : List Uuid) (requester : Uuid) (now : Instant) (xs : List AttendanceCorrectionRequest)
    → has_two_pending xs ≡ false
    → has_two_pending (update_listed request_id ids (replaced requester now) xs) ≡ false
unfolding has_two_pending
has_two_pending-update ids requester now [] h = refl
has_two_pending-update ids requester now (x ∷ xs) h = ground (
  arith,
  has_two_pending-update ids requester now xs,
  any-update x.attendance_id ids requester now xs,
)

module _ {Float : Type 0} where
  requests-close_inboxes :
      (rs : List AttendanceCorrectionRequest) (d : Db Float)
      → (close_inboxes rs d).attendance_correction_requests ≡ d.attendance_correction_requests
  unfolding close_inboxes
  requests-close_inboxes [] d = refl
  requests-close_inboxes (r ∷ rs) d = requests-close_inboxes rs _

  -- The requests after the pending ones of a shift were replaced.
  abbrev pub after_cancel : Uuid → Uuid → Instant → Db Float → List AttendanceCorrectionRequest
  after_cancel attendance_id requester now d =
      update_listed request_id (map request_id (pending_for attendance_id d))
        (replaced requester now) d.attendance_correction_requests

  requests-cancel_pending :
      (attendance_id requester : Uuid) (now : Instant) (d : Db Float)
      → (cancel_pending
          (pending_for attendance_id d)
          requester
          now
          d).attendance_correction_requests
        ≡ after_cancel attendance_id requester now d
  unfolding cancel_pending
  requests-cancel_pending attendance_id requester now d =
      requests-close_inboxes (pending_for attendance_id d) _

  after_cancel_none :
      (attendance_id requester : Uuid) (now : Instant) (d : Db Float)
      → select (is_pending_for attendance_id) (after_cancel attendance_id requester now d) ≡ []
  unfolding pending_for
  after_cancel_none attendance_id requester now d =
      select-update_listed_none request_id (is_pending_for attendance_id) _ (replaced requester now)
        d.attendance_correction_requests (λ r. ground arith)
        (All-listed request_id (is_pending_for attendance_id) _ d.attendance_correction_requests
          (λ a m. m))

module _ {Float : Type 0} (rt : Runtime Float) (new_id item_id : Uuid) (now : Instant)
    (tenant_id requester : Uuid) (role : RoleName) (record_of : AttendanceRecord Float)
    (claimed : Instant) (reason : String) where
  abbrev pub request_of : AttendanceCorrectionRequest
  request_of = new_request rt new_id now tenant_id requester role record_of claimed reason

  abbrev pub requests_after : Db Float → List AttendanceCorrectionRequest
  requests_after d = after_cancel record_of.id requester now d ++ request_of ∷ []

  -- A submission commits exactly when the index accepts the requests, and then they are stored.
  pub submit_claim_lem :
      (rivals : List AttendanceCorrectionRequest) (d d' : Db Float)
      (r : AttendanceCorrectionRequest)
      → run_request
          (submit_claim rt new_id item_id now tenant_id requester role record_of claimed reason
            rivals)
          d
        ≡ (ok r, d')
      → (r ≡ request_of)
        × (has_two_pending (requests_after d ++ rivals) ≡ false)
        × (d'.attendance_correction_requests ≡ requests_after d ++ rivals)
  unfolding submit_claim commit_request add_request add_inbox_item
  submit_claim_lem rivals d d' r h =
      let same = requests-cancel_pending record_of.id requester now d in
      (ground (arith, same), ground (arith, same), ground (arith, same))

  submit_claim_single :
      (rivals : List AttendanceCorrectionRequest) (d d' : Db Float)
      (r : AttendanceCorrectionRequest)
      → run_request
          (submit_claim rt new_id item_id now tenant_id requester role record_of claimed reason
            rivals)
          d
        ≡ (ok r, d')
      → pending_for record_of.id d' ≡ r ∷ []
  unfolding pending_for
  submit_claim_single rivals d d' r h =
      let (p, free, q) = submit_claim_lem rivals d d' r h in
      let none_left = after_cancel_none record_of.id requester now d in
      let rivals_none = select_of_any-false (is_pending_for record_of.id) rivals (
        unfold new_request in
        has_two_pending_after (after_cancel record_of.id requester now d) request_of rivals refl
          (rw append_assoc at free)) in
      rw q (
        rw select-append (
          rw select-append (
            rw (none_left, rivals_none, p)
              (unfold new_request in ground (arith, ==_refl record_of.id)))))

  -- With no rival, the index never refuses a submission where no shift had two pending requests.
  pub submit_claim_succeeds :
      (d : Db Float)
      → has_two_pending d.attendance_correction_requests ≡ false
      → (run_request
          (submit_claim rt new_id item_id now tenant_id requester role record_of claimed reason [])
          d).0
        ≡ ok request_of
  unfolding submit_claim commit_request add_request add_inbox_item
  submit_claim_succeeds d h =
      let same = requests-cancel_pending record_of.id requester now d in
      let free : has_two_pending (requests_after d ++ []) ≡ false = rw append-nil (
        has_two_pending-snoc (after_cancel record_of.id requester now d) request_of
          (has_two_pending-update _ requester now d.attendance_correction_requests h)
          (unfold new_request in
            any_of_select_nil (is_pending_for record_of.id) _
              (after_cancel_none record_of.id requester now d))) in
      ground (arith, same, free)

-- What a submission that succeeds has passed.
module _ {Float : Type 0} (rt : Runtime Float) (new_id item_id : Uuid) (now : Instant)
    (user : Token) (data_in : CorrectionData) (rivals : List AttendanceCorrectionRequest) where
  pub create_correction_ok :
      (d d' : Db Float) (r : AttendanceCorrectionRequest)
      → run_request (create_correction rt new_id item_id now user data_in rivals) d ≡ (ok r, d')
      → (requester tenant_id : Uuid) × (record_of : AttendanceRecord Float) × (claimed : Instant)
        × (as_uuid user.user_id ≡ some requester)
        × (caller_tenant user ≡ some tenant_id)
        × (find_own_record data_in.attendance_id tenant_id requester d ≡ some record_of)
        × (is_auto_closed record_of.status ≡ true)
        × (validate_claim (as_utc record_of.punch_in_time) data_in.claimed_punch_out_time now
            ≡ ok claimed)
        × (run_request
              (submit_claim rt new_id item_id now tenant_id requester
                (role_or_staff rt (current_role user d) user.role)
                record_of
                claimed
                (strip data_in.reason)
                rivals)
              d
            ≡ (ok r, d'))
  unfolding create_correction
  create_correction_ok d d' r h = elim (Option-cases (as_uuid user.user_id)) [
    | inl e ↦ ground arith
    | inr (requester, e) ↦ elim (Option-cases (caller_tenant user)) [
      | inl f ↦ ground arith
      | inr (tenant_id, f) ↦
          elim (Option-cases (find_own_record data_in.attendance_id tenant_id requester d)) [
            | inl g ↦ ground arith
            | inr (record_of, g) ↦
                elim (Result-cases (
                  validate_claim (as_utc record_of.punch_in_time) data_in.claimed_punch_out_time
                    now)) [
                      | inl (x, k) ↦ ground arith
                      | inr (claimed, k) ↦ (
                        requester,
                        tenant_id,
                        record_of,
                        claimed,
                        e,
                        f,
                        g,
                        ground arith,
                        k,
                        ground arith,
                      )
                    ]
          ]
    ]
  ]

  -- After a submission that succeeds, whatever others have committed meanwhile, the new request is
  -- the only pending one for its shift. The shift is the one that is stored under the given id for
  -- the caller in their tenant. It is auto-closed, and the request claims a time that may stand for
  -- it.
  pub create_correction_single :
      (d d' : Db Float) (r : AttendanceCorrectionRequest)
      → run_request (create_correction rt new_id item_id now user data_in rivals) d ≡ (ok r, d')
      → (pending_for r.attendance_id d' ≡ r ∷ [])
        × (requester tenant_id : Uuid) × (record_of : AttendanceRecord Float) × (as_uuid
              user.user_id
            ≡ some requester)
        × (caller_tenant user ≡ some tenant_id)
        × (find_own_record data_in.attendance_id tenant_id requester d ≡ some record_of)
        × (record_of.id ≡ r.attendance_id)
        × (is_auto_closed record_of.status ≡ true)
        × (some record_of.user_id ≡ as_uuid user.user_id)
        × IsClaimFor (as_utc record_of.punch_in_time) now (as_utc r.claimed_punch_out_time)
  unfolding new_request
  create_correction_single d d' r h =
      let (requester, tenant_id, record_of, claimed, e, f, g, closed, k, run) =
        create_correction_ok d d' r h in
      let role = role_or_staff rt (current_role user d) user.role in
      let (p, _, _) =
        submit_claim_lem rt new_id item_id now tenant_id requester role record_of claimed
          (strip data_in.reason) rivals d d' r run in
      let single =
        submit_claim_single rt new_id item_id now tenant_id requester role record_of claimed
          (strip data_in.reason) rivals d d' r run in
      let shift : r.attendance_id ≡ record_of.id =
        ap (λ (x : AttendanceCorrectionRequest). x.attendance_id) p in
      let time : r.claimed_punch_out_time ≡ aware claimed =
        ap (λ (x : AttendanceCorrectionRequest). x.claimed_punch_out_time) p in
      let own = first-select _ d.attendance_records g in
      let bounds = (validate_claim_iff (as_utc record_of.punch_in_time) now claimed _).0 k in
      (
        subst (λ i. pending_for i d' ≡ r ∷ []) (sym shift) single,
        requester,
        tenant_id,
        record_of,
        e,
        f,
        g,
        sym shift,
        closed,
        rw e (ap some (==→eq _ _ (ground (arith, own)))),
        rw time bounds.1,
      )
