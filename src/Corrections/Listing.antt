-- ===== src/Corrections/Listing.antt =====
-- Listing the corrections that a caller may see.
use ski_tech_backend.Base.{
  ℕ, ◌≤◌, Bool, true, false, ◌&&◌, ◌||◌, Option, none, some, inl, inr, All, List, [], ◌≡◌, arith,
  ◌==◌, ==→eq, opt_eq, if◌then◌else◌, select, take, length, order_by, order_by_desc, All-select,
  All-order_by, All-order_by_desc, All-take, length-take, All-imp, Option-cases, Bool-cases,
}
use ski_tech_backend.Runtime.{Uuid}
use ski_tech_backend.Session.{Action, pure, gets, ok, run_request, ◌>>=◌}
use ski_tech_backend.Models.{
  RequestStatus, pending, approved, rejected, cancelled, AttendanceCorrectionRequest, Token, Db,
}
use ski_tech_backend.Scope.{
  as_uuid, assigned_property, caller_tenant, is_geofence_admin, is_manager, is_staff, user_uuid,
}
use ski_tech_backend.Corrections.Review.{is_in_review_scope}

abbrev request_id : AttendanceCorrectionRequest → Uuid
request_id r = r.id

-- The filter of `_reviewer_may_see`; none is its None, and the test that always holds its True.
unfoldable pub reviewer_may_see : Token → Option (AttendanceCorrectionRequest → Bool)
reviewer_may_see user =
    if is_manager user.role
    then elim (assigned_property user) [
      | none ↦ none
      | some prop ↦ some (λ r. is_staff r.requester_role && r.property_id == prop)
    ]
    else if is_geofence_admin user.role
    then elim (assigned_property user) [
      | none ↦ some (λ _. true)
      | some prop ↦ some (λ r. r.property_id == prop)
    ]
    else none

unfoldable pub is_visible :
    Uuid → Option (AttendanceCorrectionRequest → Bool) → AttendanceCorrectionRequest → Bool
is_visible caller none r = opt_eq r.requested_by (some caller)
is_visible caller (some may_see) r = opt_eq r.requested_by (some caller) || may_see r

abbrev is_status : RequestStatus → RequestStatus → Bool
is_status pending pending = true
is_status approved approved = true
is_status rejected rejected = true
is_status cancelled cancelled = true
is_status _ _ = false

abbrev has_status : Option RequestStatus → AttendanceCorrectionRequest → Bool
has_status none r = true
has_status (some status) r = is_status status r.status

module _ {Float : Type 0} where
  -- The query, newest first and by id among equals.
  unfoldable pub listed :
      Uuid
      → Uuid
      → Option (AttendanceCorrectionRequest → Bool)
      → Option RequestStatus
      → ℕ
      → Db Float
      → List AttendanceCorrectionRequest
  listed tenant_id caller may_see status limit d = take limit (
      order_by_desc (λ r. r.created_at)
        (order_by request_id (
          select
            (λ r. r.tenant_id == tenant_id && (is_visible caller may_see r && has_status status r))
            d.attendance_correction_requests)))

  unfoldable pub list_for :
      Uuid
      → Token
      → Option RequestStatus
      → Bool
      → ℕ
      → Action (Db Float) (List AttendanceCorrectionRequest)
  unfolding reviewer_may_see
  list_for tenant_id user status mine_only limit = do
    caller ← user_uuid user
    gets (listed tenant_id caller (if mine_only then none else reviewer_may_see user) status limit)

  unfoldable pub list_corrections :
      Token → Option RequestStatus → Bool → ℕ → Action (Db Float) (List AttendanceCorrectionRequest)
  unfolding list_for
  list_corrections user status mine_only limit = elim (caller_tenant user) [
    | none ↦ pure []
    | some tenant_id ↦ list_for tenant_id user status mine_only limit
  ]

may_see-is_in_review_scope :
    (user : Token) (mine_only : Bool) (caller : Uuid) (r : AttendanceCorrectionRequest)
    → is_visible caller (if mine_only then none else reviewer_may_see user) r ≡ true
    → (opt_eq r.requested_by (some caller) || is_in_review_scope user r) ≡ true
unfolding is_visible reviewer_may_see
may_see-is_in_review_scope user true caller r h = ground arith
may_see-is_in_review_scope user false caller r h = elim (Bool-cases (is_manager user.role)) [
  | inl m ↦ elim (Option-cases (assigned_property user)) [
    | inl e ↦ ground arith
    | inr (prop, e) ↦ ground arith
  ]
  | inr m ↦ elim (Bool-cases (is_geofence_admin user.role)) [
    | inl a ↦ elim (Option-cases (assigned_property user)) [
      | inl e ↦ ground arith
      | inr (prop, e) ↦ ground arith
    ]
    | inr a ↦ ground arith
  ]
]

-- A request that a caller may be shown.
abbrev pub MayBeShown : Token → Uuid → Uuid → AttendanceCorrectionRequest → Type 0
MayBeShown user tenant_id caller r =
    (r.tenant_id ≡ tenant_id)
    × ((opt_eq r.requested_by (some caller) || is_in_review_scope user r) ≡ true)

module _ {Float : Type 0} where
  listed-All :
      (tenant_id caller : Uuid) (user : Token) (mine_only : Bool) (status : Option RequestStatus)
      (limit : ℕ) (d : Db Float)
      → let may_see = if mine_only then none else reviewer_may_see user in
        All (MayBeShown user tenant_id caller) (listed tenant_id caller may_see status limit d)
  unfolding listed
  listed-All tenant_id caller user mine_only status limit d =
      All-take (MayBeShown user tenant_id caller) limit _ (
        All-order_by_desc (MayBeShown user tenant_id caller) (λ r. r.created_at) _
          (All-order_by (MayBeShown user tenant_id caller) request_id _ (
            All-imp _ _ _
              (λ r h. (
                ==→eq _ _ (ground arith),
                may_see-is_in_review_scope user mine_only caller r (ground arith),
              ))
              (All-select _ d.attendance_correction_requests))))

  -- Every listed correction is of the caller's tenant, and the caller's own or one that the caller
  -- may review by role and property. There are at most as many as asked for.
  pub list_corrections_visible :
      (user : Token) (tenant_id caller : Uuid) (status : Option RequestStatus) (mine_only : Bool)
      (limit : ℕ) (d d' : Db Float) (rs : List AttendanceCorrectionRequest)
      → caller_tenant user ≡ some tenant_id
      → as_uuid user.user_id ≡ some caller
      → run_request (list_corrections user status mine_only limit) d ≡ (ok rs, d')
      → All (MayBeShown user tenant_id caller) rs × (length rs ≤ limit) × (d' ≡ d)
  unfolding list_corrections list_for
  list_corrections_visible user tenant_id caller status mine_only limit d d' rs t c h =
      let may_see = if mine_only then none else reviewer_may_see user in
      let found : rs ≡ listed tenant_id caller may_see status limit d = ground arith in
      (
        rw found (listed-All tenant_id caller user mine_only status limit d),
        rw found (unfold listed in length-take limit _),
        ground arith,
      )
