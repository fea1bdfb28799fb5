-- ===== src/GeofenceRequests/Review/Guards.antt =====
-- Who may review a geofence change request, and what each review writes.
use ski_tech_backend.Base.{
  Bool, true, false, not, ◌&&◌, inl, inr, Option, none, some, ◌≡◌, ◌≢◌, refl, sym, ap, ◌∙◌, ◌⊎◌,
  arith, opt_eq, is_none, Bool-cases, Option-cases, ==_refl, String,
}
use ski_tech_backend.Runtime.{Uuid, Instant}
use ski_tech_backend.Session.{
  ok, err, Error, value_error, malformed_uuid, role_changed, property_deleted, concurrent_submit,
  ok_injective, err_not_ok, begin, run_request, Session, Result-cases,
}
use ski_tech_backend.Models.{
  approved, rejected, cancelled, is_pending, GeofenceChangeRequest, PropertyGeofence, Token, Db,
}
use ski_tech_backend.Scope.{
  as_uuid, caller_tenant, assigned_property, is_manager, is_elsewhere, still_geofence_admin,
  find_property,
}
use ski_tech_backend.Attendance.Records.{find_geofence}
use ski_tech_backend.GeofenceRequests.Submit.{close_inbox_item}
use ski_tech_backend.GeofenceRequests.Review.{
  closed_as, find_request, get_for_update, ensure_reviewable, save_request, notify_requester,
  approved_geofence, write_geofence, is_insert_refused, approve_request, reject_request,
  cancel_request,
}

not_own_of_test : (o : Option Uuid) (u : Uuid) → opt_eq o (some u) ≡ false → o ≢ some u
not_own_of_test o u e p = let q : opt_eq o (some u) ≡ true = rw p (==_refl u) in cc

module _ {Float : Type 0} where
  -- What holds when a caller passes the guards of a review: the request is one of their tenant and
  -- of a property that they may work with, it is still pending, somebody else made it, and the role
  -- that is stored for them now is one of the geofence administrators'.
  pub record MayReview (d : Db Float) (user : Token) (id : Uuid)
      (request : GeofenceChangeRequest Float) (reviewer : Uuid) : Type 0 where
    pub tenant_id : Uuid
    pub in_tenant : caller_tenant user ≡ some tenant_id
    pub found : find_request id tenant_id d ≡ some request
    pub at_property :
        (not (is_manager user.role) && is_elsewhere (assigned_property user) request.property_id)
        ≡ false
    pub is_caller : as_uuid user.user_id ≡ some reviewer
    pub not_own : request.requested_by ≢ some reviewer
    pub still_pending : is_pending request.status ≡ true
    pub is_admin_now : still_geofence_admin user d ≡ true

  pub get_for_update_lem :
      (id : Uuid) (user : Token) (s : Session (Db Float)) (r : GeofenceChangeRequest Float)
      → (get_for_update id user s).0 ≡ ok r
      → (tenant_id : Uuid) × (caller_tenant user ≡ some tenant_id)
        × (find_request id tenant_id s.work ≡ some r)
        × ((not (is_manager user.role) && is_elsewhere (assigned_property user) r.property_id)
            ≡ false)
  unfolding get_for_update
  get_for_update_lem id user s r h = elim (Option-cases (caller_tenant user)) [
    | inl e ↦ ground arith
    | inr (tenant_id, e) ↦ elim (Option-cases (find_request id tenant_id s.work)) [
      | inl f ↦ ground arith
      | inr (found, f) ↦ (tenant_id, e, ground arith, ground arith)
    ]
  ]

  pub get_for_update_reads :
      (id : Uuid) (user : Token) (s : Session (Db Float)) → (get_for_update id user s).1 ≡ s
  unfolding get_for_update
  get_for_update_reads id user s = ground arith

  ensure_reviewable_lem :
      (r : GeofenceChangeRequest Float) (reviewer : Uuid) (s : Session (Db Float))
      → (ensure_reviewable r reviewer s).0 ≡ ok tt
      → (opt_eq r.requested_by (some reviewer) ≡ false) × (is_pending r.status ≡ true)
  unfolding ensure_reviewable
  ensure_reviewable_lem r reviewer s h = (ground arith, ground arith)

  pub ensure_reviewable_reads :
      (r : GeofenceChangeRequest Float) (reviewer : Uuid) (s : Session (Db Float))
      → (ensure_reviewable r reviewer s).1 ≡ s
  unfolding ensure_reviewable
  ensure_reviewable_reads r reviewer s = ground arith

  guards :
      (id : Uuid) (user : Token) (d : Db Float) (r : GeofenceChangeRequest Float) (reviewer : Uuid)
      → (get_for_update id user (begin d)).0 ≡ ok r
      → as_uuid user.user_id ≡ some reviewer
      → (ensure_reviewable r reviewer (begin d)).0 ≡ ok tt
      → still_geofence_admin user d ≡ true
      → MayReview d user id r reviewer
  guards id user d r reviewer g is_caller e admin =
      let (tenant_id, in_tenant, found, at_property) = get_for_update_lem id user (begin d) r g in
      let (own, p) = ensure_reviewable_lem r reviewer (begin d) e in
      record {
        tenant_id = tenant_id;
        in_tenant = in_tenant;
        found = found;
        at_property = at_property;
        is_caller = is_caller;
        not_own = not_own_of_test r.requested_by reviewer own;
        still_pending = p;
        is_admin_now = admin;
      }

module _ {Float : Type 0} (write_fails : Bool) (item_id : Uuid) (now : Instant) (user : Token)
    (id : Uuid) (note : Option String) where
  -- What an approval of a request leaves.
  abbrev pub approved_db : Uuid → Uuid → GeofenceChangeRequest Float → Db Float → Db Float
  approved_db new_id reviewer request d =
      notify_requester write_fails item_id (closed_as approved reviewer now note request) true (
        close_inbox_item (closed_as approved reviewer now note request) (
          save_request (closed_as approved reviewer now note request) (
            write_geofence new_id request (find_geofence request.property_id request.tenant_id d)
              d)))

  -- The guards that an approval has passed by the time it writes.
  pub record IsApprovable (d : Db Float) (request : GeofenceChangeRequest Float) (reviewer : Uuid)
      : Type 0 where
    pub may_review : MayReview d user id request reviewer
    pub property_live : is_none (find_property request.property_id request.tenant_id d) ≡ false
    pub not_refused :
        is_insert_refused request (find_geofence request.property_id request.tenant_id d) d ≡ false

  -- An approval fails and changes nothing, or passes every guard and writes.
  pub approve_outcome :
      (new_id : Uuid) (d : Db Float)
      → ((y : Error) × (run_request (approve_request write_fails item_id new_id now user id note) d
            ≡ (err y, d)))
        ⊎ ((request : GeofenceChangeRequest Float) × (reviewer : Uuid) × IsApprovable d request
              reviewer
            × (run_request (approve_request write_fails item_id new_id now user id note) d ≡ (
              ok (
                closed_as approved reviewer now note request,
                approved_geofence new_id request
                    (find_geofence request.property_id request.tenant_id d),
              ),
              approved_db new_id reviewer request d,
            )))
  unfolding approve_request
  approve_outcome new_id d =
      let same = get_for_update_reads id user (begin d) in
      elim (Result-cases (get_for_update id user (begin d)).0) [
        | inl (x, e) ↦ inl (x, rw (e, same) refl)
        | inr (request, e) ↦ elim (Option-cases (as_uuid user.user_id)) [
          | inl f ↦ inl (value_error malformed_uuid, rw (e, same) (rw f refl))
          | inr (reviewer, f) ↦
              let same' = ensure_reviewable_reads request reviewer (begin d) in
              elim (Result-cases (ensure_reviewable request reviewer (begin d)).0) [
                | inl (x, k) ↦ inl (x, rw (e, same) (rw f (rw (k, same') refl)))
                | inr (_, k) ↦ elim (Bool-cases (still_geofence_admin user d)) [
                  | inr a ↦ inl (role_changed, rw (e, same) (rw f (rw (k, same') (rw a refl))))
                  | inl a ↦
                      elim (Bool-cases
                        (is_none (find_property request.property_id request.tenant_id d))) [
                          | inl n ↦ inl (
                            property_deleted,
                            rw (e, same) (rw f (rw (k, same') (rw (a, n) refl))),
                          )
                          | inr n ↦
                              elim (Bool-cases (
                                is_insert_refused request
                                  (find_geofence request.property_id request.tenant_id d) d)) [
                                    | inl w ↦ inl (
                                      concurrent_submit,
                                      rw (e, same) (rw f (rw (k, same') (rw (a, n, w) refl))),
                                    )
                                    | inr w ↦ inr (
                                      request,
                                      reviewer,
                                      record {
                                        may_review = guards id user d request reviewer e f k a;
                                        property_live = n;
                                        not_refused = w;
                                      },
                                      rw (e, same) (rw f (rw (k, same') (rw (a, n, w) refl))),
                                    )
                                  ]
                        ]
                ]
              ]
        ]
      ]

  -- An approval that succeeds has passed every guard, and its property is live.
  pub approve_request_ok :
      (new_id : Uuid) (d d' : Db Float) (r : GeofenceChangeRequest Float)
      (g : PropertyGeofence Float)
      → run_request (approve_request write_fails item_id new_id now user id note) d
        ≡ (ok (r, g), d')
      → (request : GeofenceChangeRequest Float) × (reviewer : Uuid) × MayReview d user id request
          reviewer
        × (is_none (find_property request.property_id request.tenant_id d) ≡ false)
        × (is_insert_refused request (find_geofence request.property_id request.tenant_id d) d
            ≡ false)
        × (r ≡ closed_as approved reviewer now note request)
        × (g
            ≡ approved_geofence new_id request
                (find_geofence request.property_id request.tenant_id d))
        × (d'
            ≡ notify_requester write_fails item_id r true (
                close_inbox_item r (
                  save_request r (
                    write_geofence new_id request
                      (find_geofence request.property_id request.tenant_id d)
                      d))))
  approve_request_ok new_id d d' r g h = elim (approve_outcome new_id d) [
    | inl (y, e) ↦ absurd (err_not_ok (ap (λ x. x.0) (sym e ∙ h)))
    | inr (request, reviewer, may, e) ↦
        let run = sym e ∙ h in
        let same = ok_injective (ap (λ x. x.0) run) in
        let closed = ap (λ (p : GeofenceChangeRequest Float × PropertyGeofence Float). p.0) same in
        (
          request,
          reviewer,
          may.may_review,
          may.property_live,
          may.not_refused,
          sym closed,
          sym (ap (λ (p : GeofenceChangeRequest Float × PropertyGeofence Float). p.1) same),
          sym (ap (λ x. x.1) run)
              ∙ ap
                  (λ c. notify_requester write_fails item_id c true (
                    close_inbox_item c (
                      save_request c (
                        write_geofence new_id request
                          (find_geofence request.property_id request.tenant_id d) d))))
                  closed,
        )
  ]

  pub reject_request_ok :
      (d d' : Db Float) (r : GeofenceChangeRequest Float)
      → run_request (reject_request write_fails item_id now user id note) d ≡ (ok r, d')
      → (request : GeofenceChangeRequest Float) × (reviewer : Uuid) × MayReview d user id request
          reviewer
        × (r ≡ closed_as rejected reviewer now note request)
        × (d'
            ≡ notify_requester write_fails item_id r false (close_inbox_item r (save_request r d)))
  unfolding reject_request
  reject_request_ok d d' r h =
      let same = get_for_update_reads id user (begin d) in
      elim (Result-cases (get_for_update id user (begin d)).0) [
        | inl (x, e) ↦ ground arith
        | inr (request, e) ↦ elim (Option-cases (as_uuid user.user_id)) [
          | inl f ↦ ground arith
          | inr (reviewer, f) ↦
              let same' = ensure_reviewable_reads request reviewer (begin d) in
              elim (Result-cases (ensure_reviewable request reviewer (begin d)).0) [
                | inl (x, k) ↦ ground arith
                | inr (_, k) ↦ (
                  request,
                  reviewer,
                  guards id user d request reviewer e f k (ground arith),
                  ground arith,
                  ground arith,
                )
              ]
        ]
      ]

module _ {Float : Type 0} (now : Instant) (user : Token) (id : Uuid) where
  pub cancel_request_ok :
      (d d' : Db Float) (r : GeofenceChangeRequest Float)
      → run_request (cancel_request now user id) d ≡ (ok r, d')
      → (request : GeofenceChangeRequest Float) × (tenant_id requester : Uuid) × (find_request id
            tenant_id d
          ≡ some request)
        × (opt_eq request.requested_by (some requester) ≡ true)
        × (is_pending request.status ≡ true)
        × (r ≡ closed_as cancelled requester now none request)
        × (d' ≡ close_inbox_item r (save_request r d))
  unfolding cancel_request
  cancel_request_ok d d' r h =
      let same = get_for_update_reads id user (begin d) in
      elim (Result-cases (get_for_update id user (begin d)).0) [
        | inl (x, e) ↦ ground arith
        | inr (request, e) ↦ elim (Option-cases (as_uuid user.user_id)) [
          | inl f ↦ ground arith
          | inr (requester, f) ↦
              let (tenant_id, _, found, _) = get_for_update_lem id user (begin d) request e in
              (
                request,
                tenant_id,
                requester,
                found,
                ground arith,
                ground arith,
                ground arith,
                ground arith,
              )
        ]
      ]
