-- ===== src/GeofenceRequests/Submit/Single.antt =====
-- One pending request for a property of a tenant: a submission replaces what was pending.
use ski_tech_backend.Base.{
  true, false, some, inl, inr, List, [], ◌∷◌, ◌++◌, map, ◌≡◌, refl, arith, ==_refl, any, select,
  select-append, update_listed, All-listed, select-update_listed_none, append_assoc, Option-cases,
}
use ski_tech_backend.Runtime.{Runtime, Uuid, Instant}
use ski_tech_backend.Session.{ok, begin, run_request, Result-cases}
use ski_tech_backend.Models.{is_pending, GeofenceChangeRequest, Property, Token, Db}
use ski_tech_backend.Scope.{as_uuid, caller_tenant, property_in_scope, find_property}
use ski_tech_backend.Scope.Laws.{IsWithin, property_in_scope_reads, property_in_scope_ok}
use ski_tech_backend.GeofenceRequests.Submit.{
  ProposalData, request_id, is_pending_for, is_pending_at, replaced, has_two_pending,
  close_inbox_items, close_inbox_item, pending_for, cancel_pending, add_request, add_inbox_item,
  commit_request, new_request, submit_request, create_request,
}

module _ {Float : Type 0} where
  pending_of_index :
      (tenant_id property_id : Uuid) (xs : List (GeofenceChangeRequest Float))
      → any (is_pending_at property_id) xs ≡ false
      → select (is_pending_for tenant_id property_id) xs ≡ []
  pending_of_index tenant_id property_id [] h = refl
  pending_of_index tenant_id property_id (x ∷ xs) h =
      ground (arith, pending_of_index tenant_id property_id xs)

  has_two_pending_after :
      (xs : List (GeofenceChangeRequest Float)) (r : GeofenceChangeRequest Float)
      (ys : List (GeofenceChangeRequest Float))
      → is_pending r.status ≡ true
      → has_two_pending (xs ++ r ∷ ys) ≡ false
      → any (is_pending_at r.property_id) ys ≡ false
  unfolding has_two_pending
  has_two_pending_after [] r ys p h = ground arith
  has_two_pending_after (x ∷ xs) r ys p h = ground (arith, has_two_pending_after xs r ys p)

  requests-close_inbox_items :
      (rs : List (GeofenceChangeRequest Float)) (d : Db Float)
      → (close_inbox_items rs d).geofence_change_requests ≡ d.geofence_change_requests
  unfolding close_inbox_items close_inbox_item
  requests-close_inbox_items [] d = refl
  requests-close_inbox_items (r ∷ rs) d = requests-close_inbox_items rs _

  -- The requests after the pending ones of a property were replaced.
  abbrev after_cancel : Uuid → Uuid → Uuid → Instant → Db Float → List (GeofenceChangeRequest Float)
  after_cancel tenant_id property_id requester now d =
      update_listed request_id (map request_id (pending_for tenant_id property_id d))
        (replaced requester now) d.geofence_change_requests

  abbrev requests_in : Db Float → List (GeofenceChangeRequest Float)
  requests_in d = d.geofence_change_requests

  requests-cancel_pending :
      (tenant_id property_id requester : Uuid) (now : Instant) (d : Db Float)
      → requests_in (cancel_pending (pending_for tenant_id property_id d) requester now d)
        ≡ after_cancel tenant_id property_id requester now d
  unfolding cancel_pending
  requests-cancel_pending tenant_id property_id requester now d =
      requests-close_inbox_items (pending_for tenant_id property_id d) _

  after_cancel_none :
      (tenant_id property_id requester : Uuid) (now : Instant) (d : Db Float)
      → select
          (is_pending_for tenant_id property_id)
          (after_cancel tenant_id property_id requester now d)
        ≡ []
  unfolding pending_for
  after_cancel_none tenant_id property_id requester now d =
      select-update_listed_none request_id (is_pending_for tenant_id property_id) _
        (replaced requester now) d.geofence_change_requests (λ r. ground arith)
        (All-listed request_id (is_pending_for tenant_id property_id) _ d.geofence_change_requests
          (λ a m. m))

module _ {Float : Type 0} (rt : Runtime Float) (new_id item_id : Uuid) (now : Instant)
    (data_in : ProposalData Float) (rivals : List (GeofenceChangeRequest Float)) where
  module _ (tenant_id property_id requester : Uuid) where
    abbrev request_of : GeofenceChangeRequest Float
    request_of = new_request new_id now tenant_id property_id requester data_in

    abbrev requests_after : Db Float → List (GeofenceChangeRequest Float)
    requests_after d = after_cancel tenant_id property_id requester now d ++ request_of ∷ []

    submit_request_lem :
        (d d' : Db Float) (r : GeofenceChangeRequest Float)
        → run_request
            (submit_request rt new_id item_id now tenant_id property_id requester data_in rivals)
            d
          ≡ (ok r, d')
        → (r ≡ request_of)
          × (has_two_pending (requests_after d ++ rivals) ≡ false)
          × (d'.geofence_change_requests ≡ requests_after d ++ rivals)
    unfolding submit_request commit_request add_request add_inbox_item
    submit_request_lem d d' r h =
        let same = requests-cancel_pending tenant_id property_id requester now d in
        (ground (arith, same), ground (arith, same), ground (arith, same))

    submit_request_single :
        (d d' : Db Float) (r : GeofenceChangeRequest Float)
        → run_request
            (submit_request rt new_id item_id now tenant_id property_id requester data_in rivals)
            d
          ≡ (ok r, d')
        → pending_for tenant_id property_id d' ≡ r ∷ []
    unfolding pending_for
    submit_request_single d d' r h =
        let (p, free, q) = submit_request_lem d d' r h in
        let none_left = after_cancel_none tenant_id property_id requester now d in
        let rivals_none = pending_of_index tenant_id property_id rivals (
          unfold new_request in
          has_two_pending_after (after_cancel tenant_id property_id requester now d) request_of
            rivals refl (rw append_assoc at free)) in
        rw q (
          rw select-append (
            rw select-append (
              rw (none_left, rivals_none, p)
                (unfold new_request in ground (arith, ==_refl property_id, ==_refl tenant_id)))))

  -- After a proposal that succeeds, whatever others have committed meanwhile, it is the only
  -- pending request of its tenant for its property. It is the caller's own, proposes the centre and
  -- radius that were given, and its property is a live one of the caller's tenant that the caller
  -- may work with.
  pub create_request_single :
      (user : Token) (d d' : Db Float) (r : GeofenceChangeRequest Float)
      → run_request (create_request rt new_id item_id now user data_in rivals) d ≡ (ok r, d')
      → (pending_for r.tenant_id r.property_id d' ≡ r ∷ [])
        × (r.requested_by ≡ as_uuid user.user_id)
        × (r.center_lat ≡ data_in.center_lat)
        × (r.center_lng ≡ data_in.center_lng)
        × (r.radius_meters ≡ data_in.radius_meters)
        × (some r.tenant_id ≡ caller_tenant user)
        × (r.property_id ≡ data_in.property_id)
        × (p : Property) × (find_property r.property_id r.tenant_id d ≡ some p)
        × (p.is_deleted ≡ false)
        × IsWithin user r.property_id
  unfolding create_request new_request
  create_request_single user d d' r h =
      let same = property_in_scope_reads data_in.property_id user (begin d) in
      elim (Result-cases (property_in_scope data_in.property_id user (begin d)).0) [
        | inl (x, e) ↦ ground arith
        | inr (property_id, e) ↦ elim (Option-cases (caller_tenant user)) [
          | inl f ↦ ground arith
          | inr (tenant_id, f) ↦ elim (Option-cases (as_uuid user.user_id)) [
            | inl g ↦ ground arith
            | inr (requester, g) ↦
                let (q, p, t, found, _, _, live, tenant, limit) =
                  property_in_scope_ok data_in.property_id property_id user (begin d) e in
                let run : run_request
                      (submit_request rt new_id item_id now tenant_id property_id requester data_in
                        rivals)
                      d
                    ≡ (ok r, d') =
                  ground arith in
                let (is_new, _, _) =
                  submit_request_lem tenant_id property_id requester d d' r run in
                let single = submit_request_single tenant_id property_id requester d d' r run in
                let same_tenant : t ≡ tenant_id = cc in
                let at_tenant : r.tenant_id ≡ tenant_id = rw is_new refl in
                let at_property : r.property_id ≡ property_id = rw is_new refl in
                (
                  simp (at_tenant, at_property) single,
                  rw (is_new, g) refl,
                  rw is_new refl,
                  rw is_new refl,
                  rw is_new refl,
                  rw (at_tenant, f) refl,
                  rw at_property q,
                  p,
                  rw (at_tenant, at_property, q, ← same_tenant) found,
                  live,
                  rw at_property limit,
                )
          ]
        ]
      ]
