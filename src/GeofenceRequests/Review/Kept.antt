-- ===== src/GeofenceRequests/Review/Kept.antt =====
-- What leaves the live geofences, or the whole database, as it was.
use ski_tech_backend.Base.{
  Bool, inl, inr, Option, ◌≡◌, refl, sym, ap, ◌∙◌, ◌⊎◌, arith, Option-cases, String, List, [], ◌∷◌,
}
use ski_tech_backend.Runtime.{Runtime, Uuid, Instant}
use ski_tech_backend.Session.{Action, Error, ok, err, err_not_ok, begin, run_request, Result-cases}
use ski_tech_backend.Models.{GeofenceChangeRequest, PropertyGeofence, Token, Db}
use ski_tech_backend.Scope.{as_uuid, property_in_scope, caller_tenant}
use ski_tech_backend.Scope.Laws.{property_in_scope_reads}
use ski_tech_backend.GeofenceRequests.Submit.{
  close_inbox_item, close_inbox_items, cancel_pending, pending_for, commit_request, add_request,
  add_inbox_item, ProposalData, create_request, submit_request,
}
use ski_tech_backend.GeofenceRequests.Review.{
  get_for_update, ensure_reviewable, save_request, notify_requester, approve_request,
  reject_request, cancel_request,
}
use ski_tech_backend.GeofenceRequests.Review.Guards.{
  get_for_update_reads, ensure_reviewable_reads, approve_outcome,
}

module _ {Float : Type 0} where
  -- The live geofences that a request leaves.
  abbrev pub geofences_after :
      {A : Type 0} → Action (Db Float) A → Db Float → List (PropertyGeofence Float)
  geofences_after m d = (run_request m d).1.property_geofences

  geofences-close_inbox_items :
      (rs : List (GeofenceChangeRequest Float)) (d : Db Float)
      → (close_inbox_items rs d).property_geofences ≡ d.property_geofences
  unfolding close_inbox_items close_inbox_item
  geofences-close_inbox_items [] d = refl
  geofences-close_inbox_items (r ∷ rs) d = geofences-close_inbox_items rs _

  geofences-cancel_pending :
      (rs : List (GeofenceChangeRequest Float)) (requester : Uuid) (now : Instant) (d : Db Float)
      → (cancel_pending rs requester now d).property_geofences ≡ d.property_geofences
  unfolding cancel_pending
  geofences-cancel_pending rs requester now d = geofences-close_inbox_items rs _

  submit_keeps :
      (rt : Runtime Float) (new_id item_id : Uuid) (now : Instant)
      (tenant_id property_id requester : Uuid) (data_in : ProposalData Float)
      (rivals : List (GeofenceChangeRequest Float)) (d : Db Float)
      → geofences_after
          (submit_request rt new_id item_id now tenant_id property_id requester data_in rivals)
          d
        ≡ d.property_geofences
  unfolding submit_request commit_request add_request add_inbox_item
  submit_keeps rt new_id item_id now tenant_id property_id requester data_in rivals d =
      let same = geofences-cancel_pending (pending_for tenant_id property_id d) requester now d in
      ground (arith, same)

  create_keeps :
      (rt : Runtime Float) (new_id item_id : Uuid) (now : Instant) (user : Token)
      (data_in : ProposalData Float) (rivals : List (GeofenceChangeRequest Float)) (d : Db Float)
      → geofences_after (create_request rt new_id item_id now user data_in rivals) d
        ≡ d.property_geofences
  unfolding create_request
  create_keeps rt new_id item_id now user data_in rivals d =
      let same = property_in_scope_reads data_in.property_id user (begin d) in
      elim (Result-cases (property_in_scope data_in.property_id user (begin d)).0) [
        | inl (x, e) ↦ ground arith
        | inr (property_id, e) ↦ elim (Option-cases (caller_tenant user)) [
          | inl f ↦ ground arith
          | inr (tenant_id, f) ↦ elim (Option-cases (as_uuid user.user_id)) [
            | inl g ↦ ground arith
            | inr (requester, g) ↦
                let kept =
                  submit_keeps rt new_id item_id now tenant_id property_id requester data_in rivals
                    d in
                ground (arith, kept)
          ]
        ]
      ]

  reject_keeps :
      (write_fails : Bool) (item_id : Uuid) (now : Instant) (user : Token) (id : Uuid)
      (remark : Option String) (d : Db Float)
      → geofences_after (reject_request write_fails item_id now user id remark) d
        ≡ d.property_geofences
  unfolding reject_request save_request close_inbox_item notify_requester
  reject_keeps write_fails item_id now user id remark d =
      let same = get_for_update_reads id user (begin d) in
      elim (Result-cases (get_for_update id user (begin d)).0) [
        | inl (x, e) ↦ ground arith
        | inr (request, e) ↦ elim (Option-cases (as_uuid user.user_id)) [
          | inl f ↦ ground arith
          | inr (reviewer, f) ↦
              let same' = ensure_reviewable_reads request reviewer (begin d) in
              elim (Result-cases (ensure_reviewable request reviewer (begin d)).0) [
                | inl (x, k) ↦ ground arith
                | inr (_, k) ↦ ground arith
              ]
        ]
      ]

  cancel_keeps :
      (now : Instant) (user : Token) (id : Uuid) (d : Db Float)
      → geofences_after (cancel_request now user id) d ≡ d.property_geofences
  unfolding cancel_request save_request close_inbox_item
  cancel_keeps now user id d =
      let same = get_for_update_reads id user (begin d) in
      elim (Result-cases (get_for_update id user (begin d)).0) [
        | inl (x, e) ↦ ground arith
        | inr (request, e) ↦ elim (Option-cases (as_uuid user.user_id)) [
          | inl f ↦ ground arith
          | inr (reviewer, f) ↦
              let same' = ensure_reviewable_reads request reviewer (begin d) in
              elim (Result-cases (ensure_reviewable request reviewer (begin d)).0) [
                | inl (x, k) ↦ ground arith
                | inr (_, k) ↦ ground arith
              ]
        ]
      ]

  -- Proposing, rejecting and cancelling leave every live geofence as it is, whether they succeed or
  -- fail.
  pub unapproved_leaves_geofences :
      (rt : Runtime Float) (write_fails : Bool) (new_id item_id : Uuid) (now : Instant)
      (user : Token) (id : Uuid) (remark : Option String) (data_in : ProposalData Float)
      (rivals : List (GeofenceChangeRequest Float)) (d : Db Float)
      → (geofences_after (create_request rt new_id item_id now user data_in rivals) d
          ≡ d.property_geofences)
        × (geofences_after (reject_request write_fails item_id now user id remark) d
            ≡ d.property_geofences)
        × (geofences_after (cancel_request now user id) d ≡ d.property_geofences)
  unapproved_leaves_geofences rt write_fails new_id item_id now user id remark data_in rivals d = (
    create_keeps rt new_id item_id now user data_in rivals d,
    reject_keeps write_fails item_id now user id remark d,
    cancel_keeps now user id d,
  )

  approve_failed :
      (write_fails : Bool) (item_id new_id : Uuid) (now : Instant) (user : Token) (id : Uuid)
      (remark : Option String) (d d' : Db Float) (y : Error)
      → run_request (approve_request write_fails item_id new_id now user id remark) d ≡ (err y, d')
      → d' ≡ d
  approve_failed write_fails item_id new_id now user id remark d d' y h =
      elim (approve_outcome write_fails item_id now user id remark new_id d) [
        | inl (x, e) ↦ ap (λ z. z.1) (sym h ∙ e)
        | inr (request, reviewer, may, e) ↦ absurd (err_not_ok (ap (λ z. z.0) (sym h ∙ e)))
      ]

  reject_failed :
      (write_fails : Bool) (item_id : Uuid) (now : Instant) (user : Token) (id : Uuid)
      (remark : Option String) (d d' : Db Float) (y : Error)
      → run_request (reject_request write_fails item_id now user id remark) d ≡ (err y, d')
      → d' ≡ d
  unfolding reject_request
  reject_failed write_fails item_id now user id remark d d' y h =
      let same = get_for_update_reads id user (begin d) in
      elim (Result-cases (get_for_update id user (begin d)).0) [
        | inl (x, e) ↦ ground arith
        | inr (request, e) ↦ elim (Option-cases (as_uuid user.user_id)) [
          | inl f ↦ ground arith
          | inr (reviewer, f) ↦
              let same' = ensure_reviewable_reads request reviewer (begin d) in
              elim (Result-cases (ensure_reviewable request reviewer (begin d)).0) [
                | inl (x, k) ↦ ground arith
                | inr (_, k) ↦ ground arith
              ]
        ]
      ]

  cancel_failed :
      (now : Instant) (user : Token) (id : Uuid) (d d' : Db Float) (y : Error)
      → run_request (cancel_request now user id) d ≡ (err y, d')
      → d' ≡ d
  unfolding cancel_request
  cancel_failed now user id d d' y h =
      let same = get_for_update_reads id user (begin d) in
      elim (Result-cases (get_for_update id user (begin d)).0) [
        | inl (x, e) ↦ ground arith
        | inr (request, e) ↦ elim (Option-cases (as_uuid user.user_id)) [
          | inl f ↦ ground arith
          | inr (reviewer, f) ↦
              let same' = ensure_reviewable_reads request reviewer (begin d) in
              elim (Result-cases (ensure_reviewable request reviewer (begin d)).0) [
                | inl (x, k) ↦ ground arith
                | inr (_, k) ↦ ground arith
              ]
        ]
      ]

  -- A request that succeeds, or leaves the database as it was.
  abbrev pub SucceedsOrKeeps : {A : Type 0} → Action (Db Float) A → Db Float → Type 0
  SucceedsOrKeeps {A} m d = ((r : A) × ((run_request m d).0 ≡ ok r)) ⊎ ((run_request m d).1 ≡ d)

  succeeds_or_keeps :
      {A : Type 0} (m : Action (Db Float) A) (d : Db Float)
      → ((d' : Db Float) (x : Error) → run_request m d ≡ (err x, d') → d' ≡ d)
      → SucceedsOrKeeps m d
  succeeds_or_keeps m d kept = elim (Result-cases (run_request m d).0) [
    | inl (x, e) ↦ inr (kept (run_request m d).1 x (ap (λ y. (y, (run_request m d).1)) e))
    | inr (r, e) ↦ inl (r, e)
  ]

  -- An approval, a rejection and a cancellation each succeed or leave the database as it was.
  pub failed_review_changes_nothing :
      (write_fails : Bool) (item_id new_id : Uuid) (now : Instant) (user : Token) (id : Uuid)
      (remark : Option String) (d : Db Float)
      → SucceedsOrKeeps (approve_request write_fails item_id new_id now user id remark) d
        × SucceedsOrKeeps (reject_request write_fails item_id now user id remark) d
        × SucceedsOrKeeps (cancel_request now user id) d
  failed_review_changes_nothing write_fails item_id new_id now user id remark d = (
    succeeds_or_keeps (approve_request write_fails item_id new_id now user id remark) d
        (approve_failed write_fails item_id new_id now user id remark d),
    succeeds_or_keeps (reject_request write_fails item_id now user id remark) d
        (reject_failed write_fails item_id now user id remark d),
    succeeds_or_keeps (cancel_request now user id) d (cancel_failed now user id d),
  )
