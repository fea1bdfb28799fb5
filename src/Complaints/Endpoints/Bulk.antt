-- ===== src/Complaints/Endpoints/Bulk.antt =====
-- What the bulk actions on complaints count, and the action "close".
use ski_tech_backend.Base.{
  ℕ, suc, ◌+◌, ◌≤◌, ◌≡◌, refl, arith, true, false, ◌==◌, ltb, inl, inr, List, [], ◌∷◌, length, none,
  Option, Option-cases, String,
}
use ski_tech_backend.Runtime.{Uuid}
use ski_tech_backend.Session.{Session, Action, Result, ok, err}
use ski_tech_backend.Models.{Db}
use ski_tech_backend.Models.Complaints.{Complaint}
use ski_tech_backend.Complaints.{ComplaintService}
use ski_tech_backend.Complaints.Endpoints.{
  BulkActionRequest, BulkResult, may_manage, count_result, act_on, act_on_all, bulk_action,
}

module _ {Float : Type 0} where
  count_result_adds :
      (r : Result (Option Complaint)) (left : ℕ) (later : (ℕ × ℕ) × Session (Db Float))
      (s : Session (Db Float))
      → later.0.0 + later.0.1 ≡ left
      → (count_result r left later s).0.0 + (count_result r left later s).0.1 ≡ suc left
  unfolding count_result
  count_result_adds (ok a) left later s h = omega (arith, h)
  count_result_adds (err e) left later s h = ground (arith, h)

  counts_add_up :
      (act : Uuid → Action (Db Float) (Option Complaint)) (ids : List Uuid) (s : Session (Db Float))
      → (act_on_all act ids s).0.0 + (act_on_all act ids s).0.1 ≡ length ids
  unfolding act_on_all
  counts_add_up act [] s = omega arith
  counts_add_up act (id ∷ ids) s =
      count_result_adds (act id s).0 (length ids) (act_on_all act ids (act id s).1) (act id s).1
        (counts_add_up act ids (act id s).1)

  -- A bulk action that is answered counts each complaint it was given once, as processed or as
  -- failed, and was given 1 to 100 of them.
  pub bulk_action_counts :
      (show_uuid : Uuid → String) (new_ids : Uuid → Uuid × Uuid × Uuid) (now : ℕ)
      (service : ComplaintService) (request : BulkActionRequest) (s s' : Session (Db Float))
      (r : BulkResult)
      → bulk_action show_uuid new_ids now service request s ≡ (ok r, s')
      → (r.processed + r.failed ≡ r.total)
        × (r.total ≡ length request.complaint_ids)
        × (1 ≤ r.total)
        × (r.total ≤ 100)
  unfolding bulk_action
  bulk_action_counts show_uuid new_ids now service request s s' r run =
      let sum =
        counts_add_up (act_on show_uuid new_ids now service request) request.complaint_ids s in
      ground (arith, sum)

  skips_all :
      (act : Uuid → Action (Db Float) (Option Complaint)) (ids : List Uuid) (s : Session (Db Float))
      → ((id : Uuid) → act id s ≡ (ok none, s))
      → act_on_all act ids s ≡ ((length ids, 0), s)
  unfolding act_on_all count_result
  skips_all act [] s h = refl
  skips_all act (id ∷ ids) s h = rw (h id, skips_all act ids s h) refl

  closes :
      (show_uuid : Uuid → String) (new_ids : Uuid → Uuid × Uuid × Uuid) (now : ℕ)
      (service : ComplaintService) (request : BulkActionRequest) (s : Session (Db Float))
      → request.action ≡ "close"
      → (id : Uuid) → act_on show_uuid new_ids now service request id s ≡ (ok none, s)
  unfolding act_on
  closes show_uuid new_ids now service request s e id = elim (Option-cases request.assigned_to) [
    | inl a ↦ elim (Option-cases request.status) [
      | inl t ↦ rw (a, t, e) refl
      | inr (t', t) ↦ rw (a, t, e) refl
    ]
    | inr (u, a) ↦ elim (Option-cases request.status) [
      | inl t ↦ rw (a, t, e) refl
      | inr (t', t) ↦ rw (a, t, e) refl
    ]
  ]

  -- For 1 to 100 complaints and a caller who may act in bulk, the action "close", which the endpoint
  -- documents, counts every complaint as processed and changes nothing.
  pub bulk_action_close :
      (show_uuid : Uuid → String) (new_ids : Uuid → Uuid × Uuid × Uuid) (now : ℕ)
      (service : ComplaintService) (request : BulkActionRequest) (s : Session (Db Float))
      → may_manage service.user_role ≡ true
      → request.action ≡ "close"
      → 1 ≤ length request.complaint_ids
      → length request.complaint_ids ≤ 100
      → bulk_action show_uuid new_ids now service request s ≡ (
        ok (record {
          total = length request.complaint_ids;
          processed = length request.complaint_ids;
          failed = 0;
          action = "close";
        }),
        s,
      )
  unfolding bulk_action act_on
  bulk_action_close show_uuid new_ids now service request s may e lo hi =
      let all =
        skips_all (act_on show_uuid new_ids now service request) request.complaint_ids s
          (closes show_uuid new_ids now service request s e) in
      let some_given : (length request.complaint_ids == 0) ≡ false = ground (arith, lo) in
      let not_many : ltb 100 (length request.complaint_ids) ≡ false = ground (arith, hi) in
      rw (may, some_given, not_many, all, e) refl
