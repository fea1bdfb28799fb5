-- ===== src/Complaints/Isolation.antt =====
-- Complaints that the caller's tenant does not have, and callers who may not manage them.
use ski_tech_backend.Base.{
  ℕ, ◌≡◌, refl, arith, Bool, false, Option, none, List, [], ◌∷◌, any, select, first, String,
}
use ski_tech_backend.Runtime.{Uuid}
use ski_tech_backend.Session.{Session, ok, err, not_authorized}
use ski_tech_backend.Models.{Db}
use ski_tech_backend.Complaints.{
  as_staff, ComplaintService, ComplaintUpdate, ComplaintResolve, ComplaintCommentCreate, is_live,
  find_complaint, get_complaint, update_complaint, resolve_complaint, add_comment,
}
use ski_tech_backend.Complaints.Workflow.{
  ComplaintAssignmentCreate, escalate_complaint, assign_complaint,
}
use ski_tech_backend.Complaints.Endpoints.{
  BulkActionRequest, resolve_endpoint, assign_endpoint, reassign_endpoint, bulk_action,
}

first_of_none :
    {A : Type 0} (p : A → Bool) (xs : List A) → any p xs ≡ false → first (select p xs) ≡ none
first_of_none p [] h = refl
first_of_none p (x ∷ xs) h = ground (arith, first_of_none p xs)

module _ {Float : Type 0} where
  -- The tenant has no such complaint that is not deleted.
  abbrev pub IsUnknown : Uuid → Uuid → Db Float → Type 0
  IsUnknown id tenant_id d = any (is_live id tenant_id) d.complaint_log.complaints ≡ false

  find_unknown :
      (id tenant_id : Uuid) (d : Db Float)
      → IsUnknown id tenant_id d
      → find_complaint id tenant_id d ≡ none
  unfolding find_complaint
  find_unknown id tenant_id d h = first_of_none (is_live id tenant_id) d.complaint_log.complaints h

  module _ (service : ComplaintService) (id : Uuid) (s : Session (Db Float))
      (unknown : IsUnknown id service.tenant_id s.work) where
    -- A complaint that the caller's tenant does not have, or that is deleted, is answered with None
    -- by reading, updating, resolving, escalating and assigning it and by adding a comment to it,
    -- and the session stays as it is.
    pub complaint_operations_unknown :
        (new_id comment_id item_id : Uuid) (now : ℕ) (show_uuid : Uuid → String) (reason : String)
        (update : ComplaintUpdate) (resolution : ComplaintResolve)
        (assignment : ComplaintAssignmentCreate) (comment : ComplaintCommentCreate)
        → (get_complaint service id s ≡ (ok none, s))
          × (update_complaint service id update s ≡ (ok none, s))
          × (resolve_complaint now service id resolution s ≡ (ok none, s))
          × (escalate_complaint comment_id item_id now service id reason s ≡ (ok none, s))
          × (assign_complaint show_uuid new_id comment_id now service id assignment s
              ≡ (ok none, s))
          × (add_comment comment_id now service id comment s ≡ (ok none, s))
    unfolding get_complaint update_complaint resolve_complaint escalate_complaint assign_complaint
        add_comment
    complaint_operations_unknown new_id comment_id item_id now show_uuid reason update resolution
          assignment comment =
        let e = find_unknown id service.tenant_id s.work unknown in
        rw e (refl, refl, refl, refl, refl, refl)

  -- A caller whose role counts as staff may not resolve, assign, reassign or act in bulk: each of
  -- these answers 403 and leaves the session as it is.
  pub endpoints_staff :
      (service : ComplaintService) (id new_id comment_id user_id : Uuid) (now : ℕ)
      (show_uuid : Uuid → String) (resolution : ComplaintResolve)
      (assignment : ComplaintAssignmentCreate) (new_ids : Uuid → Uuid × Uuid × Uuid)
      (notes : Option String) (request : BulkActionRequest) (s : Session (Db Float))
      → service.user_role ≡ as_staff
      → (resolve_endpoint now service id resolution s ≡ (err not_authorized, s))
        × (assign_endpoint show_uuid new_id comment_id now service id assignment s
            ≡ (err not_authorized, s))
        × (reassign_endpoint show_uuid new_id comment_id now service id user_id notes s
            ≡ (err not_authorized, s))
        × (bulk_action show_uuid new_ids now service request s ≡ (err not_authorized, s))
  unfolding resolve_endpoint assign_endpoint reassign_endpoint bulk_action
  endpoints_staff service id new_id comment_id user_id now show_uuid resolution assignment new_ids
        notes request s e =
      rw e (refl, refl, refl, refl)
