-- ===== src/Complaints/Endpoints.antt =====
-- app/api/v1/endpoints/complaints.py: who may do what, and the bulk actions.
pub mod Bulk
use ski_tech_backend.Base.{
  ℕ, zero, suc, ◌+◌, Bool, true, false, not, ◌&&◌, ◌||◌, Option, none, some, List, [], ◌∷◌, String,
  str_eq, ◌==◌, ltb, if◌then◌else◌, get_or, length, truthy,
}
use ski_tech_backend.Runtime.{Uuid}
use ski_tech_backend.Text.{text_length}
use ski_tech_backend.Session.{
  Action, Result, ok, err, Error, integrity_error, data_error, Session, complaint_not_found,
  not_authorized, no_complaints, too_many_complaints, value_error, text_length_out_of_range, pure,
  raise_if, or_raise, ◌>>=◌, ◌>>◌,
}
use ski_tech_backend.Models.{
  RoleName, super_admin, tenant_admin, co_admin, manager, staff, other_role, User, Db,
}
use ski_tech_backend.Models.Complaints.{ComplaintStatus, Complaint}
use ski_tech_backend.Complaints.{
  ComplaintRole, as_owner, as_manager, as_staff, ComplaintService, ComplaintResolve,
  resolve_complaint,
}
use ski_tech_backend.Complaints.Workflow.{
  ComplaintAssignmentCreate, assignment_data, assign_complaint, reassign_complaint,
  escalate_complaint,
}

-- `COMPLAINT_ROLE_BY_NAME`, with "staff" for every other name.
abbrev pub complaint_role_by_name : RoleName → ComplaintRole
complaint_role_by_name super_admin = as_owner
complaint_role_by_name tenant_admin = as_owner
complaint_role_by_name co_admin = as_owner
complaint_role_by_name manager = as_manager
complaint_role_by_name staff = as_staff
complaint_role_by_name (other_role _) = as_staff

unfoldable pub get_complaint_service : User → ComplaintService
get_complaint_service current_user = record {
  tenant_id = current_user.tenant_id;
  property_id = current_user.property_id;
  user_id = current_user.id;
  user_role = complaint_role_by_name current_user.role_name;
}

-- `service.user_role in ["manager", "owner"]`
abbrev pub may_manage : ComplaintRole → Bool
may_manage as_owner = true
may_manage as_manager = true
may_manage as_staff = false

-- `BulkActionRequest`
pub record BulkActionRequest : Type 0 where
  pub complaint_ids : List Uuid
  pub action : String
  pub assigned_to : Option Uuid
  pub status : Option ComplaintStatus
  pub notes : Option String

pub record BulkResult : Type 0 where
  pub total : ℕ
  pub processed : ℕ
  pub failed : ℕ
  pub action : String

unfoldable pub resolve_data : {D : Type 0} → ComplaintStatus → String → Action D ComplaintResolve
unfolding text_length
resolve_data status notes = do
  raise_if (ltb (text_length notes) 10 || ltb 2000 (text_length notes))
      (value_error text_length_out_of_range)
  pure (record { status = status; resolution_notes = notes })

abbrev pub notes_or : Option String → String → String
notes_or notes default = if truthy notes then get_or notes default else default

abbrev pub assign_with {ℓ} : {A : Type ℓ} → String → Option Uuid → (Uuid → A) → A → A
assign_with action none f rest = rest
assign_with action (some u) f rest = if str_eq action "assign" then f u else rest

abbrev pub resolve_with {ℓ} :
    {A : Type ℓ} → String → Option ComplaintStatus → (ComplaintStatus → A) → A → A
resolve_with action none f rest = rest
resolve_with action (some t) f rest = if str_eq action "resolve" then f t else rest

abbrev pub is_database_error : Error → Bool
is_database_error integrity_error = true
is_database_error data_error = true
is_database_error _ = false

module _ {Float : Type 0} where
  -- A complaint that the service does not find is the answer 404.
  abbrev pub or_missing : Action (Db Float) (Option Complaint) → Action (Db Float) Complaint
  or_missing m = do found ← m; or_raise found complaint_not_found

  unfoldable pub resolve_endpoint :
      ℕ → ComplaintService → Uuid → ComplaintResolve → Action (Db Float) Complaint
  resolve_endpoint now service id data_in = do
    raise_if (not (may_manage service.user_role)) not_authorized
    or_missing (resolve_complaint now service id data_in)

  unfoldable pub assign_endpoint :
      (Uuid → String)
      → Uuid
      → Uuid
      → ℕ
      → ComplaintService
      → Uuid
      → ComplaintAssignmentCreate
      → Action (Db Float) Complaint
  assign_endpoint show_uuid new_id comment_id now service id data_in = do
    raise_if (not (may_manage service.user_role)) not_authorized
    or_missing (assign_complaint show_uuid new_id comment_id now service id data_in)

  unfoldable pub reassign_endpoint :
      (Uuid → String)
      → Uuid
      → Uuid
      → ℕ
      → ComplaintService
      → Uuid
      → Uuid
      → Option String
      → Action (Db Float) Complaint
  reassign_endpoint show_uuid new_id comment_id now service id new_assigned_to notes = do
    raise_if (not (may_manage service.user_role)) not_authorized
    or_missing (reassign_complaint show_uuid new_id comment_id now service id new_assigned_to notes)

  -- What a bulk action does to one complaint; `new_id` gives the ids of the rows that are added
  -- for a complaint: of the assignment, the comment and the inbox item.
  unfoldable pub act_on :
      (Uuid → String)
      → (Uuid → Uuid × Uuid × Uuid)
      → ℕ
      → ComplaintService
      → BulkActionRequest
      → Uuid
      → Action (Db Float) (Option Complaint)
  act_on show_uuid new_ids now service request id =
      assign_with request.action request.assigned_to
        (λ u. do
          data_in ← assignment_data u request.notes
          assign_complaint show_uuid (new_ids id).0 (new_ids id).1 now service id data_in)
        (resolve_with request.action request.status
          (λ t. do
            data_in ← resolve_data t (notes_or request.notes "Bulk action")
            resolve_complaint now service id data_in)
          (if str_eq request.action "escalate"
            then escalate_complaint (new_ids id).1 (new_ids id).2 now service id
                (notes_or request.notes "Bulk escalation")
            else pure none))

  -- The counts with one more result. After an error of the database the session refuses every
  -- further use, so that the complaints that are left fail.
  unfoldable pub count_result :
      Result (Option Complaint)
      → ℕ
      → (ℕ × ℕ) × Session (Db Float)
      → Session (Db Float)
      → (ℕ × ℕ) × Session (Db Float)
  count_result (ok _) left ((processed, failed), s'') s' = ((suc processed, failed), s'')
  count_result (err e) left ((processed, failed), s'') s' =
      if is_database_error e then ((0, suc left), s') else ((processed, suc failed), s'')

  -- The loop, by what is done to one complaint: how many were processed and how many failed.
  unfoldable pub act_on_all :
      (Uuid → Action (Db Float) (Option Complaint))
      → List Uuid
      → Session (Db Float)
      → (ℕ × ℕ) × Session (Db Float)
  unfolding count_result
  act_on_all act [] s = ((0, 0), s)
  act_on_all act (id ∷ ids) s =
      count_result (act id s).0 (length ids) (act_on_all act ids (act id s).1) (act id s).1

  unfoldable pub bulk_action :
      (Uuid → String)
      → (Uuid → Uuid × Uuid × Uuid)
      → ℕ
      → ComplaintService
      → BulkActionRequest
      → Action (Db Float) BulkResult
  unfolding act_on act_on_all
  bulk_action show_uuid new_ids now service request = do
    raise_if (not (may_manage service.user_role)) not_authorized
    raise_if (length request.complaint_ids == 0) no_complaints
    raise_if (ltb 100 (length request.complaint_ids)) too_many_complaints
    counts ← (λ s.
        let (counts, s') =
          act_on_all (act_on show_uuid new_ids now service request) request.complaint_ids s in
        (ok counts, s'))
    pure (record {
      total = length request.complaint_ids;
      processed = counts.0;
      failed = counts.1;
      action = request.action;
    })
