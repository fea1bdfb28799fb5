-- ===== src/Complaints/Workflow.antt =====
-- app/services/complaint_service.py: escalation and the assignment of complaints.
pub mod Stored
pub mod History
use ski_tech_backend.Base.{
  ℕ, Bool, true, false, not, ◌&&◌, ◌||◌, Option, none, some, List, [], ◌∷◌, ◌++◌, String, ◌==◌, ltb,
  if◌then◌else◌, get_or, any, is_some, select, first, update_row, truthy,
}
use ski_tech_backend.Runtime.{Uuid}
use ski_tech_backend.Text.{joined, text_length}
use ski_tech_backend.Session.{
  Action, integrity_error, data_error, multiple_results_found, value_error,
  text_length_out_of_range, pure, raise_if, rollback_if, gets, modify, commit, ◌>>=◌, ◌>>◌,
}
use ski_tech_backend.Models.{InboxItem, User, Db}
use ski_tech_backend.Models.Complaints.{
  ComplaintStatus, Complaint, ComplaintComment, ComplaintAssignment, ComplaintTables,
}
use ski_tech_backend.Inbox.{ItemFields, title_max, is_open_item, is_ambiguous, create_inbox_item}
use ski_tech_backend.Complaints.{
  ComplaintRole, as_owner, as_manager, as_staff, ComplaintService, ComplaintCommentCreate,
  when_found, comment_data, find_complaint, row_of, save_complaint, add_comment,
}

unfoldable pub role_text : ComplaintRole → String
role_text as_owner = "owner"
role_text as_manager = "manager"
role_text as_staff = "staff"

unfoldable pub escalation_text : ComplaintService → String → String
unfolding role_text
escalation_text service reason =
    joined ("Escalated by " ∷ role_text service.user_role ∷ ": " ∷ reason ∷ [])

unfoldable pub escalated_for : String → Complaint → Complaint
escalated_for reason c = record c {
  status = ComplaintStatus.escalated;
  resolution_notes = some (joined ("Escalated: " ∷ reason ∷ []));
}

unfoldable pub escalation_item : Uuid → Uuid → Complaint → String → ItemFields
escalation_item item_id tenant_id c reason = record {
  new_id = item_id;
  tenant_id = tenant_id;
  property_id = some c.property_id;
  source_module = "complaints";
  item_type = "complaint_escalated";
  source_record_id = c.id;
  recipient_user_id = none;
  recipient_role = some "manager";
  title = joined ("Complaint escalated: " ∷ c.title ∷ []);
  body = reason;
}

-- An item is inserted, and its title does not fit the column.
unfoldable pub is_title_refused : ItemFields → List InboxItem → Bool
unfolding title_max text_length
is_title_refused f items =
    not (any (is_open_item f.tenant_id f.source_record_id f.item_type) items)
    && ltb title_max (text_length f.title)

-- `ComplaintAssignmentCreate`, with its validation.
pub record ComplaintAssignmentCreate : Type 0 where
  pub assigned_to : Uuid
  pub notes : Option String

unfoldable pub assignment_data :
    {D : Type 0} → Uuid → Option String → Action D ComplaintAssignmentCreate
unfolding text_length
assignment_data assigned_to notes = do
  raise_if (ltb 500 (text_length (get_or notes ""))) (value_error text_length_out_of_range)
  pure (record { assigned_to = assigned_to; notes = notes })

unfoldable pub assignment_text : (Uuid → String) → ComplaintAssignmentCreate → String
assignment_text show_uuid data_in =
    joined
      ("Assigned to user " ∷ show_uuid data_in.assigned_to ∷ ". " ∷ get_or data_in.notes "" ∷ [])

abbrev pub is_assignment_of : Uuid → Uuid → ComplaintAssignment → Bool
is_assignment_of complaint_id assigned_to a =
    a.complaint_id == complaint_id && a.assigned_to == assigned_to

abbrev pub assignment_key : ComplaintAssignment → Uuid
assignment_key a = a.id

unfoldable pub new_complaint_assignment :
    Uuid → ℕ → ComplaintService → Uuid → ComplaintAssignmentCreate → ComplaintAssignment
new_complaint_assignment new_id now service complaint_id data_in = record {
  id = new_id;
  tenant_id = service.tenant_id;
  complaint_id = complaint_id;
  assigned_to = data_in.assigned_to;
  assigned_by = some service.user_id;
  assigned_at = now;
  completed_at = none;
  notes = data_in.notes;
}

abbrev pub with_notes : Option String → ComplaintAssignment → ComplaintAssignment
with_notes notes a = record a { notes = notes }

-- The row of the history: the old one with the notes that are given, or a new one.
unfoldable pub put_assignment :
    Option ComplaintAssignment
    → ComplaintAssignment
    → Option String
    → List ComplaintAssignment
    → List ComplaintAssignment
put_assignment none new_row notes assignments = assignments ++ new_row ∷ []
put_assignment (some a) new_row notes assignments =
    if truthy notes
    then update_row assignment_key a.id (with_notes notes) assignments
    else assignments

unfoldable pub write_assignment :
    Uuid
    → ℕ
    → ComplaintService
    → Uuid
    → ComplaintAssignmentCreate
    → List ComplaintAssignment
    → List ComplaintAssignment
unfolding new_complaint_assignment put_assignment
write_assignment new_id now service id data_in assignments =
    put_assignment (first (select (is_assignment_of id data_in.assigned_to) assignments))
      (new_complaint_assignment new_id now service id data_in) data_in.notes assignments

unfoldable pub assigned_complaint : Uuid → ℕ → Uuid → Complaint → Complaint
assigned_complaint user_id now assigned_to c = record c {
  assigned_to = some assigned_to;
  assigned_by = some user_id;
  assigned_at = some now;
  status = ComplaintStatus.in_progress;
}

module _ {Float : Type 0} where
  abbrev pub with_items : List InboxItem → Db Float → Db Float
  with_items items d = record d { inbox_items = items }

  abbrev pub with_assignments : List ComplaintAssignment → Db Float → Db Float
  with_assignments rows d = record d {
    complaint_log = record d.complaint_log { assignments = rows };
  }

  -- The end of an escalation: the inbox item, and the complaint as it is stored then.
  unfoldable pub announce_escalation :
      Uuid → ComplaintService → String → Complaint → Action (Db Float) (Option Complaint)
  unfolding is_title_refused escalation_item create_inbox_item
  announce_escalation item_id service reason c = do
    items ← gets (λ (d : Db Float). d.inbox_items)
    rollback_if (is_ambiguous (escalation_item item_id service.tenant_id c reason) items)
        multiple_results_found
    rollback_if (is_title_refused (escalation_item item_id service.tenant_id c reason) items)
        data_error
    modify
        (with_items (create_inbox_item (escalation_item item_id service.tenant_id c reason) items))
    commit
    gets (row_of c.id)

  -- What follows the change of the complaint itself: the comment, and the announcement.
  unfoldable pub log_escalation :
      Uuid
      → Uuid
      → ℕ
      → ComplaintService
      → Uuid
      → String
      → Complaint
      → Action (Db Float) (Option Complaint)
  unfolding comment_data escalation_text announce_escalation
  log_escalation comment_id item_id now service id reason c = do
    data_in ← comment_data (escalation_text service reason) true
    comment ← add_comment comment_id now service id data_in
    announce_escalation item_id service reason c

  unfoldable pub escalate_complaint :
      Uuid → Uuid → ℕ → ComplaintService → Uuid → String → Action (Db Float) (Option Complaint)
  unfolding save_complaint escalated_for log_escalation
  escalate_complaint comment_id item_id now service id reason = do
    found ← gets (find_complaint id service.tenant_id)
    when_found found (λ c. do
      modify (save_complaint (escalated_for reason c))
      log_escalation comment_id item_id now service id reason (escalated_for reason c))

  abbrev pub is_user : Uuid → Db Float → Bool
  is_user id d = any (λ u. u.id == id) d.users

  -- What follows an assignment: its comment.
  unfoldable pub log_assignment :
      (Uuid → String)
      → Uuid
      → ℕ
      → ComplaintService
      → Uuid
      → ComplaintAssignmentCreate
      → Complaint
      → Action (Db Float) (Option Complaint)
  unfolding comment_data assignment_text
  log_assignment show_uuid comment_id now service id data_in c = do
    text ← comment_data (assignment_text show_uuid data_in) true
    comment ← add_comment comment_id now service id text
    gets (row_of c.id)

  -- `assigned_to` refers to a row of users.
  unfoldable pub assign_complaint :
      (Uuid → String)
      → Uuid
      → Uuid
      → ℕ
      → ComplaintService
      → Uuid
      → ComplaintAssignmentCreate
      → Action (Db Float) (Option Complaint)
  unfolding save_complaint assigned_complaint write_assignment log_assignment
  assign_complaint show_uuid new_id comment_id now service id data_in = do
    found ← gets (find_complaint id service.tenant_id)
    when_found found (λ c. do
      before ← gets (λ (d : Db Float). d.complaint_log.assignments)
      modify (with_assignments (write_assignment new_id now service id data_in before))
      modify (save_complaint (assigned_complaint service.user_id now data_in.assigned_to c))
      known ← gets (is_user data_in.assigned_to)
      rollback_if (not known) integrity_error
      commit
      log_assignment show_uuid comment_id now service id data_in c)

  unfoldable pub reassign_complaint :
      (Uuid → String)
      → Uuid
      → Uuid
      → ℕ
      → ComplaintService
      → Uuid
      → Uuid
      → Option String
      → Action (Db Float) (Option Complaint)
  unfolding assignment_data assign_complaint
  reassign_complaint show_uuid new_id comment_id now service id new_assigned_to notes = do
    data_in ← assignment_data new_assigned_to notes
    assign_complaint show_uuid new_id comment_id now service id data_in
