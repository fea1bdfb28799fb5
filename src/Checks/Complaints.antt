-- ===== src/Checks/Complaints.antt =====
-- A complaint that is escalated, assigned and resolved.
use ski_tech_backend.Base.{
  count_where, ℕ, ◌+◌, arith, Bool, true, false, not, ◌&&◌, truthy, get_or, str_eq, ◌||◌, none,
  some, List, [], ◌∷◌, ◌++◌, ◌≡◌, refl, ◌==◌, ltb, any, String,
}
use ski_tech_backend.Runtime.{Uuid}
use ski_tech_backend.Text.{joined, text_length}
use ski_tech_backend.Session.{Session, ok, begin}
use ski_tech_backend.Models.{Db}
use ski_tech_backend.Models.Complaints.{
  ComplaintStatus, ComplaintPriority, opened, in_progress, escalated, status_eq, priority_eq,
  maintenance, complaint, high, Complaint,
}
use ski_tech_backend.Inbox.{
  ItemFields, is_open_item, is_ambiguous, create_inbox_item, mark_inbox_items_actioned,
}
use ski_tech_backend.Inbox.OpenSet.{open_set, with_key, inbox_refines_open_set}
use ski_tech_backend.Complaints.{
  as_manager, ComplaintService, ComplaintCreate, ComplaintUpdate, ComplaintResolve,
  ComplaintCommentCreate, find_complaint, create_complaint, get_complaint, update_complaint,
  resolve_complaint, add_comment,
}
use ski_tech_backend.Complaints.Workflow.{
  role_text, ComplaintAssignmentCreate, is_assignment_of, escalation_text, assignment_text,
  escalate_complaint, assign_complaint,
}
use ski_tech_backend.Complaints.Workflow.Stored.{
  EndsWith, resolve_complaint_stored, escalate_complaint_stored,
}
use ski_tech_backend.Complaints.Workflow.History.{HasUniqueAssignees, assign_complaint_stored}
use ski_tech_backend.Complaints.Dashboards.{has_priority, manager_data}
use ski_tech_backend.Complaints.Dashboards.Tallies.{lookup, sum_of_values, manager_data_counts}
use ski_tech_backend.Complaints.Endpoints.{BulkActionRequest, bulk_action}
use ski_tech_backend.Complaints.Endpoints.Bulk.{bulk_action_close}
use ski_tech_backend.Complaints.Counts.{HasCounts, complaint_operations-HasCounts}
use ski_tech_backend.Complaints.Isolation.{complaint_operations_unknown}
use ski_tech_backend.Checks.{start, leak}

abbrev desk : ComplaintService
desk = record { tenant_id = 1; property_id = some 10; user_id = 101; user_role = as_manager }

abbrev elsewhere : ComplaintService
elsewhere = record { tenant_id = 2; property_id = some 20; user_id = 201; user_role = as_manager }

abbrev session : Session (Db ℕ)
session = begin start

abbrev show_uuid : Uuid → String
show_uuid _ = "user"

abbrev creation : ComplaintCreate
creation = record {
  title = "Broken lamp";
  description = "The lamp of room 3 is broken";
  category = maintenance;
  complaint_type = complaint;
  priority = high;
  room_number = some "3";
  location = none;
}

abbrev change : ComplaintUpdate
change = record {
  title = some "Leaking tap in the kitchen";
  description = none;
  category = none;
  complaint_type = none;
  priority = none;
  room_number = none;
  location = none;
}

abbrev resolution : ComplaintResolve
resolution = record {
  status = ComplaintStatus.resolved;
  resolution_notes = "The seal was replaced";
}

abbrev assignment : ComplaintAssignmentCreate
assignment = record { assigned_to = 100; notes = none }

abbrev remark : ComplaintCommentCreate
remark = record { comment = "Seen"; is_internal = true }

complaint_operations-HasCounts_example :
    HasCounts (create_complaint 701 200 desk creation session).1
    × HasCounts (update_complaint desk 700 change session).1
    × HasCounts (resolve_complaint 200 desk 700 resolution session).1
    × HasCounts (escalate_complaint 720 730 200 desk 700 "Still leaking" session).1
    × HasCounts (assign_complaint show_uuid 701 720 200 desk 700 assignment session).1
    × HasCounts (add_comment 720 200 desk 700 remark session).1
complaint_operations-HasCounts_example =
    complaint_operations-HasCounts desk 200 700 session 701 730 720 show_uuid "Still leaking"
      creation change resolution assignment remark refl ((refl, tt), (refl, tt))

complaint_operations_unknown_example :
    (get_complaint elsewhere 700 session ≡ (ok none, session))
    × (update_complaint elsewhere 700 change session ≡ (ok none, session))
    × (resolve_complaint 200 elsewhere 700 resolution session ≡ (ok none, session))
    × (escalate_complaint 720 730 200 elsewhere 700 "Still leaking" session ≡ (ok none, session))
    × (assign_complaint show_uuid 701 720 200 elsewhere 700 assignment session ≡ (ok none, session))
    × (add_comment 720 200 elsewhere 700 remark session ≡ (ok none, session))
complaint_operations_unknown_example =
    complaint_operations_unknown elsewhere 700 session refl 701 720 730 200 show_uuid
      "Still leaking" change resolution assignment remark

found : find_complaint 700 1 start ≡ some leak
unfolding find_complaint
found = refl

resolve_complaint_stored_example :
    (stored : Complaint) × (stored ≡ record leak {
      status = resolution.status;
      resolution_notes = some resolution.resolution_notes;
      resolved_by = some 101;
      resolved_at = some 200;
    })
    × ((resolve_complaint 200 desk 700 resolution session).0 ≡ ok (some stored))
    × (find_complaint 700 1 (resolve_complaint 200 desk 700 resolution session).1.committed
        ≡ some stored)
    × (any
          (is_open_item 1 700 "complaint_escalated")
          (resolve_complaint 200 desk 700 resolution session).1.committed.inbox_items
        ≡ false)
resolve_complaint_stored_example =
    resolve_complaint_stored 200 desk 700 resolution session leak found

escalation_fits :
    (text_length (escalation_text desk "Still leaking") == 0
      || ltb 2000 (text_length (escalation_text desk "Still leaking")))
    ≡ false
unfolding text_length escalation_text
escalation_fits = refl

escalate_complaint_stored_example :
    (find_complaint 700 1
        (escalate_complaint 720 730 200 desk 700 "Still leaking" session).1.committed
      ≡ some (record leak {
        status = escalated;
        resolution_notes = some (joined ("Escalated: " ∷ "Still leaking" ∷ []));
        comment_count = leak.comment_count + 1;
      }))
    × ((escalate_complaint 720 730 200 desk 700 "Still leaking"
          session).1.committed.complaint_log.comments
        ≡ start.complaint_log.comments
          ++ record {
            id = 720;
            tenant_id = 1;
            complaint_id = 700;
            user_id = some 101;
            comment = joined ("Escalated by " ∷ role_text as_manager ∷ ": " ∷ "Still leaking" ∷ []);
            is_internal = true;
            attachment_count = 0;
            created_at = 200;
          }
            ∷ [])
    × EndsWith desk leak start.inbox_items
        (escalate_complaint 720 730 200 desk 700 "Still leaking" session)
escalate_complaint_stored_example =
    escalate_complaint_stored 720 730 200 desk 700 "Still leaking" session leak found
      escalation_fits

assignment_fits :
    (text_length (assignment_text show_uuid assignment) == 0
      || ltb 2000 (text_length (assignment_text show_uuid assignment)))
    ≡ false
unfolding text_length assignment_text
assignment_fits = refl

assign_complaint_stored_example :
    (find_complaint 700 1
        (assign_complaint show_uuid 701 720 200 desk 700 assignment session).1.committed
      ≡ some (record leak {
        assigned_to = some 100;
        assigned_by = some 101;
        assigned_at = some 200;
        status = in_progress;
        comment_count = leak.comment_count + 1;
      }))
    × (any
          (is_assignment_of 700 100)
          (assign_complaint show_uuid 701 720 200 desk 700 assignment
            session).1.committed.complaint_log.assignments
        ≡ true)
    × HasUniqueAssignees
        (assign_complaint show_uuid 701 720 200 desk 700 assignment
          session).1.committed.complaint_log.assignments
assign_complaint_stored_example =
    assign_complaint_stored show_uuid 701 720 200 desk 700 assignment session leak found refl
      assignment_fits tt

abbrev ilike : String → String → Bool
ilike _ _ = true

abbrev as_stored : List Complaint → List Complaint
as_stored rows = rows

abbrev log : List Complaint
log = leak ∷ record leak { id = 701; status = escalated } ∷ []

manager_data_counts_example :
    (lookup status_eq opened (manager_data 200 log).by_status
      ≡ (manager_data 200 log).open_complaints)
    × (lookup status_eq in_progress (manager_data 200 log).by_status
        ≡ (manager_data 200 log).in_progress_count)
    × (lookup status_eq escalated (manager_data 200 log).by_status
        ≡ (manager_data 200 log).escalated_count)
    × ((p : ComplaintPriority)
        → lookup priority_eq p (manager_data 200 log).by_priority
          ≡ count_where (has_priority p) log)
    × (sum_of_values (manager_data 200 log).by_priority ≡ (manager_data 200 log).total_complaints)
    × (sum_of_values (manager_data 200 log).by_status ≡ (manager_data 200 log).total_complaints)
    × (sum_of_values (manager_data 200 log).by_category ≡ (manager_data 200 log).total_complaints)
    × (sum_of_values (manager_data 200 log).by_type ≡ (manager_data 200 log).total_complaints)
manager_data_counts_example = manager_data_counts 200 log

abbrev closing : BulkActionRequest
closing = record {
  complaint_ids = 700 ∷ 701 ∷ [];
  action = "close";
  assigned_to = none;
  status = none;
  notes = none;
}

abbrev new_ids : Uuid → Uuid × Uuid × Uuid
new_ids _ = (801, 802, 803)

bulk_action_close_example :
    bulk_action show_uuid new_ids 200 desk closing session
    ≡ (ok (record { total = 2; processed = 2; failed = 0; action = "close" }), session)
bulk_action_close_example =
    bulk_action_close show_uuid new_ids 200 desk closing session refl refl (omega arith)
      (omega arith)

abbrev escalation : ItemFields
escalation = record {
  new_id = 900;
  tenant_id = 1;
  property_id = some 10;
  source_module = "complaints";
  item_type = "complaint_escalated";
  source_record_id = 700;
  recipient_user_id = none;
  recipient_role = some "manager";
  title = "Complaint escalated";
  body = "Still leaking";
}

inbox_refines_open_set_example :
    (is_ambiguous escalation [] ≡ false)
    × (open_set (create_inbox_item escalation []) 1 700 "complaint_escalated"
        ≡ with_key escalation (open_set []) 1 700 "complaint_escalated")
    × (open_set (mark_inbox_items_actioned 1 700 (some "") []) 1 700 "complaint_escalated" ≡ (
        open_set [] 1 700 "complaint_escalated"
        && not (
            1 == 1
            && (700 == 700
                && (not (truthy (some ""))
                    || str_eq "complaint_escalated" (get_or (some "") ""))))))
inbox_refines_open_set_example =
    inbox_refines_open_set escalation 1 700 (some "") [] 1 700 "complaint_escalated"
      (λ t s y. omega arith)
