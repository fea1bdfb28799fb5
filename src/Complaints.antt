-- ===== src/Complaints.antt =====
-- app/services/complaint_service.py: complaints, their comments and their resolution.
pub mod Workflow
pub mod Listing
pub mod Dashboards
pub mod Endpoints
pub mod Counts
pub mod Isolation
use ski_tech_backend.Base.{
  ℕ, ◌+◌, Bool, true, false, not, ◌&&◌, ◌||◌, Option, none, some, List, [], ◌∷◌, ◌++◌, String, ◌==◌,
  ltb, if◌then◌else◌, get_or, is_none, select, first, update_row, order_by, truthy,
}
use ski_tech_backend.Runtime.{Uuid}
use ski_tech_backend.Text.{text_length}
use ski_tech_backend.Session.{
  Action, integrity_error, value_error, text_length_out_of_range, pure, raise_if, rollback_if, gets,
  modify, commit, ◌>>=◌, ◌>>◌,
}
use ski_tech_backend.Models.{Db}
use ski_tech_backend.Models.Complaints.{
  ComplaintPriority, ComplaintStatus, ComplaintType, ComplaintCategory, Complaint, ComplaintComment,
  ComplaintAssignment, ComplaintAttachment, ComplaintTables,
}
use ski_tech_backend.Inbox.{mark_inbox_items_actioned}

pub data ComplaintRole : Type 0 where
  as_owner as_manager as_staff : ComplaintRole

abbrev pub is_owner : ComplaintRole → Bool
is_owner as_owner = true
is_owner _ = false

-- The caller that a service is constructed for.
pub record ComplaintService : Type 0 where
  pub tenant_id : Uuid
  pub property_id : Option Uuid
  pub user_id : Uuid
  pub user_role : ComplaintRole

pub record ComplaintCreate : Type 0 where
  pub title : String
  pub description : String
  pub category : ComplaintCategory
  pub complaint_type : ComplaintType
  pub priority : ComplaintPriority
  pub room_number : Option String
  pub location : Option String

pub record ComplaintUpdate : Type 0 where
  pub title : Option String
  pub description : Option String
  pub category : Option ComplaintCategory
  pub complaint_type : Option ComplaintType
  pub priority : Option ComplaintPriority
  pub room_number : Option String
  pub location : Option String

pub record ComplaintResolve : Type 0 where
  pub status : ComplaintStatus
  pub resolution_notes : String

pub record ComplaintCommentCreate : Type 0 where
  pub comment : String
  pub is_internal : Bool

pub record ComplaintDetail : Type 0 where
  pub complaint : Complaint
  pub comments : List ComplaintComment
  pub assignments : List ComplaintAssignment
  pub attachments : List ComplaintAttachment

-- The complaint that `create_complaint` adds; `created_at` is the database's clock.
unfoldable pub new_complaint : Uuid → ℕ → ComplaintService → Uuid → ComplaintCreate → Complaint
new_complaint new_id created_at service property_id data_in = record {
  id = new_id;
  tenant_id = service.tenant_id;
  property_id = property_id;
  created_by = some service.user_id;
  assigned_to = none;
  assigned_by = none;
  resolved_by = none;
  title = data_in.title;
  description = data_in.description;
  category = data_in.category;
  complaint_type = data_in.complaint_type;
  priority = data_in.priority;
  status = ComplaintStatus.opened;
  room_number = data_in.room_number;
  location = data_in.location;
  assigned_at = none;
  resolved_at = none;
  resolution_notes = none;
  attachment_count = 0;
  comment_count = 0;
  created_at = created_at;
  is_deleted = false;
}

-- A text that is given and is not empty replaces the old one.
abbrev pub given_text : Option String → String → String
given_text t old = if truthy t then get_or t old else old

abbrev pub given_optional : Option String → Option String → Option String
given_optional t old = if truthy t then t else old

unfoldable pub patched : ComplaintUpdate → Complaint → Complaint
patched data_in c = record c {
  title = given_text data_in.title c.title;
  description = given_text data_in.description c.description;
  category = get_or data_in.category c.category;
  complaint_type = get_or data_in.complaint_type c.complaint_type;
  priority = get_or data_in.priority c.priority;
  room_number = given_optional data_in.room_number c.room_number;
  location = given_optional data_in.location c.location;
}

unfoldable pub resolved_as : Uuid → ℕ → ComplaintResolve → Complaint → Complaint
resolved_as user_id now data_in c = record c {
  status = data_in.status;
  resolution_notes = some data_in.resolution_notes;
  resolved_by = some user_id;
  resolved_at = some now;
}

unfoldable pub new_comment :
    Uuid → ℕ → ComplaintService → Uuid → ComplaintCommentCreate → ComplaintComment
new_comment new_id created_at service complaint_id data_in = record {
  id = new_id;
  tenant_id = service.tenant_id;
  complaint_id = complaint_id;
  user_id = some service.user_id;
  comment = data_in.comment;
  is_internal = data_in.is_internal;
  attachment_count = 0;
  created_at = created_at;
}

unfoldable pub counted_comment : Complaint → Complaint
counted_comment c = record c { comment_count = c.comment_count + 1 }

abbrev pub complaint_key : Complaint → Uuid
complaint_key c = c.id

-- A live complaint of a tenant.
abbrev pub is_live : Uuid → Uuid → Complaint → Bool
is_live id tenant_id c = c.id == id && (c.tenant_id == tenant_id && not c.is_deleted)

abbrev pub is_comment_of : Uuid → ComplaintComment → Bool
is_comment_of complaint_id m = m.complaint_id == complaint_id

abbrev pub comment_time : ComplaintComment → ℕ
comment_time m = m.created_at

-- `if not complaint: return None`, and otherwise the rest of the function.
abbrev pub when_found :
    {D A B : Type 0} → Option A → (A → Action D (Option B)) → Action D (Option B)
when_found none k s = pure none s
when_found (some a) k s = k a s

-- The validation of a comment's text, of 1 to 2000 characters.
unfoldable pub comment_data : {D : Type 0} → String → Bool → Action D ComplaintCommentCreate
unfolding text_length
comment_data text is_internal = do
  raise_if (text_length text == 0 || ltb 2000 (text_length text))
      (value_error text_length_out_of_range)
  pure (record { comment = text; is_internal = is_internal })

module _ {Float : Type 0} where
  -- `_get_complaint_by_id`
  unfoldable pub find_complaint : Uuid → Uuid → Db Float → Option Complaint
  find_complaint id tenant_id d = first (select (is_live id tenant_id) d.complaint_log.complaints)

  abbrev pub with_complaints : List Complaint → Db Float → Db Float
  with_complaints rows d = record d { complaint_log = record d.complaint_log { complaints = rows } }

  abbrev pub with_comments : List ComplaintComment → Db Float → Db Float
  with_comments rows d = record d { complaint_log = record d.complaint_log { comments = rows } }

  unfoldable pub add_complaint : Complaint → Db Float → Db Float
  add_complaint c d = with_complaints (d.complaint_log.complaints ++ c ∷ []) d

  unfoldable pub save_complaint : Complaint → Db Float → Db Float
  save_complaint c d =
      with_complaints (update_row complaint_key c.id (λ _. c) d.complaint_log.complaints) d

  unfoldable pub add_comment_row : ComplaintComment → Db Float → Db Float
  add_comment_row m d = with_comments (d.complaint_log.comments ++ m ∷ []) d

  -- A row as `db.refresh` reads it.
  abbrev pub row_of : Uuid → Db Float → Option Complaint
  row_of id d = first (select (λ c. c.id == id) d.complaint_log.complaints)

  abbrev pub act_on_escalation : Uuid → Uuid → Db Float → Db Float
  act_on_escalation tenant_id id d = record d {
    inbox_items = mark_inbox_items_actioned tenant_id id (some "complaint_escalated") d.inbox_items;
  }

  -- The column property_id may not be null.
  unfoldable pub create_complaint :
      Uuid → ℕ → ComplaintService → ComplaintCreate → Action (Db Float) Complaint
  unfolding new_complaint add_complaint
  create_complaint new_id now service data_in = do
    rollback_if (is_none service.property_id) integrity_error
    let c = new_complaint new_id now service (get_or service.property_id 0) data_in
    modify (add_complaint c)
    commit
    pure c

  unfoldable pub get_complaint :
      ComplaintService → Uuid → Action (Db Float) (Option ComplaintDetail)
  get_complaint service id = do
    found ← gets (find_complaint id service.tenant_id)
    when_found found (λ c. gets (λ (d : Db Float). some (record {
      complaint = c;
      comments = select (is_comment_of c.id) d.complaint_log.comments;
      assignments = select (λ a. a.complaint_id == c.id) d.complaint_log.assignments;
      attachments = select (λ a. a.complaint_id == c.id) d.complaint_log.attachments;
    })))

  unfoldable pub update_complaint :
      ComplaintService → Uuid → ComplaintUpdate → Action (Db Float) (Option Complaint)
  unfolding save_complaint patched
  update_complaint service id data_in = do
    found ← gets (find_complaint id service.tenant_id)
    when_found found (λ c. do
      modify (save_complaint (patched data_in c))
      commit
      pure (some (patched data_in c)))

  unfoldable pub resolve_complaint :
      ℕ → ComplaintService → Uuid → ComplaintResolve → Action (Db Float) (Option Complaint)
  unfolding save_complaint resolved_as
  resolve_complaint now service id data_in = do
    found ← gets (find_complaint id service.tenant_id)
    when_found found (λ c. do
      modify (save_complaint (resolved_as service.user_id now data_in c))
      modify (act_on_escalation service.tenant_id c.id)
      commit
      pure (some (resolved_as service.user_id now data_in c)))

  unfoldable pub add_comment :
      Uuid
      → ℕ
      → ComplaintService
      → Uuid
      → ComplaintCommentCreate
      → Action (Db Float) (Option ComplaintComment)
  unfolding new_comment add_comment_row counted_comment save_complaint
  add_comment new_id now service id data_in = do
    found ← gets (find_complaint id service.tenant_id)
    when_found found (λ c. do
      modify (add_comment_row (new_comment new_id now service id data_in))
      modify (save_complaint (counted_comment c))
      commit
      pure (some (new_comment new_id now service id data_in)))

  unfoldable pub get_comments : ComplaintService → Uuid → Action (Db Float) (List ComplaintComment)
  unfolding order_by
  get_comments service id = gets (λ (d : Db Float). order_by comment_time (
      select (λ m. is_comment_of id m && m.tenant_id == service.tenant_id)
        d.complaint_log.comments))
