-- ===== src/Models/Complaints.antt =====
-- app/models/models.py, "ERROR & COMPLAINT LOG", and the enumerations of app/schemas/complaints.py
-- whose values its columns hold. A moment is a clock reading in microseconds. The columns
-- updated_at and is_demo, which no operation reads, are left out.
use ski_tech_backend.Base.{ℕ, Bool, true, false, Option, List, String}
use ski_tech_backend.Runtime.{Uuid}

pub data ComplaintPriority : Type 0 where
  low medium high critical : ComplaintPriority

pub data ComplaintStatus : Type 0 where
  opened in_progress resolved escalated closed : ComplaintStatus

pub data ComplaintType : Type 0 where
  complaint fault handover : ComplaintType

pub data ComplaintCategory : Type 0 where
  maintenance housekeeping technical operational security safety other : ComplaintCategory

abbrev pub priority_eq : ComplaintPriority → ComplaintPriority → Bool
priority_eq low low = true
priority_eq medium medium = true
priority_eq high high = true
priority_eq critical critical = true
priority_eq _ _ = false

abbrev pub status_eq : ComplaintStatus → ComplaintStatus → Bool
status_eq opened opened = true
status_eq in_progress in_progress = true
status_eq resolved resolved = true
status_eq escalated escalated = true
status_eq closed closed = true
status_eq _ _ = false

abbrev pub type_eq : ComplaintType → ComplaintType → Bool
type_eq complaint complaint = true
type_eq fault fault = true
type_eq handover handover = true
type_eq _ _ = false

abbrev pub category_eq : ComplaintCategory → ComplaintCategory → Bool
category_eq maintenance maintenance = true
category_eq housekeeping housekeeping = true
category_eq technical technical = true
category_eq operational operational = true
category_eq security security = true
category_eq safety safety = true
category_eq other other = true
category_eq _ _ = false

pub record Complaint : Type 0 where
  pub id : Uuid
  pub tenant_id : Uuid
  pub property_id : Uuid
  pub created_by : Option Uuid
  pub assigned_to : Option Uuid
  pub assigned_by : Option Uuid
  pub resolved_by : Option Uuid
  pub title : String
  pub description : String
  pub category : ComplaintCategory
  pub complaint_type : ComplaintType
  pub priority : ComplaintPriority
  pub status : ComplaintStatus
  pub room_number : Option String
  pub location : Option String
  pub assigned_at : Option ℕ
  pub resolved_at : Option ℕ
  pub resolution_notes : Option String
  pub attachment_count : ℕ
  pub comment_count : ℕ
  pub created_at : ℕ
  pub is_deleted : Bool  -- deleted_at is set

pub record ComplaintComment : Type 0 where
  pub id : Uuid
  pub tenant_id : Uuid
  pub complaint_id : Uuid
  pub user_id : Option Uuid
  pub comment : String
  pub is_internal : Bool
  pub attachment_count : ℕ
  pub created_at : ℕ

pub record ComplaintAssignment : Type 0 where
  pub id : Uuid
  pub tenant_id : Uuid
  pub complaint_id : Uuid
  pub assigned_to : Uuid
  pub assigned_by : Option Uuid
  pub assigned_at : ℕ
  pub completed_at : Option ℕ
  pub notes : Option String

pub record ComplaintAttachment : Type 0 where
  pub id : Uuid
  pub tenant_id : Uuid
  pub complaint_id : Uuid
  pub uploaded_by : Option Uuid
  pub file_name : String
  pub file_path : String
  pub file_size : Option ℕ
  pub file_type : Option String
  pub created_at : ℕ

pub record ComplaintTables : Type 0 where
  pub complaints : List Complaint
  pub comments : List ComplaintComment
  pub assignments : List ComplaintAssignment
  pub attachments : List ComplaintAttachment
