-- ===== src/Models/Kra.antt =====
-- app/models/kra_tasks.py: tasks and their occurrences. A date is its number of days.
use ski_tech_backend.Base.{ℕ, Bool, true, false, Option, String}
use ski_tech_backend.Runtime.{Uuid, DateTime}

pub data Frequency : Type 0 where
  daily weekly monthly quarterly : Frequency

pub data OccurrenceStatus : Type 0 where
  pending delayed completed : OccurrenceStatus

abbrev pub is_pending : OccurrenceStatus → Bool
is_pending pending = true
is_pending _ = false

abbrev pub is_delayed : OccurrenceStatus → Bool
is_delayed delayed = true
is_delayed _ = false

abbrev pub is_completed : OccurrenceStatus → Bool
is_completed completed = true
is_completed _ = false

pub record KraDefinition : Type 0 where
  pub id : Uuid
  pub tenant_id : Uuid
  pub property_id : Uuid
  pub title : String
  pub description : Option String
  pub frequency : Frequency
  pub value_label : Option String
  pub created_by : Option Uuid
  pub is_active : Bool
  pub is_deleted : Bool  -- deleted_at is set

pub record KraAssignment : Type 0 where
  pub id : Uuid
  pub tenant_id : Uuid
  pub property_id : Uuid
  pub definition_id : Uuid
  pub assignee_id : Uuid
  pub assigned_by : Option Uuid
  pub start_date : ℕ
  pub is_active : Bool
  pub ended_at : Option DateTime

-- A value is in hundredths, as its column holds two decimals.
pub record KraOccurrence : Type 0 where
  pub id : Uuid
  pub tenant_id : Uuid
  pub property_id : Uuid
  pub assignment_id : Uuid
  pub definition_id : Uuid
  pub assignee_id : Uuid
  pub period_start : ℕ
  pub period_end : ℕ
  pub status : OccurrenceStatus
  pub was_delayed : Bool
  pub delayed_at : Option DateTime
  pub delay_reason : Option String
  pub completed_at : Option DateTime
  pub completion_note : Option String
  pub completion_value : Option ℕ
