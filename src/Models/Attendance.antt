-- ===== src/Models/Attendance.antt =====
-- app/models/attendance.py: the rows, without the ORM's own created_at, updated_at and the
-- is_demo flag, which no modelled operation reads.
use ski_tech_backend.Base.{ℕ, Bool, Option, String, true, false}
use ski_tech_backend.Runtime.{Uuid, Instant, DateTime}
use ski_tech_backend.Models.Directory.{RoleName}

-- The values of `AttendanceRecord.status`.
pub data AttendanceStatus : Type 0 where
  active completed auto_closed : AttendanceStatus

abbrev pub is_active : AttendanceStatus → Bool
is_active active = true
is_active _ = false

abbrev pub is_completed : AttendanceStatus → Bool
is_completed completed = true
is_completed _ = false

abbrev pub is_auto_closed : AttendanceStatus → Bool
is_auto_closed auto_closed = true
is_auto_closed _ = false

pub record AttendanceRecord (Float : Type 0) : Type 0 where
  pub id : Uuid
  pub tenant_id : Uuid
  pub user_id : Uuid
  pub property_id : Uuid
  pub punch_in_time : DateTime
  pub punch_in_lat : Float
  pub punch_in_lon : Float
  pub punch_in_acc : Option Float
  pub is_within_fence : Bool
  pub distance_meters : Option Float
  pub punch_out_time : Option DateTime
  pub punch_out_lat : Option Float
  pub punch_out_lon : Option Float
  pub punch_out_acc : Option Float
  pub punch_out_within_fence : Option Bool
  pub punch_out_distance_meters : Option Float
  pub hours_worked : Option Float
  pub status : AttendanceStatus
  pub current_status : Option String
  pub notes : Option String

pub record PropertyGeofence (Float : Type 0) : Type 0 where
  pub id : Uuid
  pub tenant_id : Uuid
  pub property_id : Uuid
  pub property_name : Option String
  pub center_lat : Float
  pub center_lng : Float
  pub radius_meters : ℕ
  pub address : Option String
  pub city : Option String
  pub country : Option String
  pub alert_on_breach : Bool

-- The values that the check constraints allow.
pub data RequestStatus : Type 0 where
  pending approved rejected cancelled : RequestStatus

abbrev pub is_pending : RequestStatus → Bool
is_pending pending = true
is_pending _ = false

-- How the outcome of a review stands in texts.
abbrev pub status_text : RequestStatus → String
status_text pending = "pending"
status_text approved = "approved"
status_text rejected = "rejected"
status_text cancelled = "cancelled"

pub record GeofenceChangeRequest (Float : Type 0) : Type 0 where
  pub id : Uuid
  pub tenant_id : Uuid
  pub property_id : Uuid
  pub requested_by : Option Uuid
  pub center_lat : Float
  pub center_lng : Float
  pub radius_meters : ℕ
  pub address : Option String
  pub note : Option String
  pub status : RequestStatus
  pub reviewed_by : Option Uuid
  pub reviewed_at : Option Instant
  pub review_note : Option String
  pub created_at : Instant

pub record AttendanceCorrectionRequest : Type 0 where
  pub id : Uuid
  pub tenant_id : Uuid
  pub property_id : Uuid
  pub attendance_id : Uuid
  pub requested_by : Option Uuid
  pub requester_role : RoleName
  pub claimed_punch_out_time : DateTime
  pub reason : String
  pub status : RequestStatus
  pub reviewed_by : Option Uuid
  pub reviewed_at : Option Instant
  pub review_note : Option String
  pub created_at : Instant
