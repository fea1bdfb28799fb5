-- ===== src/Models/Database.antt =====
-- The database as its tables.
use ski_tech_backend.Base.{List}
use ski_tech_backend.Models.Attendance.{
  AttendanceRecord, PropertyGeofence, GeofenceChangeRequest, AttendanceCorrectionRequest,
}
use ski_tech_backend.Models.Kra.{KraDefinition, KraAssignment, KraOccurrence}
use ski_tech_backend.Models.Complaints.{ComplaintTables}
use ski_tech_backend.Models.Inbox.{InboxItem}
use ski_tech_backend.Models.Directory.{User, Property}

pub record Db (Float : Type 0) : Type 0 where
  pub users : List User
  pub properties : List Property
  pub attendance_records : List (AttendanceRecord Float)
  pub property_geofences : List (PropertyGeofence Float)
  pub geofence_change_requests : List (GeofenceChangeRequest Float)
  pub attendance_correction_requests : List AttendanceCorrectionRequest
  pub inbox_items : List InboxItem
  pub kra_definitions : List KraDefinition
  pub kra_assignments : List KraAssignment
  pub kra_occurrences : List KraOccurrence
  pub complaint_log : ComplaintTables
