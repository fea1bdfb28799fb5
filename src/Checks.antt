-- ===== src/Checks.antt =====
-- The theorems at concrete data: a tenant with one property, its geofence, three users and four
-- shifts, with natural numbers in place of floats.
mod Punches
mod Reviews
mod Fences
mod Reports
mod Tasks
mod Periods
mod Complaints
mod Definitions
use ski_tech_backend.Base.{
  ℕ, ◌+◌, ◌-◌, ◌*◌, ◌/◌, Bool, true, false, none, some, List, [], ◌∷◌, ℤ, pos, negsuc, leb, ltb,
}
use ski_tech_backend.Runtime.{Runtime, Uuid, Instant, aware, hours}
use ski_tech_backend.Models.{
  AttendanceRecord, AttendanceStatus, active, completed, auto_closed, PropertyGeofence, User,
  Property, tenant_admin, manager, staff, uuid, Token, Db,
}
use ski_tech_backend.Models.Kra.{
  daily, OccurrenceStatus, KraDefinition, KraAssignment, KraOccurrence,
}
use ski_tech_backend.Models.Complaints.{
  opened, high, complaint, maintenance, Complaint, ComplaintTables,
}
use ski_tech_backend.Attendance.Records.{GeolocationData}
use ski_tech_backend.Attendance.Punch.{PunchRequest}

abbrev of_ℤ : ℤ → ℕ
of_ℤ (pos n) = n
of_ℤ (negsuc n) = 0

abbrev sum_of : List ℕ → ℕ
sum_of [] = 0
sum_of (x ∷ xs) = x + sum_of xs

abbrev pub rt : Runtime ℕ
rt = record {
  of_int = of_ℤ;
  add = λ a b. a + b;
  sub = λ a b. a - b;
  mul = λ a b. a * b;
  div = λ a b. a / b;
  le = leb;
  lt = ltb;
  sum = sum_of;
  round2 = λ a. a;
  total_seconds = λ t. of_ℤ t / 1000000;
  radians = λ a. a;
  sin = λ a. a;
  cos = λ a. a;
  asin = λ a. a;
  sqrt = λ a. a;
  show = λ _. "n";
  fixed = λ _ _. "n";
  show_int = λ _. "n";
  show_date = λ _. "day";
}

abbrev shift : Uuid → Uuid → ℕ → AttendanceStatus → AttendanceRecord ℕ
shift id user_id hour status = record {
  id = id;
  tenant_id = 1;
  user_id = user_id;
  property_id = 10;
  punch_in_time = aware (hours hour);
  punch_in_lat = 10;
  punch_in_lon = 20;
  punch_in_acc = none;
  is_within_fence = true;
  distance_meters = some 0;
  punch_out_time = none;
  punch_out_lat = none;
  punch_out_lon = none;
  punch_out_acc = none;
  punch_out_within_fence = none;
  punch_out_distance_meters = none;
  hours_worked = none;
  status = status;
  current_status = none;
  notes = none;
}

abbrev pub fence : PropertyGeofence ℕ
fence = record {
  id = 600;
  tenant_id = 1;
  property_id = 10;
  property_name = none;
  center_lat = 10;
  center_lng = 20;
  radius_meters = 200;
  address = none;
  city = none;
  country = none;
  alert_on_breach = true;
}

abbrev pub missed : AttendanceRecord ℕ
missed = shift 502 100 900 auto_closed

abbrev pub missed_again : AttendanceRecord ℕ
missed_again = shift 503 100 950 auto_closed

abbrev pub colleague : AttendanceRecord ℕ
colleague = shift 501 101 999 active

abbrev pub stale : AttendanceRecord ℕ
stale = shift 500 100 980 active

abbrev pub hotel : Property
hotel = record { id = 10; tenant_id = 1; name = "Hotel"; is_deleted = false }

abbrev pub task : KraDefinition
task = record {
  id = 400;
  tenant_id = 1;
  property_id = 10;
  title = "Check the pool";
  description = none;
  frequency = daily;
  value_label = none;
  created_by = none;
  is_active = true;
  is_deleted = false;
}

abbrev pub given : KraAssignment
given = record {
  id = 410;
  tenant_id = 1;
  property_id = 10;
  definition_id = 400;
  assignee_id = 100;
  assigned_by = some 101;
  start_date = 40;
  is_active = true;
  ended_at = none;
}

abbrev pub due : KraOccurrence
due = record {
  id = 420;
  tenant_id = 1;
  property_id = 10;
  assignment_id = 410;
  definition_id = 400;
  assignee_id = 100;
  period_start = 41;
  period_end = 41;
  status = OccurrenceStatus.pending;
  was_delayed = false;
  delayed_at = none;
  delay_reason = none;
  completed_at = none;
  completion_note = none;
  completion_value = none;
}

abbrev pub leak : Complaint
leak = record {
  id = 700;
  tenant_id = 1;
  property_id = 10;
  created_by = some 100;
  assigned_to = none;
  assigned_by = none;
  resolved_by = none;
  title = "Leaking tap";
  description = "The tap in the kitchen leaks";
  category = maintenance;
  complaint_type = complaint;
  priority = high;
  status = opened;
  room_number = none;
  location = none;
  assigned_at = none;
  resolved_at = none;
  resolution_notes = none;
  attachment_count = 0;
  comment_count = 0;
  created_at = 100;
  is_deleted = false;
}

abbrev pub start : Db ℕ
start = record {
  users =
      record {
        id = 100;
        tenant_id = 1;
        first_name = none;
        last_name = none;
        property_id = some 10;
        role_name = staff;
        is_active = true;
        is_deleted = false;
      }
      ∷ record {
        id = 101;
        tenant_id = 1;
        first_name = none;
        last_name = none;
        property_id = some 10;
        role_name = manager;
        is_active = true;
        is_deleted = false;
      }
      ∷ record {
        id = 102;
        tenant_id = 1;
        first_name = none;
        last_name = none;
        property_id = none;
        role_name = tenant_admin;
        is_active = true;
        is_deleted = false;
      }
      ∷ [];
  properties = hotel ∷ [];
  attendance_records = stale ∷ colleague ∷ missed ∷ missed_again ∷ [];
  property_geofences = fence ∷ [];
  geofence_change_requests = [];
  attendance_correction_requests = [];
  inbox_items = [];
  kra_definitions = task ∷ [];
  kra_assignments = given ∷ [];
  kra_occurrences = due ∷ [];
  complaint_log = record {
    complaints = leak ∷ [];
    comments = [];
    assignments = [];
    attachments = [];
  };
}

abbrev pub staff_token : Token
staff_token = record {
  user_id = uuid 100;
  tenant_id = uuid 1;
  property_id = uuid 10;
  role = some staff;
}

abbrev pub manager_token : Token
manager_token = record {
  user_id = uuid 101;
  tenant_id = uuid 1;
  property_id = uuid 10;
  role = some manager;
}

abbrev pub owner_token : Token
owner_token = record {
  user_id = uuid 102;
  tenant_id = uuid 1;
  property_id = uuid 10;
  role = some tenant_admin;
}

abbrev pub here : GeolocationData ℕ
here = record { latitude = 10; longitude = 20; accuracy = some 5 }

abbrev pub at_hotel : PunchRequest ℕ
at_hotel = record { geolocation = here; notes = none }

-- The clock of the checks.
abbrev pub at_1000 : Instant
at_1000 = hours 1000

abbrev pub at_1005 : Instant
at_1005 = hours 1005
