-- ===== src/Complaints/Dashboards.antt =====
-- app/services/complaint_service.py: the dashboards and the statistics.
pub mod Tallies
use ski_tech_backend.Base.{
  count_where, count_one, tally_from, tally, ℕ, zero, suc, ◌+◌, ◌-◌, ◌*◌, ◌/◌, ℤ, pos, negsuc, Bool,
  true, false, not, ◌&&◌, ◌||◌, Option, none, some, List, [], ◌∷◌, map, String, ◌==◌, leb, ltb,
  if◌then◌else◌, opt_eq, is_some, select, take, length, order_by_desc,
}
use ski_tech_backend.Runtime.{Runtime, Uuid}
use ski_tech_backend.Text.{prefix_of}
use ski_tech_backend.Session.{Action, gets}
use ski_tech_backend.Models.{Db}
use ski_tech_backend.Models.Complaints.{
  ComplaintPriority, ComplaintStatus, ComplaintType, ComplaintCategory, priority_eq, status_eq,
  type_eq, category_eq, Complaint, ComplaintTables,
}
use ski_tech_backend.Complaints.{is_owner, ComplaintService}
use ski_tech_backend.Complaints.Listing.{if_given, filed_at}

-- Microseconds of a day.
abbrev pub day_length : ℕ
day_length = 86400000000

-- `.date()`
abbrev pub date_of : ℕ → ℕ
date_of t = t / day_length

-- `(now - created_at).days`, which rounds down.
unfoldable pub days_open : ℕ → ℕ → ℤ
days_open now created_at =
    if leb created_at now
    then pos ((now - created_at) / day_length)
    else negsuc ((created_at - now - 1) / day_length)

abbrev pub is_urgent : ComplaintPriority → Bool
is_urgent ComplaintPriority.high = true
is_urgent ComplaintPriority.critical = true
is_urgent _ = false

abbrev pub has_status : ComplaintStatus → Complaint → Bool
has_status t c = status_eq c.status t

abbrev pub has_priority : ComplaintPriority → Complaint → Bool
has_priority p c = priority_eq c.priority p

abbrev pub is_resolved_on : ℕ → Complaint → Bool
is_resolved_on now c = elim c.resolved_at [ none ↦ false | some t ↦ date_of t == date_of now ]

abbrev pub needs_attention : Complaint → Bool
needs_attention c = is_urgent c.priority && not (has_status ComplaintStatus.resolved c)

-- A row of need_attention: a complaint and days_open.
unfoldable pub attention_row : ℕ → Complaint → Complaint × ℤ
unfolding days_open
attention_row now c = (c, days_open now c.created_at)

-- `ComplaintDashboardEvent`, with the description cut to 100 characters.
unfoldable pub event_of : Complaint → Complaint
unfolding prefix_of
event_of c = record c { description = prefix_of 100 c.description }

pub record ManagerDashboardData : Type 0 where
  pub total_complaints : ℕ
  pub open_complaints : ℕ
  pub in_progress_count : ℕ
  pub resolved_today : ℕ
  pub escalated_count : ℕ
  pub by_priority : List (ComplaintPriority × ℕ)
  pub by_status : List (ComplaintStatus × ℕ)
  pub by_category : List (ComplaintCategory × ℕ)
  pub by_type : List (ComplaintType × ℕ)
  pub recent_complaints : List Complaint
  pub need_attention : List (Complaint × ℤ)
  pub daily_events : List Complaint

pub record OwnerDashboardData (Float : Type 0) : Type 0 where
  pub total_complaints : ℕ
  pub total_critical : ℕ
  pub total_high : ℕ
  pub total_resolved : ℕ
  pub resolution_rate : Float
  pub by_property : List (Uuid × ℕ)
  pub by_category : List (ComplaintCategory × ℕ)
  pub by_status : List (ComplaintStatus × ℕ)
  pub critical_complaints : List Complaint

pub record StaffDashboardData : Type 0 where
  pub my_complaints_count : ℕ
  pub pending_resolution : ℕ
  pub resolved_by_me : ℕ
  pub assigned_to_me : ℕ
  pub my_complaints : List Complaint
  pub complaints_assigned_to_me : List Complaint

-- The counts by priority and by status are fields here.
pub record Statistics (Float : Type 0) : Type 0 where
  pub total : ℕ
  pub critical : ℕ
  pub high : ℕ
  pub medium : ℕ
  pub low : ℕ
  pub opened : ℕ
  pub in_progress : ℕ
  pub resolved : ℕ
  pub escalated : ℕ
  pub closed : ℕ
  pub average_resolution_time : Float

abbrev pub priority_of : Complaint → ComplaintPriority
priority_of c = c.priority

abbrev pub state_of : Complaint → ComplaintStatus
state_of c = c.status

abbrev pub category_of : Complaint → ComplaintCategory
category_of c = c.category

abbrev pub type_of : Complaint → ComplaintType
type_of c = c.complaint_type

abbrev pub place_of : Complaint → Uuid
place_of c = c.property_id

-- Live complaints of the caller's tenant that meet a further condition.
unfoldable pub live_complaints :
    {Float : Type 0} → ComplaintService → (Complaint → Bool) → Db Float → List Complaint
live_complaints service p d =
    select (λ c. p c && (c.tenant_id == service.tenant_id && not c.is_deleted))
      d.complaint_log.complaints

-- From the selected complaints. `now` is the clock of the whole call.
unfoldable pub manager_data : ℕ → List Complaint → ManagerDashboardData
unfolding tally_from attention_row event_of order_by_desc
manager_data now cs = record {
  total_complaints = length cs;
  open_complaints = count_where (has_status ComplaintStatus.opened) cs;
  in_progress_count = count_where (has_status ComplaintStatus.in_progress) cs;
  resolved_today = count_where (is_resolved_on now) cs;
  escalated_count = count_where (has_status ComplaintStatus.escalated) cs;
  by_priority = tally priority_eq (map priority_of cs);
  by_status = tally status_eq (map state_of cs);
  by_category = tally category_eq (map category_of cs);
  by_type = tally type_eq (map type_of cs);
  recent_complaints = take 10 (order_by_desc filed_at cs);
  need_attention = map (attention_row now) (select needs_attention cs);
  daily_events = take 20 (map event_of (select (λ c. date_of c.created_at == date_of now) cs));
}

unfoldable pub staff_data : Uuid → List Complaint → List Complaint → StaffDashboardData
staff_data user_id filed assigned = record {
  my_complaints_count = length filed;
  pending_resolution = count_where (λ c. not (has_status ComplaintStatus.resolved c)) filed;
  resolved_by_me = count_where (λ c. opt_eq c.resolved_by (some user_id)) filed;
  assigned_to_me = length assigned;
  my_complaints = take 10 filed;
  complaints_assigned_to_me = take 10 assigned;
}

-- The hours from filing to resolution of those that were resolved.
unfoldable pub resolution_hours : {Float : Type 0} → Runtime Float → List Complaint → List Float
resolution_hours rt [] = []
resolution_hours rt (c ∷ cs) = elim c.resolved_at [
  | none ↦ resolution_hours rt cs
  | some t ↦
      rt.div
        (rt.total_seconds
          (if leb c.created_at t then pos (t - c.created_at) else negsuc (c.created_at - t - 1)))
        (rt.of_int (pos 3600))
      ∷ resolution_hours rt cs
]

module _ {Float : Type 0} (rt : Runtime Float) where
  unfoldable pub average_resolution : List Complaint → Float
  unfolding resolution_hours
  average_resolution cs = elim (resolution_hours rt cs) [
    | [] ↦ rt.of_int (pos 0)
    | x ∷ xs ↦ rt.round2 (rt.div (rt.sum (x ∷ xs)) (rt.of_int (pos (length (x ∷ xs)))))
  ]

  unfoldable pub owner_data : List Complaint → OwnerDashboardData Float
  unfolding tally_from
  owner_data cs = record {
    total_complaints = length cs;
    total_critical = count_where (has_priority ComplaintPriority.critical) cs;
    total_high = count_where (has_priority ComplaintPriority.high) cs;
    total_resolved = count_where (has_status ComplaintStatus.resolved) cs;
    resolution_rate =
        if ltb 0 (length cs)
        then rt.mul
            (rt.div (rt.of_int (pos (count_where (has_status ComplaintStatus.resolved) cs)))
              (rt.of_int (pos (length cs))))
            (rt.of_int (pos 100))
        else rt.of_int (pos 0);
    by_property = tally ◌==◌ (map place_of cs);
    by_category = tally category_eq (map category_of cs);
    by_status = tally status_eq (map state_of cs);
    critical_complaints = take 20 (select (has_priority ComplaintPriority.critical) cs);
  }

  unfoldable pub statistics_of : List Complaint → Statistics Float
  unfolding average_resolution
  statistics_of cs = record {
    total = length cs;
    critical = count_where (has_priority ComplaintPriority.critical) cs;
    high = count_where (has_priority ComplaintPriority.high) cs;
    medium = count_where (has_priority ComplaintPriority.medium) cs;
    low = count_where (has_priority ComplaintPriority.low) cs;
    opened = count_where (has_status ComplaintStatus.opened) cs;
    in_progress = count_where (has_status ComplaintStatus.in_progress) cs;
    resolved = count_where (has_status ComplaintStatus.resolved) cs;
    escalated = count_where (has_status ComplaintStatus.escalated) cs;
    closed = count_where (has_status ComplaintStatus.closed) cs;
    average_resolution_time = average_resolution cs;
  }

  unfoldable pub get_owner_dashboard :
      ComplaintService → Action (Db Float) (OwnerDashboardData Float)
  unfolding owner_data live_complaints
  get_owner_dashboard service =
      gets (λ (d : Db Float). owner_data (live_complaints service (λ _. true) d))

  -- `status` is that of the filters, the only one that is used.
  unfoldable pub get_statistics :
      ComplaintService → Option ComplaintStatus → Action (Db Float) (Statistics Float)
  unfolding statistics_of live_complaints
  get_statistics service status = gets (λ (d : Db Float). statistics_of (
      live_complaints service
        (λ c.
          (is_owner service.user_role || opt_eq (some c.property_id) service.property_id)
          && if_given status (status_eq c.status))
        d))

module _ {Float : Type 0} where
  unfoldable pub get_manager_dashboard :
      ℕ → ComplaintService → Action (Db Float) ManagerDashboardData
  unfolding manager_data live_complaints
  get_manager_dashboard now service = gets (λ (d : Db Float).
      manager_data now
        (live_complaints service (λ c. opt_eq (some c.property_id) service.property_id) d))

  unfoldable pub get_staff_dashboard : ComplaintService → Action (Db Float) StaffDashboardData
  unfolding staff_data live_complaints
  get_staff_dashboard service = gets (λ (d : Db Float).
      staff_data service.user_id
        (live_complaints service (λ c. opt_eq c.created_by (some service.user_id)) d)
        (live_complaints service (λ c. opt_eq c.assigned_to (some service.user_id)) d))
