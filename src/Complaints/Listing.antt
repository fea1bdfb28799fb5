-- ===== src/Complaints/Listing.antt =====
-- app/services/complaint_service.py: the lists of complaints.
pub mod Pages
use ski_tech_backend.Base.{
  ℕ, ◌+◌, Bool, true, false, not, ◌&&◌, ◌||◌, Option, none, some, List, [], ◌∷◌, String, str_eq,
  ◌==◌, leb, if◌then◌else◌, get_or, opt_eq, select, take, drop, length, order_by_desc, truthy,
}
use ski_tech_backend.Runtime.{Uuid}
use ski_tech_backend.Text.{joined}
use ski_tech_backend.Session.{Action, gets}
use ski_tech_backend.Models.{Db}
use ski_tech_backend.Models.Complaints.{
  ComplaintPriority, ComplaintStatus, ComplaintType, ComplaintCategory, priority_eq, status_eq,
  type_eq, category_eq, Complaint, ComplaintTables,
}
use ski_tech_backend.Complaints.{is_owner, ComplaintService}

pub record ComplaintFilterParams : Type 0 where
  pub status : Option ComplaintStatus
  pub priority : Option ComplaintPriority
  pub category : Option ComplaintCategory
  pub complaint_type : Option ComplaintType
  pub assigned_to : Option Uuid
  pub created_by : Option Uuid
  pub date_from : Option ℕ
  pub date_to : Option ℕ
  pub room_number : Option String
  pub search : Option String

abbrev pub no_filters : ComplaintFilterParams
no_filters = record {
  status = none;
  priority = none;
  category = none;
  complaint_type = none;
  assigned_to = none;
  created_by = none;
  date_from = none;
  date_to = none;
  room_number = none;
  search = none;
}

-- A condition that is made where its filter is given.
abbrev pub if_given {ℓ} : {A : Type ℓ} → Option A → (A → Bool) → Bool
if_given none p = true
if_given (some a) p = p a

abbrev pub if_text : Option String → (String → Bool) → Bool
if_text t p = if truthy t then p (get_or t "") else true

-- An equality with a column that may be null.
abbrev pub holds_text : Option String → String → Bool
holds_text none t = false
holds_text (some s) t = str_eq s t

-- The live complaints of the tenant, for all but owners those of the caller's property. A staff
-- caller is not limited to their own here: `list_staff_complaints` adds that.
unfoldable pub is_visible_to : ComplaintService → Complaint → Bool
is_visible_to service c =
    c.tenant_id == service.tenant_id
    && (not c.is_deleted
        && (is_owner service.user_role || opt_eq (some c.property_id) service.property_id))

-- `ilike` is the database's operator.
unfoldable pub is_match : (String → String → Bool) → ComplaintFilterParams → Complaint → Bool
is_match ilike filters c =
    if_given filters.status (status_eq c.status)
    && (if_given filters.priority (priority_eq c.priority)
        && (if_given filters.category (category_eq c.category)
            && (if_given filters.complaint_type (type_eq c.complaint_type)
                && (if_given filters.assigned_to (λ u. opt_eq c.assigned_to (some u))
                    && (if_given filters.created_by (λ u. opt_eq c.created_by (some u))
                        && (if_text filters.room_number (holds_text c.room_number)
                            && (if_given filters.date_from (λ t. leb t c.created_at)
                                && (if_given filters.date_to (λ t. leb c.created_at t)
                                    && if_text filters.search (λ t.
                                      ilike c.title (joined ("%" ∷ t ∷ "%" ∷ []))
                                      || (ilike c.description (joined ("%" ∷ t ∷ "%" ∷ []))
                                          || holds_text c.room_number t))))))))))

abbrev pub filed_at : Complaint → ℕ
filed_at c = c.created_at

module _ {Float : Type 0} where
  unfoldable pub listed_rows :
      (String → String → Bool)
      → ComplaintService
      → ComplaintFilterParams
      → Db Float
      → List Complaint
  unfolding is_visible_to is_match
  listed_rows ilike service filters d =
      select (λ c. is_visible_to service c && is_match ilike filters c) d.complaint_log.complaints

  -- `arrange` is the order in which the database reads the rows, which it is free to choose, and
  -- which decides between complaints of one time.
  unfoldable pub list_complaints :
      (List Complaint → List Complaint)
      → (String → String → Bool)
      → ComplaintService
      → ComplaintFilterParams
      → ℕ
      → ℕ
      → Action (Db Float) (List Complaint × ℕ)
  unfolding listed_rows order_by_desc
  list_complaints arrange ilike service filters skip limit = gets (λ (d : Db Float). (
    take limit (drop skip (order_by_desc filed_at (arrange (listed_rows ilike service filters d)))),
    length (listed_rows ilike service filters d),
  ))

  unfoldable pub list_staff_complaints :
      (List Complaint → List Complaint)
      → (String → String → Bool)
      → ComplaintService
      → ℕ
      → ℕ
      → Action (Db Float) (List Complaint × ℕ)
  unfolding list_complaints
  list_staff_complaints arrange ilike service skip limit =
      list_complaints arrange ilike service
        (record no_filters { created_by = some service.user_id }) skip limit

  unfoldable pub list_assigned_complaints :
      (List Complaint → List Complaint)
      → (String → String → Bool)
      → ComplaintService
      → ℕ
      → ℕ
      → Action (Db Float) (List Complaint × ℕ)
  unfolding list_complaints
  list_assigned_complaints arrange ilike service skip limit =
      list_complaints arrange ilike service
        (record no_filters { assigned_to = some service.user_id }) skip limit
