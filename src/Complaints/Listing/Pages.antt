-- ===== src/Complaints/Listing/Pages.antt =====
-- The pages of a list of complaints.
use ski_tech_backend.Base.{
  ◌≤◌, ◌≡◌, Bool, not, ◌&&◌, ◌||◌, some, ◌==◌, All, List, [], ◌∷◌, count_where, opt_eq, String,
}
use ski_tech_backend.Session.{Session}
use ski_tech_backend.Models.Complaints.{Complaint}
use ski_tech_backend.Complaints.{ComplaintService, is_owner}
use ski_tech_backend.Complaints.Listing.{ComplaintFilterParams, is_match}

-- A reading order: each row as often as it is there.
abbrev pub IsScan : (List Complaint → List Complaint) → Type 0
IsScan arrange =
    (p : Complaint → Bool) (rows : List Complaint)
    → count_where p (arrange rows) ≡ count_where p rows

-- Newest first.
abbrev pub IsNewestFirst : List Complaint → Type 0
IsNewestFirst [] = Unit
IsNewestFirst (c ∷ cs) = All (λ x. x.created_at ≤ c.created_at) cs × IsNewestFirst cs

-- What a list is over: the live complaints of the tenant that meet the filters, for all but owners
-- those of the caller's property.
abbrev pub is_listed :
    (String → String → Bool) → ComplaintService → ComplaintFilterParams → Complaint → Bool
is_listed ilike service filters c =
    (c.tenant_id == service.tenant_id
      && (not c.is_deleted
          && (is_owner service.user_role || opt_eq (some c.property_id) service.property_id)))
    && is_match ilike filters c
