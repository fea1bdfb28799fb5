-- ===== src/Scope.antt =====
-- app/services/geofence_scope.py: which property a caller may work with, and the role that is
-- stored for them now.
pub mod Laws
use ski_tech_backend.Base.{
  Bool, true, false, ◌&&◌, not, Option, none, some, ◌==◌, if◌then◌else◌, select, first, is_none,
}
use ski_tech_backend.Runtime.{Uuid}
use ski_tech_backend.Session.{
  Action, property_not_in_scope, value_error, malformed_uuid, pure, raise_if, gets, or_raise, ◌>>=◌,
  ◌>>◌,
}
use ski_tech_backend.Models.{
  RoleName, super_admin, tenant_admin, co_admin, manager, staff, User, Property, Claim, absent,
  malformed, uuid, Token, Db,
}

-- `role in GEOFENCE_ADMIN_ROLES`
abbrev pub is_geofence_admin : Option RoleName → Bool
is_geofence_admin (some super_admin) = true
is_geofence_admin (some tenant_admin) = true
is_geofence_admin (some co_admin) = true
is_geofence_admin (some _) = false
is_geofence_admin none = false

abbrev pub is_manager : Option RoleName → Bool
is_manager (some manager) = true
is_manager (some _) = false
is_manager none = false

abbrev pub is_staff : RoleName → Bool
is_staff staff = true
is_staff _ = false

-- `role in ("Tenant Admin", "Super Admin")`
abbrev pub is_tenant_wide : Option RoleName → Bool
is_tenant_wide (some super_admin) = true
is_tenant_wide (some tenant_admin) = true
is_tenant_wide (some _) = false
is_tenant_wide none = false

-- `role in ("Manager", "Staff")`
abbrev pub is_property_bound : Option RoleName → Bool
is_property_bound (some manager) = true
is_property_bound (some staff) = true
is_property_bound (some _) = false
is_property_bound none = false

abbrev pub as_uuid : Claim → Option Uuid
as_uuid absent = none
as_uuid malformed = none
as_uuid (uuid u) = some u

abbrev pub assigned_property : Token → Option Uuid
assigned_property user = if is_tenant_wide user.role then none else as_uuid user.property_id

abbrev pub caller_tenant : Token → Option Uuid
caller_tenant user = as_uuid user.tenant_id

-- `UUID(str(user["user_id"]))` of the request services; it raises unless the claim holds a UUID.
abbrev pub user_uuid : {D : Type 0} → Token → Action D Uuid
user_uuid user = or_raise (as_uuid user.user_id) (value_error malformed_uuid)

-- `limited_to is not None and limited_to != prop_id`
abbrev pub is_elsewhere : Option Uuid → Uuid → Bool
is_elsewhere none prop_id = false
is_elsewhere (some limit) prop_id = not (limit == prop_id)

abbrev role_of : Option User → Option RoleName
role_of none = none
role_of (some u) = some u.role_name

module _ {Float : Type 0} where
  -- The live property of a tenant with one id, as the queries select it.
  abbrev pub find_property : Uuid → Uuid → Db Float → Option Property
  find_property prop_id tenant_id d =
      first (
        select (λ p. p.id == prop_id && (p.tenant_id == tenant_id && not p.is_deleted))
          d.properties)

  -- The property's id, if the caller may work with it.
  unfoldable pub property_in_scope : Uuid → Token → Action (Db Float) Uuid
  property_in_scope prop_id user = do
    tenant_id ← or_raise (caller_tenant user) property_not_in_scope
    raise_if (is_property_bound user.role && is_none (assigned_property user)) property_not_in_scope
    raise_if (is_elsewhere (assigned_property user) prop_id) property_not_in_scope
    found ← gets (find_property prop_id tenant_id)
    raise_if (is_none found) property_not_in_scope
    pure prop_id

  -- The role as stored now; none if the account is gone or inactive.
  unfoldable pub current_role : Token → Db Float → Option RoleName
  current_role user d = elim (as_uuid user.user_id) [
    | none ↦ none
    | some user_id ↦
        role_of (first (select (λ u. u.id == user_id && (u.is_active && not u.is_deleted)) d.users))
  ]

  unfoldable pub still_geofence_admin : Token → Db Float → Bool
  unfolding current_role
  still_geofence_admin user d = is_geofence_admin (current_role user d)
