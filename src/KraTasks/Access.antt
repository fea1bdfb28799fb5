-- ===== src/KraTasks/Access.antt =====
-- app/services/kra_task_service.py: who may manage tasks, and of which property.
use ski_tech_backend.Base.{
  ◌-◌, Bool, true, false, not, ◌&&◌, ◌||◌, Option, none, some, str_eq, ◌==◌, ltb, if◌then◌else◌,
  is_none, opt_eq, select, first,
}
use ski_tech_backend.Runtime.{Uuid}
use ski_tech_backend.Session.{
  Action, Error, task_not_found, task_role_changed, no_property_assigned, managers_assign_staff,
  only_staff_and_managers, value_error, today_out_of_range, pure, raise_if, gets, or_raise, ◌>>=◌,
  ◌>>◌,
}
use ski_tech_backend.Models.{
  RoleName, super_admin, tenant_admin, co_admin, manager, staff, other_role, Token, Db,
}
use ski_tech_backend.Models.Kra.{KraDefinition}
use ski_tech_backend.Scope.{assigned_property, caller_tenant, current_role, is_manager}
use ski_tech_backend.KraTasks.{in_scope}
use ski_tech_backend.KraTasks.Calendar.{Date}

abbrev pub role_eq : RoleName → RoleName → Bool
role_eq super_admin super_admin = true
role_eq tenant_admin tenant_admin = true
role_eq co_admin co_admin = true
role_eq manager manager = true
role_eq staff staff = true
role_eq (other_role a) (other_role b) = str_eq a b
role_eq _ _ = false

abbrev pub same_role : Option RoleName → Option RoleName → Bool
same_role none none = true
same_role (some a) (some b) = role_eq a b
same_role _ _ = false

-- `abs((today - utc_today).days) > 1`
unfoldable pub validate_client_today : {D : Type 0} → Date → Date → Action D (Unit {0})
validate_client_today utc_today today =
    raise_if (ltb 1 (today - utc_today) || ltb 1 (utc_today - today))
      (value_error today_out_of_range)

module _ {Float : Type 0} where
  unfoldable pub require_manager_now : Token → Action (Db Float) (Unit {0})
  require_manager_now user = do
    stored ← gets (current_role user)
    raise_if (not (same_role stored user.role)) task_role_changed

  -- `_scope_filter`
  unfoldable pub scope_filter : Token → Option Uuid → Action (Db Float) (Option Uuid)
  scope_filter user (some property_id) = do checked ← in_scope property_id user; pure (some checked)
  scope_filter user none = do
    raise_if (is_none (assigned_property user) && is_manager user.role) no_property_assigned
    pure (assigned_property user)

  unfoldable pub find_live_definition : Uuid → Uuid → Db Float → Option KraDefinition
  find_live_definition id tenant_id d =
      first (
        select (λ k. k.id == id && (k.tenant_id == tenant_id && not k.is_deleted))
          d.kra_definitions)

  -- `_definition_in_scope`
  unfoldable pub definition_in_scope : Token → Uuid → Action (Db Float) KraDefinition
  definition_in_scope user id = do
    tenant_id ← or_raise (caller_tenant user) task_not_found
    found ← gets (find_live_definition id tenant_id)
    definition ← or_raise found task_not_found
    checked ← in_scope definition.property_id user
    pure definition

-- `_check_assignable`: why a target may not be assigned, if it may not.
unfoldable pub not_assignable : Token → KraDefinition → RoleName → Option Uuid → Option Error
not_assignable user definition staff target_property =
    if opt_eq target_property (some definition.property_id) then none else some task_not_found
not_assignable user definition manager target_property =
    if is_manager user.role
    then (if opt_eq target_property (some definition.property_id)
        then some managers_assign_staff
        else some task_not_found)
    else if not (opt_eq target_property (some definition.property_id))
        && not (is_none target_property)
    then some task_not_found
    else none
not_assignable user definition _ target_property = some only_staff_and_managers
