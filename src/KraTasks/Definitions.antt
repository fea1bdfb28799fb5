-- ===== src/KraTasks/Definitions.antt =====
-- app/services/kra_task_service.py: creating, listing and changing the definitions of tasks.
pub mod Fixed
use ski_tech_backend.Base.{
  ℕ, Bool, true, false, not, ◌&&◌, ◌||◌, Option, none, some, List, [], ◌∷◌, ◌++◌, String, ◌==◌,
  if◌then◌else◌, get_or, any, select, update_row, order_by, order_by_desc,
}
use ski_tech_backend.Runtime.{Uuid}
use ski_tech_backend.Session.{
  Action, task_not_found, frequency_fixed, pure, raise_if, gets, or_raise, modify, commit, ◌>>=◌,
  ◌>>◌,
}
use ski_tech_backend.Models.{Token, Db}
use ski_tech_backend.Models.Kra.{
  Frequency, daily, weekly, monthly, quarterly, KraDefinition, KraAssignment, KraOccurrence,
}
use ski_tech_backend.Scope.{caller_tenant, user_uuid}
use ski_tech_backend.KraTasks.{in_scope}
use ski_tech_backend.KraTasks.Calendar.{Date}
use ski_tech_backend.KraTasks.Ensure.{EnsureArgs, EnsureResult, matches, ensure_occurrences}
use ski_tech_backend.KraTasks.Access.{require_manager_now, scope_filter, definition_in_scope}

pub record DefinitionCreate : Type 0 where
  pub property_id : Uuid
  pub title : String
  pub description : Option String
  pub frequency : Frequency
  pub value_label : Option String

-- A field that was not sent is `none`; two fields may be sent as null.
pub record DefinitionUpdate : Type 0 where
  pub title : Option String
  pub description : Option (Option String)
  pub value_label : Option (Option String)
  pub is_active : Option Bool
  pub frequency : Option Frequency

abbrev pub frequency_eq : Frequency → Frequency → Bool
frequency_eq daily daily = true
frequency_eq weekly weekly = true
frequency_eq monthly monthly = true
frequency_eq quarterly quarterly = true
frequency_eq _ _ = false

abbrev pub definition_key : KraDefinition → Uuid
definition_key k = k.id

unfoldable pub new_definition : Uuid → Uuid → Uuid → Uuid → DefinitionCreate → KraDefinition
new_definition new_id tenant_id property_id caller data_in = record {
  id = new_id;
  tenant_id = tenant_id;
  property_id = property_id;
  title = data_in.title;
  description = data_in.description;
  frequency = data_in.frequency;
  value_label = data_in.value_label;
  created_by = some caller;
  is_active = true;
  is_deleted = false;
}

-- `"frequency" in changes and changes["frequency"] != definition.frequency`
abbrev pub changes_frequency : Option Frequency → Frequency → Bool
changes_frequency none old = false
changes_frequency (some f) old = not (frequency_eq f old)

-- The `setattr` of every field that was sent.
unfoldable pub changed_definition : DefinitionUpdate → KraDefinition → KraDefinition
changed_definition data_in k = record k {
  title = get_or data_in.title k.title;
  description = get_or data_in.description k.description;
  value_label = get_or data_in.value_label k.value_label;
  is_active = get_or data_in.is_active k.is_active;
  frequency = get_or data_in.frequency k.frequency;
}

abbrev pub is_assignment_to : Uuid → KraAssignment → Bool
is_assignment_to definition_id a = a.definition_id == definition_id

unfoldable pub restarted : Date → Uuid → List KraAssignment → List KraAssignment
restarted utc_today definition_id [] = []
restarted utc_today definition_id (a ∷ rest) =
    (if a.definition_id == definition_id && a.is_active
      then record a { start_date = utc_today }
      else a)
    ∷ restarted utc_today definition_id rest

-- The arguments of the last generation before a task is made inactive.
abbrev pub only_of : KraDefinition → Date → EnsureArgs
only_of k utc_today = record {
  tenant_id = k.tenant_id;
  assignee_id = none;
  property_id = none;
  definition_id = some k.id;
  only_assignment_id = none;
  up_to_date = utc_today;
}

module _ {Float : Type 0} where
  unfoldable pub add_definition : KraDefinition → Db Float → Db Float
  add_definition k d = record d { kra_definitions = d.kra_definitions ++ k ∷ [] }

  unfoldable pub save_definition : KraDefinition → Db Float → Db Float
  save_definition k d = record d {
    kra_definitions = update_row definition_key k.id (λ _. k) d.kra_definitions;
  }

  unfoldable pub restart_assignments : Date → Uuid → Db Float → Db Float
  unfolding restarted
  restart_assignments utc_today definition_id d = record d {
    kra_assignments = restarted utc_today definition_id d.kra_assignments;
  }

  unfoldable pub create_definition :
      Uuid → Token → DefinitionCreate → Action (Db Float) KraDefinition
  unfolding new_definition add_definition
  create_definition new_id user data_in = do
    require_manager_now user
    property_id ← in_scope data_in.property_id user
    tenant_id ← or_raise (caller_tenant user) task_not_found
    caller ← user_uuid user
    modify (add_definition (new_definition new_id tenant_id property_id caller data_in))
    commit
    pure (new_definition new_id tenant_id property_id caller data_in)

  -- `created_at` gives the time at which a definition was added.
  unfoldable pub list_definitions :
      (Uuid → ℕ) → Token → Option Uuid → Action (Db Float) (List KraDefinition)
  unfolding order_by order_by_desc
  list_definitions created_at user property_id = do
    require_manager_now user
    scope ← scope_filter user property_id
    tenant_id ← or_raise (caller_tenant user) task_not_found
    gets (λ (d : Db Float).
        order_by_desc (λ k. created_at k.id)
          (order_by definition_key (
            select
              (λ k. k.tenant_id == tenant_id && (not k.is_deleted && matches scope k.property_id))
              d.kra_definitions)))

  -- What a change of `is_active` does before it is stored.
  unfoldable pub switch_generation :
      (Uuid → Date → Uuid)
      → List KraOccurrence
      → Date
      → Option Bool
      → KraDefinition
      → Action (Db Float) (Unit {0})
  unfolding restart_assignments
  switch_generation new_id rivals utc_today none k = pure tt
  switch_generation new_id rivals utc_today (some false) k =
      if k.is_active
      then (do generated ← ensure_occurrences new_id rivals (only_of k utc_today); pure tt)
      else pure tt
  switch_generation new_id rivals utc_today (some true) k =
      if k.is_active then pure tt else modify (restart_assignments utc_today k.id)

  -- The change of a definition that is found.
  unfoldable pub change_definition :
      (Uuid → Date → Uuid)
      → List KraOccurrence
      → Date
      → DefinitionUpdate
      → KraDefinition
      → Action (Db Float) KraDefinition
  unfolding switch_generation changed_definition save_definition
  change_definition new_id rivals utc_today data_in k = do
    used ← gets (λ (d : Db Float). any (is_assignment_to k.id) d.kra_assignments)
    raise_if (changes_frequency data_in.frequency k.frequency && used) frequency_fixed
    switch_generation new_id rivals utc_today data_in.is_active k
    modify (save_definition (changed_definition data_in k))
    commit
    pure (changed_definition data_in k)

  unfoldable pub update_definition :
      (Uuid → Date → Uuid)
      → List KraOccurrence
      → Date
      → Token
      → Uuid
      → DefinitionUpdate
      → Action (Db Float) KraDefinition
  unfolding change_definition
  update_definition new_id rivals utc_today user id data_in = do
    require_manager_now user
    definition ← definition_in_scope user id
    change_definition new_id rivals utc_today data_in definition
