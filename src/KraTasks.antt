-- ===== src/KraTasks.antt =====
-- app/services/kra_task_service.py: the states of a task's occurrence.
pub mod Calendar
pub mod Periods
pub mod Ensure
pub mod Access
pub mod Assign
pub mod Definitions
pub mod Summary
pub mod Monitoring
pub mod States
use ski_tech_backend.Base.{
  ℕ, Bool, true, false, not, ◌&&◌, Option, none, some, List, [], ◌∷◌, String, ◌==◌, if◌then◌else◌,
  is_none, is_some, get_or, select, first, update_row, truthy,
}
use ski_tech_backend.Runtime.{Runtime, Uuid, Instant, DateTime, naive}
use ski_tech_backend.Text.{strip, joined}
use ski_tech_backend.Session.{
  Action, Result, ok, err, Error, property_not_in_scope, task_not_found, not_assignee, task_closed,
  no_result_found, value_error, takes_no_value, pure, raise_if, gets, or_raise, modify, commit,
  ◌>>=◌, ◌>>◌,
}
use ski_tech_backend.Models.{User, Token, Db}
use ski_tech_backend.Models.Kra.{
  Frequency, daily, weekly, monthly, quarterly, OccurrenceStatus, is_pending, is_completed,
  KraDefinition, KraOccurrence,
}
use ski_tech_backend.Scope.{caller_tenant, user_uuid, property_in_scope}
use ski_tech_backend.Inbox.{ItemFields, notify}

abbrev pub inbox_module : String
inbox_module = "kra"

-- `OccurrenceComplete`.
pub record CompletionData : Type 0 where
  pub remark : Option String
  pub value : Option ℕ

abbrev pub occurrence_id : KraOccurrence → Uuid
occurrence_id o = o.id

-- `frequency.capitalize()`
capitalized : Frequency → String
capitalized daily = "Daily"
capitalized weekly = "Weekly"
capitalized monthly = "Monthly"
capitalized quarterly = "Quarterly"

-- The name of a user by `names_for`: none for a user without one.
unfoldable pub full_name : User → Option String
full_name u =
    let name = strip (joined (get_or u.first_name "" ∷ " " ∷ get_or u.last_name "" ∷ [])) in
    if truthy (some name) then some name else none

unfoldable pub name_of : Option User → Option String
unfolding full_name
name_of none = none
name_of (some u) = full_name u

abbrev as_not_found : Error → Error
as_not_found property_not_in_scope = task_not_found
as_not_found e = e

abbrev with_not_found : {A B : Type 0} → Result A × B → Result A × B
with_not_found (ok a, s) = (ok a, s)
with_not_found (err e, s) = (err (as_not_found e), s)

unfoldable pub delayed_occurrence : Instant → Option String → KraOccurrence → KraOccurrence
delayed_occurrence now reason o = record o {
  status = OccurrenceStatus.delayed;
  was_delayed = true;
  delayed_at = some (naive now);
  delay_reason = reason;
}

unfoldable pub completed_occurrence : Instant → CompletionData → KraOccurrence → KraOccurrence
completed_occurrence now data_in o = record o {
  status = OccurrenceStatus.completed;
  completed_at = some (naive now);
  completion_note = data_in.remark;
  completion_value = data_in.value;
}

module _ {Float : Type 0} where
  -- `_in_scope`
  unfoldable pub in_scope : Uuid → Token → Action (Db Float) Uuid
  in_scope property_id user s = with_not_found (property_in_scope property_id user s)

  unfoldable pub find_occurrence : Uuid → Uuid → Db Float → Option KraOccurrence
  find_occurrence id tenant_id d =
      first (select (λ o. o.id == id && o.tenant_id == tenant_id) d.kra_occurrences)

  unfoldable pub find_definition : Uuid → Db Float → Option KraDefinition
  find_definition id d = first (select (λ k. k.id == id) d.kra_definitions)

  unfoldable pub ensure_assignee : KraOccurrence → Uuid → Token → Action (Db Float) (Unit {0})
  ensure_assignee occurrence caller user =
      if occurrence.assignee_id == caller
      then pure tt
      else (do property_id ← in_scope occurrence.property_id user; raise_if true not_assignee)

  -- `_own_occurrence`
  unfoldable pub own_occurrence : Token → Uuid → Action (Db Float) KraOccurrence
  own_occurrence user id = do
    tenant_id ← or_raise (caller_tenant user) task_not_found
    found ← gets (find_occurrence id tenant_id)
    occurrence ← or_raise found task_not_found
    caller ← user_uuid user
    ensure_assignee occurrence caller user
    pure occurrence

  unfoldable pub save_occurrence : KraOccurrence → Db Float → Db Float
  save_occurrence o d = record d {
    kra_occurrences = update_row occurrence_id o.id (λ _. o) d.kra_occurrences;
  }

module _ {Float : Type 0} (rt : Runtime Float) where
  delay_item : Uuid → KraOccurrence → KraDefinition → Option String → ItemFields
  delay_item item_id o k name = record {
    new_id = item_id;
    tenant_id = o.tenant_id;
    property_id = some o.property_id;
    source_module = inbox_module;
    item_type = "kra_delayed";
    source_record_id = o.id;
    recipient_user_id = none;
    recipient_role = some "manager";
    title = joined (get_or name "A team member" ∷ " marked '" ∷ k.title ∷ "' as delayed" ∷ []);
    body = joined (
        capitalized k.frequency
        ∷ " task for "
        ∷ rt.show_date o.period_start
        ∷ " to "
        ∷ rt.show_date o.period_end
        ∷ "."
        ∷ []);
  }

  unfoldable pub notify_managers : Bool → Uuid → KraOccurrence → KraDefinition → Db Float → Db Float
  unfolding notify delay_item name_of capitalized
  notify_managers write_fails item_id o k d = record d {
    inbox_items =
        notify write_fails
          (delay_item item_id o k (name_of (first (select (λ u. u.id == o.assignee_id) d.users))))
          d.inbox_items;
  }

  unfoldable pub delay_occurrence :
      Bool → Uuid → Instant → Token → Uuid → Option String → Action (Db Float) KraOccurrence
  delay_occurrence write_fails item_id now user id reason = do
    occurrence ← own_occurrence user id
    raise_if (not (is_pending occurrence.status)) task_closed
    modify (save_occurrence (delayed_occurrence now reason occurrence))
    found ← gets (find_definition occurrence.definition_id)
    definition ← or_raise found no_result_found
    modify
        (notify_managers write_fails item_id (delayed_occurrence now reason occurrence) definition)
    commit
    pure (delayed_occurrence now reason occurrence)

module _ {Float : Type 0} where
  unfoldable pub complete_occurrence :
      Instant → Token → Uuid → CompletionData → Action (Db Float) KraOccurrence
  complete_occurrence now user id data_in = do
    occurrence ← own_occurrence user id
    raise_if (is_completed occurrence.status) task_closed
    found ← gets (find_definition occurrence.definition_id)
    definition ← or_raise found no_result_found
    raise_if (is_some data_in.value && is_none definition.value_label) (value_error takes_no_value)
    modify (save_occurrence (completed_occurrence now data_in occurrence))
    commit
    pure (completed_occurrence now data_in occurrence)
