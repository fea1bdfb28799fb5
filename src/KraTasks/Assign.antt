-- ===== src/KraTasks/Assign.antt =====
-- app/services/kra_task_service.py: giving a task to users, and ending that.
pub mod Single
pub mod Given
use ski_tech_backend.Base.{
  ℕ, Bool, true, false, not, ◌&&◌, ◌||◌, Option, none, some, List, [], ◌∷◌, ◌++◌, map, String, ◌==◌,
  if◌then◌else◌, get_or, any, contains, select, first, length, update_row,
}
use ski_tech_backend.Runtime.{Uuid, Instant, naive}
use ski_tech_backend.Text.{joined}
use ski_tech_backend.Session.{
  Action, Error, task_not_found, task_inactive, assignment_ended, pure, raise, raise_if, gets,
  or_raise, modify, commit, ◌>>=◌, ◌>>◌,
}
use ski_tech_backend.Models.{User, Token, Db}
use ski_tech_backend.Models.Kra.{
  Frequency, daily, weekly, monthly, quarterly, KraDefinition, KraAssignment, KraOccurrence,
}
use ski_tech_backend.Scope.{caller_tenant, user_uuid}
use ski_tech_backend.Inbox.{ItemFields, notify}
use ski_tech_backend.KraTasks.{inbox_module, in_scope, name_of}
use ski_tech_backend.KraTasks.Calendar.{Date}
use ski_tech_backend.KraTasks.Ensure.{EnsureArgs, ensure_occurrences}
use ski_tech_backend.KraTasks.Access.{
  validate_client_today, require_manager_now, definition_in_scope, not_assignable,
}

-- `list(dict.fromkeys(user_ids))`; `found` holds the ids before.
unfoldable pub without_repeats : List Uuid → List Uuid → List Uuid
without_repeats found [] = []
without_repeats found (u ∷ us) =
    let later = without_repeats (u ∷ found) us in
    if contains found u then without_repeats found us else u ∷ later

-- The first target that may not be assigned decides.
unfoldable pub first_refusal : Token → KraDefinition → List User → Option Error
unfolding not_assignable
first_refusal user definition [] = none
first_refusal user definition (u ∷ us) =
    elim (not_assignable user definition u.role_name u.property_id) [
      | some e ↦ some e
      | none ↦ first_refusal user definition us
    ]

abbrev pub raise_first : {D : Type 0} → Option Error → Action D (Unit {0})
raise_first none s = pure tt s
raise_first (some e) s = raise e s

abbrev pub assignee_of : KraAssignment → Uuid
assignee_of a = a.assignee_id

-- What the unique index `uq_kra_assignment_active` looks at.
abbrev pub is_active_for : Uuid → Uuid → KraAssignment → Bool
is_active_for definition_id assignee_id a =
    a.is_active && (a.definition_id == definition_id && a.assignee_id == assignee_id)

unfoldable pub new_assignment : (Uuid → Uuid) → KraDefinition → Uuid → Date → Uuid → KraAssignment
new_assignment new_id definition caller today target = record {
  id = new_id target;
  tenant_id = definition.tenant_id;
  property_id = definition.property_id;
  definition_id = definition.id;
  assignee_id = target;
  assigned_by = some caller;
  start_date = today;
  is_active = true;
  ended_at = none;
}

-- The insert of active rows that ignores those in conflict with the index: what it leaves, and the
-- rows that it inserted.
unfoldable pub insert_active :
    List KraAssignment → List KraAssignment → List KraAssignment × List KraAssignment
insert_active [] assignments = (assignments, [])
insert_active (r ∷ rows) assignments =
    let later = insert_active rows (assignments ++ r ∷ []) in
    if any (is_active_for r.definition_id r.assignee_id) assignments
    then insert_active rows assignments
    else (later.0, r ∷ later.1)

frequency_text : Frequency → String
frequency_text daily = "daily"
frequency_text weekly = "weekly"
frequency_text monthly = "monthly"
frequency_text quarterly = "quarterly"

assigned_item : Uuid → KraDefinition → String → KraAssignment → ItemFields
unfolding frequency_text
assigned_item item_id definition assigner a = record {
  new_id = item_id;
  tenant_id = definition.tenant_id;
  property_id = some definition.property_id;
  source_module = inbox_module;
  item_type = "kra_assigned";
  source_record_id = a.id;
  recipient_user_id = some a.assignee_id;
  recipient_role = none;
  title = joined (
      "New KRA assigned: "
      ∷ definition.title
      ∷ " ("
      ∷ frequency_text definition.frequency
      ∷ ")"
      ∷ []);
  body = joined (
      assigner
      ∷ " assigned you this "
      ∷ frequency_text definition.frequency
      ∷ " task. It is on your My KRAs page."
      ∷ []);
}

abbrev pub assignment_id : KraAssignment → Uuid
assignment_id a = a.id

unfoldable pub ended : Instant → KraAssignment → KraAssignment
ended now a = record a { is_active = false; ended_at = some (naive now) }

-- The arguments of the last generation before an assignment ends.
abbrev pub only_for : KraAssignment → Date → EnsureArgs
only_for a utc_today = record {
  tenant_id = a.tenant_id;
  assignee_id = none;
  property_id = none;
  definition_id = none;
  only_assignment_id = some a.id;
  up_to_date = utc_today;
}

module _ {Float : Type 0} where
  -- The notifications of the new assignments; `write_fails` and `item_id` are those of each.
  unfoldable pub notify_all :
      (Uuid → Bool)
      → (Uuid → Uuid)
      → KraDefinition
      → String
      → List KraAssignment
      → Db Float
      → Db Float
  unfolding notify assigned_item frequency_text
  notify_all write_fails item_id definition assigner [] d = d
  notify_all write_fails item_id definition assigner (a ∷ rest) d =
      notify_all write_fails item_id definition assigner rest (record d {
        inbox_items =
            notify (write_fails a.id) (assigned_item (item_id a.id) definition assigner a)
              d.inbox_items;
      })

  abbrev pub assigner_name : Uuid → Db Float → String
  assigner_name caller d =
      get_or (name_of (first (select (λ u. u.id == caller) d.users))) "Your manager"

  -- The users who may be asked for: active ones of the task's tenant.
  abbrev pub targets_of : List Uuid → Uuid → Db Float → List User
  targets_of wanted tenant_id d =
      select
        (λ u.
          contains wanted u.id && (u.tenant_id == tenant_id && (u.is_active && not u.is_deleted)))
        d.users

  abbrev pub already_assigned : Uuid → Db Float → List Uuid
  already_assigned definition_id d =
      map assignee_of
        (select (λ a. a.definition_id == definition_id && a.is_active) d.kra_assignments)

  abbrev pub set_assignments : List KraAssignment → Db Float → Db Float
  set_assignments assignments d = record d { kra_assignments = assignments }

  -- The write, once every check has passed. `rivals` are the assignments that others commit
  -- meanwhile. The result has the new assignments, and the ids that were skipped.
  unfoldable pub give_to :
      (Uuid → Uuid)
      → (Uuid → Bool)
      → (Uuid → Uuid)
      → List KraAssignment
      → KraDefinition
      → Uuid
      → Date
      → List Uuid
      → Action (Db Float) (List KraAssignment × List Uuid)
  unfolding new_assignment insert_active
  give_to new_id write_fails item_id rivals definition caller today wanted = do
    already ← gets (already_assigned definition.id)
    let rows =
        map (new_assignment new_id definition caller today)
          (select (λ u. not (contains already u)) wanted)
    before ← gets (λ (d : Db Float). d.kra_assignments ++ rivals)
    assigner ← gets (assigner_name caller)
    modify (set_assignments (insert_active rows before).0)
    modify (notify_all write_fails item_id definition assigner (insert_active rows before).1)
    commit
    pure (
      (insert_active rows before).1,
      select (λ u. not (contains (map assignee_of (insert_active rows before).1) u)) wanted,
    )

  -- `_caller_id(user)` as the rows are made, one for each target: with none it is not evaluated, and
  -- the nil id stands for the caller, which no row then holds.
  unfoldable pub caller_for : Token → List Uuid → Action (Db Float) Uuid
  caller_for user [] = pure 0
  caller_for user (target ∷ targets) = user_uuid user

  unfoldable pub assign_users :
      (Uuid → Uuid)
      → (Uuid → Bool)
      → (Uuid → Uuid)
      → List KraAssignment
      → Date
      → Token
      → Uuid
      → List Uuid
      → Date
      → Action (Db Float) (List KraAssignment × List Uuid)
  unfolding without_repeats first_refusal caller_for give_to
  assign_users new_id write_fails item_id rivals utc_today user id user_ids today = do
    validate_client_today utc_today today
    require_manager_now user
    definition ← definition_in_scope user id
    raise_if (not definition.is_active) task_inactive
    let wanted = without_repeats [] user_ids
    targets ← gets (targets_of wanted definition.tenant_id)
    raise_if (not (length targets == length wanted)) task_not_found
    raise_first (first_refusal user definition targets)
    already ← gets (already_assigned definition.id)
    caller ← caller_for user (select (λ u. not (contains already u)) wanted)
    give_to new_id write_fails item_id rivals definition caller today wanted

  unfoldable pub find_assignment : Uuid → Uuid → Db Float → Option KraAssignment
  find_assignment id tenant_id d =
      first (select (λ a. a.id == id && a.tenant_id == tenant_id) d.kra_assignments)

  abbrev pub save_assignment : KraAssignment → Db Float → Db Float
  save_assignment a d = record d {
    kra_assignments = update_row assignment_id a.id (λ _. a) d.kra_assignments;
  }

  unfoldable pub end_assignment :
      (Uuid → Date → Uuid)
      → List KraOccurrence
      → Instant
      → Date
      → Token
      → Uuid
      → Action (Db Float) KraAssignment
  unfolding ended
  end_assignment new_id rivals now utc_today user id = do
    require_manager_now user
    tenant_id ← or_raise (caller_tenant user) task_not_found
    found ← gets (find_assignment id tenant_id)
    assignment ← or_raise found task_not_found
    checked ← in_scope assignment.property_id user
    raise_if (not assignment.is_active) assignment_ended
    generated ← ensure_occurrences new_id rivals (only_for assignment utc_today)
    modify (save_assignment (ended now assignment))
    commit
    pure (ended now assignment)
