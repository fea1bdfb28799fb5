-- ===== src/KraTasks/Monitoring.antt =====
-- app/services/kra_task_service.py: the lists of assignments and occurrences, and their summary.
use ski_tech_backend.Base.{
  ℕ, ◌+◌, Bool, true, false, not, ◌&&◌, ◌||◌, Option, none, some, List, [], ◌∷◌, String, ◌==◌, ltb,
  leb, if◌then◌else◌, opt_eq, is_none, select, first, take, drop, length, order_by, order_by_desc,
}
use ski_tech_backend.Runtime.{Uuid}
use ski_tech_backend.Session.{
  Action, task_not_found, value_error, period_order, pure, raise_if, gets, or_raise, commit, ◌>>=◌,
  ◌>>◌,
}
use ski_tech_backend.Models.{User, Token, Db}
use ski_tech_backend.Models.Kra.{
  Frequency, OccurrenceStatus, is_completed, KraDefinition, KraAssignment, KraOccurrence,
}
use ski_tech_backend.Scope.{caller_tenant, user_uuid}
use ski_tech_backend.KraTasks.Calendar.{Date}
use ski_tech_backend.KraTasks.Ensure.{matches, ensure_occurrences}
use ski_tech_backend.KraTasks.Access.{
  validate_client_today, require_manager_now, scope_filter, definition_in_scope,
}
use ski_tech_backend.KraTasks.Definitions.{frequency_eq}
use ski_tech_backend.KraTasks.Summary.{OccurrenceRow, same_status, SummaryResponse, summary_of}

abbrev pub with_definition :
    KraOccurrence → Option KraDefinition → List OccurrenceRow → List OccurrenceRow
with_definition o none rest = rest
with_definition o (some k) rest = (o, k) ∷ rest

unfoldable pub joined_rows : List KraDefinition → List KraOccurrence → List OccurrenceRow
joined_rows ks [] = []
joined_rows ks (o ∷ rest) =
    with_definition o (first (select (λ k. k.id == o.definition_id) ks)) (joined_rows ks rest)

abbrev pub period_start_of : OccurrenceRow → Date
period_start_of r = r.0.period_start

abbrev pub row_id_of : OccurrenceRow → Uuid
row_id_of r = r.0.id

-- `_generate_up_to`
unfoldable pub generate_up_to : Date → Option Date → Date
generate_up_to utc_today none = utc_today
generate_up_to utc_today (some period_to) =
    if ltb (utc_today + 1) period_to then utc_today + 1 else period_to

-- The conditions of `_period_conditions`, and what it refuses.
abbrev pub is_misordered : Option Date → Option Date → Bool
is_misordered (some period_from) (some period_to) = ltb period_to period_from
is_misordered _ _ = false

abbrev pub starts_by : Option Date → Date → Bool
starts_by none start = true
starts_by (some period_to) start = leb start period_to

abbrev pub ends_from : Option Date → Date → Bool
ends_from none end_date = true
ends_from (some period_from) end_date = leb period_from end_date

unfoldable pub is_in_periods : Option Date → Option Date → KraOccurrence → Bool
is_in_periods period_from period_to o =
    ends_from period_from o.period_end && starts_by period_to o.period_start

-- The filter by status, with "completed_delayed".
pub data StatusFilter : Type 0 where
  any_status completed_delayed : StatusFilter
  with_status : OccurrenceStatus → StatusFilter

unfoldable pub has_filtered_status : StatusFilter → KraOccurrence → Bool
has_filtered_status any_status o = true
has_filtered_status completed_delayed o = is_completed o.status && o.was_delayed
has_filtered_status (with_status t) o = same_status t o.status

abbrev pub has_frequency : Option Frequency → Frequency → Bool
has_frequency none f = true
has_frequency (some g) f = frequency_eq f g

abbrev pub assignment_start : KraAssignment → Date
assignment_start a = a.start_date

abbrev pub assignment_row_id : KraAssignment → Uuid
assignment_row_id a = a.id

abbrev pub is_listed_assignment : Uuid → Option Uuid → Option Uuid → KraAssignment → Bool
is_listed_assignment tenant_id definition_id property_id a =
    a.tenant_id == tenant_id
    && (matches definition_id a.definition_id && matches property_id a.property_id)

abbrev pub is_monitored : Uuid → Uuid → Option Uuid → User → Bool
is_monitored user_id tenant_id scope u =
    u.id == user_id
    && (u.tenant_id == tenant_id
        && (not u.is_deleted && (is_none scope || opt_eq u.property_id scope)))

abbrev pub is_mine : Uuid → Uuid → Date → OccurrenceRow → Bool
is_mine tenant_id me today r =
    r.0.tenant_id == tenant_id
    && (r.0.assignee_id == me
        && (leb r.0.period_start today
            && (not (is_completed r.0.status) || leb today r.0.period_end)))

module _ {Float : Type 0} where
  unfoldable pub listed_assignments :
      Uuid → Option Uuid → Option Uuid → Db Float → List KraAssignment
  unfolding order_by order_by_desc
  listed_assignments tenant_id definition_id property_id d = order_by_desc assignment_start (
      order_by assignment_row_id
        (select (is_listed_assignment tenant_id definition_id property_id) d.kra_assignments))

  unfoldable pub list_assignments : Token → Option Uuid → Action (Db Float) (List KraAssignment)
  unfolding listed_assignments
  list_assignments user (some definition_id) = do
    require_manager_now user
    tenant_id ← or_raise (caller_tenant user) task_not_found
    definition ← definition_in_scope user definition_id
    gets (listed_assignments tenant_id (some definition.id) none)
  list_assignments user none = do
    require_manager_now user
    tenant_id ← or_raise (caller_tenant user) task_not_found
    scope ← scope_filter user none
    gets (listed_assignments tenant_id none scope)

  -- `_check_monitored_user`, where a user is given.
  unfoldable pub check_monitored_user :
      Option Uuid → Uuid → Option Uuid → Action (Db Float) (Unit {0})
  check_monitored_user none tenant_id scope = pure tt
  check_monitored_user (some user_id) tenant_id scope = do
    found ← gets (λ (d : Db Float). first (select (is_monitored user_id tenant_id scope) d.users))
    raise_if (is_none found) task_not_found

  unfoldable pub selected_rows :
      Uuid
      → Option Uuid
      → Option Uuid
      → Option Date
      → Option Date
      → Option Frequency
      → StatusFilter
      → Db Float
      → List OccurrenceRow
  unfolding joined_rows is_in_periods has_filtered_status
  selected_rows tenant_id scope user_id period_from period_to frequency status d =
      select
        (λ r.
          r.0.tenant_id == tenant_id
          && (is_in_periods period_from period_to r.0
              && (matches scope r.0.property_id
                  && (matches user_id r.0.assignee_id
                      && (has_frequency frequency r.1.frequency
                          && has_filtered_status status r.0)))))
        (joined_rows d.kra_definitions d.kra_occurrences)

  -- The generation that precedes a query.
  unfoldable pub generate_for :
      (Uuid → Date → Uuid)
      → List KraOccurrence
      → Uuid
      → Option Uuid
      → Option Uuid
      → Date
      → Action (Db Float) (Unit {0})
  generate_for new_id rivals tenant_id assignee_id property_id up_to_date = do
    generated ← ensure_occurrences new_id rivals (record {
      tenant_id = tenant_id;
      assignee_id = assignee_id;
      property_id = property_id;
      definition_id = none;
      only_assignment_id = none;
      up_to_date = up_to_date;
    })
    commit

  unfoldable pub list_occurrences :
      (Uuid → Date → Uuid)
      → List KraOccurrence
      → Date
      → Token
      → Option Uuid
      → Option Uuid
      → Option Frequency
      → StatusFilter
      → Option Date
      → Option Date
      → ℕ
      → ℕ
      → Action (Db Float) (List OccurrenceRow × ℕ)
  unfolding generate_for generate_up_to selected_rows order_by order_by_desc
  list_occurrences new_id rivals utc_today user property_id user_id frequency status period_from
        period_to skip limit =
      do
        require_manager_now user
        raise_if (is_misordered period_from period_to) (value_error period_order)
        scope ← scope_filter user property_id
        tenant_id ← or_raise (caller_tenant user) task_not_found
        check_monitored_user user_id tenant_id scope
        generate_for new_id rivals tenant_id user_id scope (generate_up_to utc_today period_to)
        rows ← gets (selected_rows tenant_id scope user_id period_from period_to frequency status)
        pure (
          take limit (drop skip (order_by_desc period_start_of (order_by row_id_of rows))),
          length rows,
        )

  unfoldable pub summarize :
      (Uuid → Date → Uuid)
      → List KraOccurrence
      → Date
      → Token
      → Option Uuid
      → Option Date
      → Option Date
      → Action (Db Float) SummaryResponse
  unfolding generate_for generate_up_to selected_rows summary_of
  summarize new_id rivals utc_today user property_id period_from period_to = do
    require_manager_now user
    raise_if (is_misordered period_from period_to) (value_error period_order)
    scope ← scope_filter user property_id
    tenant_id ← or_raise (caller_tenant user) task_not_found
    generate_for new_id rivals tenant_id none scope (generate_up_to utc_today period_to)
    rows ← gets (selected_rows tenant_id scope none period_from period_to none any_status)
    pure (summary_of scope period_from period_to rows)

  -- `collate` gives the place of a title in the database's order of texts.
  unfoldable pub my_occurrences :
      (String → ℕ)
      → (Uuid → Date → Uuid)
      → List KraOccurrence
      → Date
      → Token
      → Date
      → Action (Db Float) (List OccurrenceRow)
  unfolding generate_for joined_rows order_by order_by_desc
  my_occurrences collate new_id rivals utc_today user today = do
    validate_client_today utc_today today
    tenant_id ← or_raise (caller_tenant user) task_not_found
    me ← user_uuid user
    generate_for new_id rivals tenant_id (some me) none today
    gets (λ (d : Db Float). order_by_desc period_start_of (
        order_by (λ r. collate r.1.title)
          (order_by row_id_of (
            select (is_mine tenant_id me today)
              (joined_rows d.kra_definitions d.kra_occurrences)))))
