-- ===== src/KraTasks/Ensure.antt =====
-- app/services/kra_task_service.py, `ensure_occurrences`: the missing occurrences of assignments.
pub mod Queue
pub mod Filled
use ski_tech_backend.Base.{
  ℕ, zero, suc, ◌+◌, Bool, true, false, not, ◌&&◌, ◌||◌, Option, none, some, List, [], ◌∷◌, ◌++◌,
  map, ◌==◌, if◌then◌else◌, any, contains, select, first, length,
}
use ski_tech_backend.Runtime.{Uuid}
use ski_tech_backend.Session.{Action, ok}
use ski_tech_backend.Models.{User, Db}
use ski_tech_backend.Models.Kra.{
  Frequency, OccurrenceStatus, KraDefinition, KraAssignment, KraOccurrence,
}
use ski_tech_backend.KraTasks.Calendar.{Date}
use ski_tech_backend.KraTasks.Periods.{periods_newest_first}

abbrev pub max_periods_per_call : ℕ
max_periods_per_call = 400

-- The arguments.
pub record EnsureArgs : Type 0 where
  pub tenant_id : Uuid
  pub assignee_id : Option Uuid
  pub property_id : Option Uuid
  pub definition_id : Option Uuid
  pub only_assignment_id : Option Uuid
  pub up_to_date : Date

pub record EnsureResult : Type 0 where
  pub created : ℕ
  pub capped_assignments : ℕ

-- A condition that is made only where its argument is given.
abbrev pub matches : Option Uuid → Uuid → Bool
matches none i = true
matches (some j) i = i == j

unfoldable pub is_asked_for : EnsureArgs → KraAssignment → Bool
is_asked_for args a =
    a.tenant_id == args.tenant_id
    && (a.is_active
        && (matches args.assignee_id a.assignee_id
            && (matches args.property_id a.property_id
                && (matches args.definition_id a.definition_id
                    && matches args.only_assignment_id a.id))))

-- The joins of a row of assignments with its active definition and its active assignee.
unfoldable pub joined_frequency : {Float : Type 0} → KraAssignment → Db Float → Option Frequency
joined_frequency a d =
    elim (first (
      select (λ k. k.id == a.definition_id && (k.is_active && not k.is_deleted))
        d.kra_definitions)) [
          | none ↦ none
          | some k ↦
              if any (λ u. u.id == a.assignee_id && (u.is_active && not u.is_deleted)) d.users
              then some k.frequency
              else none
        ]

abbrev pub with_frequency :
    KraAssignment
    → Option Frequency
    → List (KraAssignment × Frequency)
    → List (KraAssignment × Frequency)
with_frequency a none rest = rest
with_frequency a (some f) rest = (a, f) ∷ rest

unfoldable pub join_all :
    {Float : Type 0} → EnsureArgs → Db Float → List KraAssignment → List (KraAssignment × Frequency)
unfolding is_asked_for joined_frequency
join_all args d [] = []
join_all args d (a ∷ rest) =
    if is_asked_for args a
    then with_frequency a (joined_frequency a d) (join_all args d rest)
    else join_all args d rest

unfoldable pub assignments_for :
    {Float : Type 0} → EnsureArgs → Db Float → List (KraAssignment × Frequency)
unfolding join_all
assignments_for args d = join_all args d d.kra_assignments

abbrev pub is_of : Uuid → KraOccurrence → Bool
is_of assignment_id o = o.assignment_id == assignment_id

abbrev pub start_of_row : KraOccurrence → Date
start_of_row o = o.period_start

-- The starts that an assignment has already.
unfoldable pub existing : Uuid → List KraOccurrence → List Date
existing assignment_id occurrences = map start_of_row (select (is_of assignment_id) occurrences)

-- `new_id` gives the id of the row of an assignment and a start.
unfoldable pub new_occurrence : (Uuid → Date → Uuid) → KraAssignment → Date × Date → KraOccurrence
new_occurrence new_id a p = record {
  id = new_id a.id p.0;
  tenant_id = a.tenant_id;
  property_id = a.property_id;
  assignment_id = a.id;
  definition_id = a.definition_id;
  assignee_id = a.assignee_id;
  period_start = p.0;
  period_end = p.1;
  status = OccurrenceStatus.pending;
  was_delayed = false;
  delayed_at = none;
  delay_reason = none;
  completed_at = none;
  completion_note = none;
  completion_value = none;
}

-- The inner loop: the rows of an assignment, and whether its limit left older periods out.
unfoldable pub queue :
    (Uuid → Date → Uuid)
    → KraAssignment
    → List Date
    → ℕ
    → List (Date × Date)
    → List KraOccurrence × Bool
unfolding new_occurrence
queue new_id a done queued [] = ([], false)
queue new_id a done queued (p ∷ ps) =
    let skipped = queue new_id a done queued ps in
    let rest = queue new_id a done (suc queued) ps in
    if contains done p.0
    then skipped
    else if queued == max_periods_per_call
    then ([], true)
    else (new_occurrence new_id a p ∷ rest.0, rest.1)

-- The outer loop: all rows, and how many assignments were capped.
unfoldable pub queue_all :
    (Uuid → Date → Uuid)
    → Date
    → List KraOccurrence
    → List (KraAssignment × Frequency)
    → List KraOccurrence × ℕ
unfolding queue existing
queue_all new_id up_to occurrences [] = ([], 0)
queue_all new_id up_to occurrences ((a, f) ∷ rest) =
    let (rows, capped) =
      queue new_id a (existing a.id occurrences) 0 (periods_newest_first f a.start_date up_to) in
    let (more, count) = queue_all new_id up_to occurrences rest in
    (rows ++ more, if capped then suc count else count)

-- The key of the unique constraint `uq_kra_occurrence_period`.
abbrev pub has_key : Uuid → Date → KraOccurrence → Bool
has_key assignment_id start o = o.assignment_id == assignment_id && o.period_start == start

-- `INSERT ... ON CONFLICT DO NOTHING`. The source sends the rows in batches; the inserts of all
-- batches stand in one transaction.
unfoldable pub insert_ignoring : List KraOccurrence → List KraOccurrence → List KraOccurrence
insert_ignoring [] occurrences = occurrences
insert_ignoring (r ∷ rows) occurrences = insert_ignoring rows (
    if any (has_key r.assignment_id r.period_start) occurrences
    then occurrences
    else occurrences ++ r ∷ [])

-- The rows that the insert did not ignore.
unfoldable pub inserted : List KraOccurrence → List KraOccurrence → ℕ
inserted [] occurrences = 0
inserted (r ∷ rows) occurrences =
    let later = inserted rows (occurrences ++ r ∷ []) in
    if any (has_key r.assignment_id r.period_start) occurrences
    then inserted rows occurrences
    else suc later

module _ {Float : Type 0} where
  -- Occurrences that other transactions commit.
  abbrev pub arrive : List KraOccurrence → Db Float → Db Float
  arrive rivals d = record d { kra_occurrences = d.kra_occurrences ++ rivals }

  abbrev pub insert_rows : List KraOccurrence → Db Float → Db Float
  insert_rows rows d = record d { kra_occurrences = insert_ignoring rows d.kra_occurrences }

  -- `rivals` are the occurrences that others commit between the query and the insert.
  unfoldable pub ensure_occurrences :
      (Uuid → Date → Uuid) → List KraOccurrence → EnsureArgs → Action (Db Float) EnsureResult
  unfolding assignments_for queue_all insert_ignoring inserted
  ensure_occurrences new_id rivals args s =
      let (rows, capped) =
        queue_all new_id args.up_to_date s.work.kra_occurrences (assignments_for args s.work) in
      (
        ok (record {
          created = inserted rows (s.work.kra_occurrences ++ rivals);
          capped_assignments = capped;
        }),
        record {
          committed = arrive rivals s.committed;
          work = insert_rows rows (arrive rivals s.work);
        },
      )
