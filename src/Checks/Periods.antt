-- ===== src/Checks/Periods.antt =====
-- The periods of tasks, the occurrences that fill them, and assignments.
use ski_tech_backend.Base.{
  ℕ, ◌+◌, ◌≤◌, ◌↔◌, arith, Bool, true, false, not, ◌==◌, ◌&&◌, ◌||◌, none, some, All, Distinct,
  List, [], ◌∷◌, ◌++◌, map, ◌≡◌, refl, any, contains, length,
}
use ski_tech_backend.Runtime.{Uuid}
use ski_tech_backend.Session.{Session, ok, begin}
use ski_tech_backend.Models.{Db}
use ski_tech_backend.Models.Kra.{daily, weekly, KraAssignment, KraOccurrence}
use ski_tech_backend.KraTasks.Calendar.{Date}
use ski_tech_backend.KraTasks.Periods.{period_for, periods_back, periods_newest_first}
use ski_tech_backend.KraTasks.Periods.Tiling.{same_period_iff}
use ski_tech_backend.KraTasks.Periods.Newest.{start_of, IsBetween, periods_newest_first_lem}
use ski_tech_backend.KraTasks.Ensure.{
  EnsureArgs, EnsureResult, is_asked_for, joined_frequency, join_all, assignments_for, existing,
  new_occurrence, queue, queue_all, has_key, insert_ignoring, inserted, ensure_occurrences,
}
use ski_tech_backend.KraTasks.Ensure.Queue.{HasUniquePeriods}
use ski_tech_backend.KraTasks.Ensure.Filled.{
  occurrences_of, ensure_occurrences_adds, ensure_occurrences_fills, ensure_occurrences_again,
}
use ski_tech_backend.KraTasks.Assign.{assignee_of, is_active_for, give_to, assign_users}
use ski_tech_backend.KraTasks.Assign.Given.{give_to_covers}
use ski_tech_backend.KraTasks.Assign.Single.{IsUnchangedOrSingle, assign_users-IsUnchangedOrSingle}
use ski_tech_backend.Checks.{start, task, given, due, owner_token}

same_period_iff_example :
    (((period_for weekly 41).0 ≤ 43) × (43 ≤ (period_for weekly 41).1))
    ↔ (period_for weekly 43 ≡ period_for weekly 41)
same_period_iff_example = same_period_iff weekly 41 43 (omega arith) (omega arith)

periods_newest_first_lem_example :
    (contains (map start_of (periods_newest_first weekly 30 60)) (period_for weekly 41).0 ≡ true)
    × Distinct (map start_of (periods_newest_first weekly 30 60))
    × All (IsBetween weekly (period_for weekly 30).0 60) (periods_newest_first weekly 30 60)
periods_newest_first_lem_example =
    periods_newest_first_lem weekly 30 (omega arith) 60 41 (omega arith) (omega arith)

abbrev session : Session (Db ℕ)
session = begin start

abbrev until_42 : EnsureArgs
until_42 = record {
  tenant_id = 1;
  assignee_id = some 100;
  property_id = none;
  definition_id = none;
  only_assignment_id = none;
  up_to_date = 42;
}

abbrev occurrence_id_of : Uuid → Date → Uuid
occurrence_id_of a day = 5000 + day

abbrev two_created : EnsureResult
two_created = record { created = 2; capped_assignments = 0 }

abbrev filled : Session (Db ℕ)
filled = (ensure_occurrences occurrence_id_of [] until_42 session).1

fills : ensure_occurrences occurrence_id_of [] until_42 session ≡ (ok two_created, filled)
unfolding ensure_occurrences assignments_for join_all is_asked_for joined_frequency queue_all queue
    existing new_occurrence insert_ignoring inserted periods_newest_first periods_back period_for
fills = refl

asked : assignments_for until_42 start ≡ (given, daily) ∷ []
unfolding assignments_for join_all is_asked_for joined_frequency
asked = refl

ensure_occurrences_adds_example :
    (added : List KraOccurrence) × (occurrences_of filled ≡ (due ∷ []) ++ added)
    × (length added ≡ 2)
    × HasUniquePeriods (occurrences_of filled)
ensure_occurrences_adds_example =
    ensure_occurrences_adds occurrence_id_of [] until_42 session filled two_created fills (refl, tt)

ensure_occurrences_fills_example :
    any (has_key 410 (period_for daily 42).0) (occurrences_of filled) ≡ true
ensure_occurrences_fills_example =
    ensure_occurrences_fills occurrence_id_of [] until_42 session filled two_created fills [] given
      daily [] 42 asked refl (omega arith) (omega arith) (omega arith)

ensure_occurrences_again_example :
    ((ensure_occurrences occurrence_id_of [] until_42 filled).0
      ≡ ok (record { created = 0; capped_assignments = 0 }))
    × (occurrences_of (ensure_occurrences occurrence_id_of [] until_42 filled).1
        ≡ occurrences_of filled)
ensure_occurrences_again_example =
    ensure_occurrences_again occurrence_id_of [] until_42 session filled two_created fills
      occurrence_id_of refl

abbrev row_id : Uuid → Uuid
row_id u = 6000 + u

abbrev never : Uuid → Bool
never _ = false

give_to_covers_example :
    (created : List KraAssignment) × (skipped : List Uuid) × ((give_to row_id never row_id [] task
        102 41
        (101 ∷ 100 ∷ [])
        session).0
      ≡ ok (created, skipped))
    × (any
          (λ a. a.is_active && (a.definition_id == task.id && a.assignee_id == 101))
          (give_to row_id never row_id [] task 102 41
            (101 ∷ 100 ∷ [])
            session).1.committed.kra_assignments
        ≡ (any (is_active_for task.id 101) (start.kra_assignments ++ [])
            || contains (101 ∷ 100 ∷ []) 101))
    × (contains (map assignee_of created) 101 ≡ (
        contains (101 ∷ 100 ∷ []) 101
        && not (any (is_active_for task.id 101) (start.kra_assignments ++ []))))
    × (contains skipped 101 ≡ (
        contains (101 ∷ 100 ∷ []) 101
        && any (is_active_for task.id 101) (start.kra_assignments ++ [])))
give_to_covers_example =
    give_to_covers row_id never row_id [] task 102 41 (101 ∷ 100 ∷ []) session 101

assign_users-IsUnchangedOrSingle_example :
    IsUnchangedOrSingle session
      (assign_users row_id never row_id [] 41 owner_token 400 (101 ∷ 100 ∷ []) 41 session).1
assign_users-IsUnchangedOrSingle_example =
    assign_users-IsUnchangedOrSingle row_id never row_id [] 41 owner_token 400 (101 ∷ 100 ∷ []) 41
      session (refl, tt)
