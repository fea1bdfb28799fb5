-- ===== src/Checks/Tasks.antt =====
-- A task that is delayed and then completed.
use ski_tech_backend.Base.{ℕ, true, false, ◌&&◌, none, some, All, ◌≡◌, refl, is_none, is_some}
use ski_tech_backend.Session.{ok, run_request}
use ski_tech_backend.Models.{Db}
use ski_tech_backend.Models.Kra.{
  is_pending, is_completed, KraDefinition, KraOccurrence, OccurrenceStatus,
}
use ski_tech_backend.Runtime.{Uuid, naive}
use ski_tech_backend.Scope.{as_uuid, caller_tenant}
use ski_tech_backend.KraTasks.{
  CompletionData, find_occurrence, find_definition, ensure_assignee, own_occurrence,
  save_occurrence, delayed_occurrence, completed_occurrence, notify_managers, delay_occurrence,
  complete_occurrence,
}
use ski_tech_backend.KraTasks.States.{
  IsOwn, RemembersDelay, delay_occurrence_ok, complete_occurrence_ok,
}
use ski_tech_backend.Checks.{rt, start, due, staff_token, at_1000, at_1005}

abbrev late : KraOccurrence
late = delayed_occurrence at_1000 (some "Rain") due

abbrev after_delay : Db ℕ
after_delay =
    (run_request (delay_occurrence rt false 820 at_1000 staff_token 420 (some "Rain")) start).1

delays :
    run_request (delay_occurrence rt false 820 at_1000 staff_token 420 (some "Rain")) start
    ≡ (ok late, after_delay)
unfolding delay_occurrence own_occurrence find_occurrence ensure_assignee save_occurrence
    delayed_occurrence find_definition notify_managers
delays = refl

delay_occurrence_ok_example :
    (before : KraOccurrence) × (tenant_id : Uuid) × (caller_tenant staff_token ≡ some tenant_id)
    × (find_occurrence 420 tenant_id start ≡ some before)
    × (as_uuid staff_token.user_id ≡ some before.assignee_id)
    × (is_pending before.status ≡ true)
    × (late ≡ record before {
      status = OccurrenceStatus.delayed;
      was_delayed = true;
      delayed_at = some (naive at_1000);
      delay_reason = some "Rain";
    })
    × (find_occurrence 420 tenant_id after_delay ≡ some late)
    × All RemembersDelay after_delay.kra_occurrences
delay_occurrence_ok_example =
    delay_occurrence_ok at_1000 staff_token 420 rt false 820 (some "Rain") start after_delay late
      (refl, tt) delays

abbrev completion : CompletionData
completion = record { remark = none; value = none }

abbrev finished : KraOccurrence
finished = completed_occurrence at_1005 completion late

abbrev after_complete : Db ℕ
after_complete =
    (run_request (complete_occurrence at_1005 staff_token 420 completion) after_delay).1

completes :
    run_request (complete_occurrence at_1005 staff_token 420 completion) after_delay
    ≡ (ok finished, after_complete)
unfolding delay_occurrence own_occurrence find_occurrence ensure_assignee save_occurrence
    delayed_occurrence find_definition notify_managers complete_occurrence completed_occurrence
completes = refl

delays_remembered : All RemembersDelay after_delay.kra_occurrences
unfolding delay_occurrence own_occurrence find_occurrence ensure_assignee save_occurrence
    delayed_occurrence find_definition notify_managers
delays_remembered = (refl, tt)

complete_occurrence_ok_example :
    (before : KraOccurrence) × (definition : KraDefinition) × IsOwn staff_token 420 after_delay
      before
    × (is_completed before.status ≡ false)
    × (find_definition before.definition_id after_delay ≡ some definition)
    × ((is_some completion.value && is_none definition.value_label) ≡ false)
    × (finished ≡ record before {
      status = OccurrenceStatus.completed;
      completed_at = some (naive at_1005);
      completion_note = completion.remark;
      completion_value = completion.value;
    })
    × (finished.was_delayed ≡ before.was_delayed)
    × All RemembersDelay after_complete.kra_occurrences
    × (tenant_id : Uuid) × (caller_tenant staff_token ≡ some tenant_id)
    × (find_occurrence 420 tenant_id after_complete ≡ some finished)
complete_occurrence_ok_example =
    complete_occurrence_ok at_1005 staff_token 420 completion after_delay after_complete finished
      delays_remembered completes
