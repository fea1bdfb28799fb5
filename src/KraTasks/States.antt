-- ===== src/KraTasks/States.antt =====
-- An occurrence moves forward only, by its assignee, and a delay is never forgotten.
use ski_tech_backend.Base.{
  Bool, true, false, not, ◌&&◌, ◌||◌, Option, some, none, inl, inr, All, ◌≡◌, arith, ◌==◌, ==→eq,
  is_none, is_some, refl, sym, ap, ap₂, subst, ◌∙◌, Bool-cases, Option-cases, All-update_row,
  first_overwritten, String,
}
use ski_tech_backend.Runtime.{Runtime, Uuid, Instant, naive}
use ski_tech_backend.Session.{
  Session, Result-cases, ok, err, ok_injective, err_not_ok, Error, task_closed, no_result_found,
  value_error, takes_no_value, begin, run_request,
}
use ski_tech_backend.Models.{Token, Db}
use ski_tech_backend.Models.Kra.{
  is_pending, is_delayed, is_completed, KraDefinition, KraOccurrence, OccurrenceStatus,
}
use ski_tech_backend.Scope.{as_uuid, caller_tenant, property_in_scope}
use ski_tech_backend.Scope.Laws.{property_in_scope_reads}
use ski_tech_backend.KraTasks.{
  CompletionData, occurrence_id, in_scope, find_occurrence, find_definition, ensure_assignee,
  own_occurrence, save_occurrence, delayed_occurrence, completed_occurrence, notify_managers,
  delay_occurrence, complete_occurrence,
}

-- A delayed occurrence is marked as having been delayed.
abbrev pub RemembersDelay : KraOccurrence → Type 0
RemembersDelay o = (not (is_delayed o.status) || o.was_delayed) ≡ true

module _ {Float : Type 0} where
  pub in_scope_reads :
      (property_id : Uuid) (user : Token) (s : Session (Db Float))
      → (in_scope property_id user s).1 ≡ s
  unfolding in_scope
  in_scope_reads property_id user s =
      let same = property_in_scope_reads property_id user s in
      elim (Result-cases (property_in_scope property_id user s).0) [
        | inl (x, e) ↦ ground (arith, same)
        | inr (a, e) ↦ ground (arith, same)
      ]

  ensure_assignee_reads :
      (o : KraOccurrence) (caller : Uuid) (user : Token) (s : Session (Db Float))
      → (ensure_assignee o caller user s).1 ≡ s
  unfolding ensure_assignee
  ensure_assignee_reads o caller user s =
      let same = in_scope_reads o.property_id user s in
      elim (Result-cases (in_scope o.property_id user s).0) [
        | inl (x, e) ↦ ground (arith, same)
        | inr (a, e) ↦ ground (arith, same)
      ]

  ensure_assignee_lem :
      (o : KraOccurrence) (caller : Uuid) (user : Token) (s : Session (Db Float))
      → (ensure_assignee o caller user s).0 ≡ ok tt
      → (o.assignee_id == caller) ≡ true
  unfolding ensure_assignee
  ensure_assignee_lem o caller user s h = elim (Result-cases (in_scope o.property_id user s).0) [
    | inl (x, e) ↦ ground arith
    | inr (a, e) ↦ ground arith
  ]

  -- What a caller has passed who works on an occurrence: it is their own, in their tenant.
  abbrev pub IsOwn : Token → Uuid → Db Float → KraOccurrence → Type 0
  IsOwn user id d o =
      (tenant_id : Uuid) × (caller_tenant user ≡ some tenant_id)
      × (find_occurrence id tenant_id d ≡ some o)
      × (as_uuid user.user_id ≡ some o.assignee_id)

  own_occurrence_lem :
      (user : Token) (id : Uuid) (s : Session (Db Float)) (o : KraOccurrence)
      → (own_occurrence user id s).0 ≡ ok o
      → IsOwn user id s.work o
  unfolding own_occurrence
  own_occurrence_lem user id s o h = elim (Option-cases (caller_tenant user)) [
    | inl e ↦ ground arith
    | inr (tenant_id, e) ↦ elim (Option-cases (find_occurrence id tenant_id s.work)) [
      | inl f ↦ ground arith
      | inr (found, f) ↦ elim (Option-cases (as_uuid user.user_id)) [
        | inl g ↦ ground arith
        | inr (caller, g) ↦ elim (Result-cases (ensure_assignee found caller user s).0) [
          | inl (x, k) ↦ ground arith
          | inr (_, k) ↦
              let mine = ==→eq _ _ (ensure_assignee_lem found caller user s k) in
              let same : found ≡ o = ground arith in (tenant_id, e, cc, cc)
        ]
      ]
    ]
  ]

  own_occurrence_reads :
      (user : Token) (id : Uuid) (s : Session (Db Float)) → (own_occurrence user id s).1 ≡ s
  unfolding own_occurrence
  own_occurrence_reads user id s = elim (Option-cases (caller_tenant user)) [
    | inl e ↦ ground arith
    | inr (tenant_id, e) ↦ elim (Option-cases (find_occurrence id tenant_id s.work)) [
      | inl f ↦ ground arith
      | inr (found, f) ↦ elim (Option-cases (as_uuid user.user_id)) [
        | inl g ↦ ground arith
        | inr (caller, g) ↦
            let same = ensure_assignee_reads found caller user s in
            elim (Result-cases (ensure_assignee found caller user s).0) [
              | inl (x, k) ↦ ground (arith, same)
              | inr (_, k) ↦ ground (arith, same)
            ]
      ]
    ]
  ]

module _ {Float : Type 0} where
  -- After a found occurrence is saved, it is found as it was saved.
  find_saved_occurrence :
      (id tenant_id : Uuid) (o g : KraOccurrence) (d d' : Db Float)
      → find_occurrence id tenant_id d ≡ some o
      → g.id ≡ o.id
      → g.tenant_id ≡ o.tenant_id
      → (save_occurrence g d).kra_occurrences ≡ d'.kra_occurrences
      → find_occurrence id tenant_id d' ≡ some g
  unfolding find_occurrence save_occurrence
  find_saved_occurrence id tenant_id o g d d' found same_id same_tenant rows =
      let p : KraOccurrence → Bool = λ x. x.id == id && x.tenant_id == tenant_id in
      rw (← rows) (
        first_overwritten occurrence_id p g d.kra_occurrences found
          (ap₂ (λ i t. i == id && t == tenant_id) same_id same_tenant) same_id)

module _ {Float : Type 0} (now : Instant) (user : Token) (id : Uuid) where
  -- Delaying works on the caller's own pending occurrence only, in their tenant, and stores it as
  -- delayed, with the time and the reason and nothing else changed. Every delayed occurrence stays
  -- marked as having been delayed.
  pub delay_occurrence_ok :
      (rt : Runtime Float) (write_fails : Bool) (item_id : Uuid) (reason : Option String)
      (d d' : Db Float) (r : KraOccurrence)
      → All RemembersDelay d.kra_occurrences
      → run_request (delay_occurrence rt write_fails item_id now user id reason) d ≡ (ok r, d')
      → (before : KraOccurrence) × (tenant_id : Uuid) × (caller_tenant user ≡ some tenant_id)
        × (find_occurrence id tenant_id d ≡ some before)
        × (as_uuid user.user_id ≡ some before.assignee_id)
        × (is_pending before.status ≡ true)
        × (r ≡ record before {
          status = OccurrenceStatus.delayed;
          was_delayed = true;
          delayed_at = some (naive now);
          delay_reason = reason;
        })
        × (find_occurrence id tenant_id d' ≡ some r)
        × All RemembersDelay d'.kra_occurrences
  unfolding delay_occurrence save_occurrence notify_managers delayed_occurrence
  delay_occurrence_ok rt write_fails item_id reason d d' r all h =
      let same = own_occurrence_reads user id (begin d) in
      elim (Result-cases (own_occurrence user id (begin d)).0) [
        | inl (x, e) ↦ ground arith
        | inr (o, e) ↦
            elim (Option-cases (
              find_definition o.definition_id
                (save_occurrence (delayed_occurrence now reason o) d))) [
                  | inl f ↦ ground arith
                  | inr (k, f) ↦
                      let after : d'.kra_occurrences ≡ (save_occurrence r d).kra_occurrences =
                        ground arith in
                      let (tenant_id, in_tenant, found, mine) =
                        own_occurrence_lem user id (begin d) o e in
                      let made : r ≡ delayed_occurrence now reason o = ground arith in
                      (
                        o,
                        tenant_id,
                        in_tenant,
                        found,
                        mine,
                        ground arith,
                        made,
                        find_saved_occurrence id tenant_id o r d d' found
                            (ap (λ (x : KraOccurrence). x.id) made)
                            (ap (λ (x : KraOccurrence). x.tenant_id) made) (sym after),
                        rw after (
                            All-update_row RemembersDelay occurrence_id r.id r d.kra_occurrences
                              (ground arith) all),
                      )
                ]
      ]

  module _ (data_in : CompletionData) (d : Db Float) (o : KraOccurrence) (k : KraDefinition)
      (own : own_occurrence user id (begin d) ≡ (ok o, begin d)) where
    complete_valued :
        is_completed o.status ≡ false
        → find_definition o.definition_id d ≡ some k
        → (is_some data_in.value && is_none k.value_label) ≡ true
        → run_request (complete_occurrence now user id data_in) d
          ≡ (err (value_error takes_no_value), d)
    unfolding complete_occurrence
    complete_valued c f v = rw own (rw (c, f) (rw v refl))

    complete_done :
        is_completed o.status ≡ false
        → find_definition o.definition_id d ≡ some k
        → (is_some data_in.value && is_none k.value_label) ≡ false
        → run_request (complete_occurrence now user id data_in) d ≡ (
          ok (completed_occurrence now data_in o),
          save_occurrence (completed_occurrence now data_in o) d,
        )
    unfolding complete_occurrence
    complete_done c f v = rw own (rw (c, f) (rw v refl))

  complete_closed :
      (data_in : CompletionData) (d : Db Float) (o : KraOccurrence)
      → own_occurrence user id (begin d) ≡ (ok o, begin d)
      → is_completed o.status ≡ true
      → run_request (complete_occurrence now user id data_in) d ≡ (err task_closed, d)
  unfolding complete_occurrence
  complete_closed data_in d o own c = rw own (rw c refl)

  complete_lost :
      (data_in : CompletionData) (d : Db Float) (o : KraOccurrence)
      → own_occurrence user id (begin d) ≡ (ok o, begin d)
      → is_completed o.status ≡ false
      → find_definition o.definition_id d ≡ none
      → run_request (complete_occurrence now user id data_in) d ≡ (err no_result_found, d)
  unfolding complete_occurrence
  complete_lost data_in d o own c f = rw own (rw (c, f) refl)

  complete_not_own :
      (data_in : CompletionData) (d : Db Float) (x : Error)
      → own_occurrence user id (begin d) ≡ (err x, begin d)
      → run_request (complete_occurrence now user id data_in) d ≡ (err x, d)
  unfolding complete_occurrence
  complete_not_own data_in d x own = rw own refl

  kept_rows :
      (data_in : CompletionData) (d : Db Float) (o : KraOccurrence)
      → All RemembersDelay d.kra_occurrences
      → RemembersDelay (completed_occurrence now data_in o)
      → All RemembersDelay (save_occurrence (completed_occurrence now data_in o) d).kra_occurrences
  unfolding save_occurrence completed_occurrence
  kept_rows data_in d o all here =
      All-update_row RemembersDelay occurrence_id o.id (completed_occurrence now data_in o)
        d.kra_occurrences here all

  -- Completing works on the caller's own occurrence that is not completed, and takes a value only
  -- where the task has one. It is stored as completed with the time, the note and the value, and
  -- whether it was delayed stays as it was.
  pub complete_occurrence_ok :
      (data_in : CompletionData) (d d' : Db Float) (r : KraOccurrence)
      → All RemembersDelay d.kra_occurrences
      → run_request (complete_occurrence now user id data_in) d ≡ (ok r, d')
      → (before : KraOccurrence) × (definition : KraDefinition) × IsOwn user id d before
        × (is_completed before.status ≡ false)
        × (find_definition before.definition_id d ≡ some definition)
        × ((is_some data_in.value && is_none definition.value_label) ≡ false)
        × (r ≡ record before {
          status = OccurrenceStatus.completed;
          completed_at = some (naive now);
          completion_note = data_in.remark;
          completion_value = data_in.value;
        })
        × (r.was_delayed ≡ before.was_delayed)
        × All RemembersDelay d'.kra_occurrences
        × (tenant_id : Uuid) × (caller_tenant user ≡ some tenant_id)
        × (find_occurrence id tenant_id d' ≡ some r)
  unfolding completed_occurrence
  complete_occurrence_ok data_in d d' r all h =
      let reads = own_occurrence_reads user id (begin d) in
      let refused : (x : Error)
          → run_request (complete_occurrence now user id data_in) d ≡ (err x, d)
          → ⊥ =
        λ x e. err_not_ok (ap (λ y. y.0) (sym e ∙ h)) in
      elim (Result-cases (own_occurrence user id (begin d)).0) [
        | inl (x, e) ↦
            absurd (refused x (complete_not_own data_in d x (ap₂ (λ a b. (a, b)) e reads)))
        | inr (o, e) ↦
            let own : own_occurrence user id (begin d) ≡ (ok o, begin d) =
              ap₂ (λ a b. (a, b)) e reads in
            elim (Bool-cases (is_completed o.status)) [
              | inl c ↦ absurd (refused task_closed (complete_closed data_in d o own c))
              | inr c ↦ elim (Option-cases (find_definition o.definition_id d)) [
                | inl f ↦ absurd (refused no_result_found (complete_lost data_in d o own c f))
                | inr (k, f) ↦ elim (Bool-cases (is_some data_in.value && is_none k.value_label)) [
                  | inl v ↦ absurd (
                      refused (value_error takes_no_value)
                        (complete_valued data_in d o k own c f v))
                  | inr v ↦
                      let run = sym (complete_done data_in d o k own c f v) ∙ h in
                      let same : completed_occurrence now data_in o ≡ r =
                        ok_injective (ap (λ x. x.0) run) in
                      let after = ap (λ x. x.1.kra_occurrences) run in
                      let (tenant_id, in_tenant, found, mine) =
                        own_occurrence_lem user id (begin d) o e in
                      let mark = ap (λ (x : KraOccurrence). x.was_delayed) (sym same) in
                      (
                        o,
                        k,
                        (tenant_id, in_tenant, found, mine),
                        c,
                        f,
                        v,
                        sym same,
                        mark,
                        subst (λ rows. All RemembersDelay rows) after
                            (kept_rows data_in d o all refl),
                        tenant_id,
                        in_tenant,
                        find_saved_occurrence id tenant_id o r d d' found
                            (ap (λ (x : KraOccurrence). x.id) (sym same))
                            (ap (λ (x : KraOccurrence). x.tenant_id) (sym same))
                            (ap (λ g. (save_occurrence g d).kra_occurrences) (sym same) ∙ after),
                      )
                ]
              ]
            ]
      ]
