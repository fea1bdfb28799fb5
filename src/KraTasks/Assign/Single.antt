-- ===== src/KraTasks/Assign/Single.antt =====
-- The active assignments of a user to a task, and who is given it or skipped.
use ski_tech_backend.Base.{
  ◌-◌, ltb, ◌≡◌, refl, ◌∙◌, arith, Bool, false, not, ◌&&◌, ◌||◌, Option, none, some, inl, inr, ◌⊎◌,
  List, [], ◌∷◌, ◌++◌, map, ◌==◌, any, any-append, contains, select, length, Bool-cases,
  Option-cases,
}
use ski_tech_backend.Runtime.{Uuid}
use ski_tech_backend.Session.{
  Session, Action, Error, Result-cases, value_error, today_out_of_range, malformed_uuid,
  task_role_changed, task_inactive, task_not_found,
}
use ski_tech_backend.Session.Keeps.{
  Keeps, Leads, bind-Keeps, gets-Keeps, raise_if-Keeps, or_raise-Keeps, bind-Leads,
}
use ski_tech_backend.Models.{Token, Db}
use ski_tech_backend.Models.Kra.{KraDefinition, KraAssignment}
use ski_tech_backend.KraTasks.Calendar.{Date}
use ski_tech_backend.Scope.{caller_tenant, current_role, as_uuid}
use ski_tech_backend.KraTasks.States.{in_scope_reads}
use ski_tech_backend.KraTasks.{in_scope}
use ski_tech_backend.KraTasks.Access.{
  validate_client_today, require_manager_now, same_role, definition_in_scope, find_live_definition,
}
use ski_tech_backend.KraTasks.Assign.Given.{notified_assignments}
use ski_tech_backend.KraTasks.Assign.{
  without_repeats, targets_of, first_refusal, raise_first, is_active_for, new_assignment,
  insert_active, already_assigned, give_to, caller_for, assign_users,
}

-- The unique index `uq_kra_assignment_active`.
abbrev pub HasSingleActive : List KraAssignment → Type 0
HasSingleActive [] = Unit
HasSingleActive (a ∷ rest) =
    ((a.is_active && any (is_active_for a.definition_id a.assignee_id) rest) ≡ false)
    × HasSingleActive rest

add_single :
    (xs : List KraAssignment) (r : KraAssignment)
    → any (is_active_for r.definition_id r.assignee_id) xs ≡ false
    → HasSingleActive xs
    → HasSingleActive (xs ++ r ∷ [])
add_single [] r free h = (ground arith, tt)
add_single (x ∷ xs) r free h =
    let split = any-append (is_active_for x.definition_id x.assignee_id) xs (r ∷ []) in
    (ground (arith, split, h.0), add_single xs r (ground arith) h.1)

insert_active-HasSingleActive :
    (rows xs : List KraAssignment) → HasSingleActive xs → HasSingleActive (insert_active rows xs).0
unfolding insert_active
insert_active-HasSingleActive [] xs h = h
insert_active-HasSingleActive (r ∷ rows) xs h =
    elim (Bool-cases (any (is_active_for r.definition_id r.assignee_id) xs)) [
      | inl e ↦ rw e (insert_active-HasSingleActive rows xs h)
      | inr e ↦ rw e (insert_active-HasSingleActive rows (xs ++ r ∷ []) (add_single xs r e h))
    ]

module _ {Float : Type 0} where
  abbrev IsAt : Session (Db Float) → Session (Db Float) → Type 0
  IsAt s t = t ≡ s

  -- The session as it was, or a committed database in which every task is given to a user once at
  -- a time.
  abbrev pub IsUnchangedOrSingle : Session (Db Float) → Session (Db Float) → Type 0
  IsUnchangedOrSingle s t = (t ≡ s) ⊎ HasSingleActive t.committed.kra_assignments

  reads-Keeps :
      {A : Type 0} (s : Session (Db Float)) (m : Action (Db Float) A)
      → ((t : Session (Db Float)) → (m t).1 ≡ t)
      → Keeps (IsAt s) m
  reads-Keeps s m same = record { at = λ t h. same t ∙ h }

  raise_first_reads : (e : Option Error) (t : Session (Db Float)) → (raise_first e t).1 ≡ t
  raise_first_reads none t = refl
  raise_first_reads (some e) t = refl

  caller_for-Keeps :
      (s : Session (Db Float)) (user : Token) (targets : List Uuid)
      → Keeps (IsAt s) (caller_for user targets)
  unfolding caller_for
  caller_for-Keeps s user [] = record { at = λ t e. e }
  caller_for-Keeps s user (u ∷ us) =
      or_raise-Keeps (as_uuid user.user_id) (value_error malformed_uuid)

  give_to-Leads :
      (new_id : Uuid → Uuid) (write_fails : Uuid → Bool) (item_id : Uuid → Uuid)
      (rivals : List KraAssignment) (definition : KraDefinition) (caller : Uuid) (today : Date)
      (wanted : List Uuid) (s : Session (Db Float))
      → HasSingleActive (s.work.kra_assignments ++ rivals)
      → Leads
          (IsAt s)
          (IsUnchangedOrSingle s)
          (give_to new_id write_fails item_id rivals definition caller today wanted)
  unfolding give_to
  give_to-Leads new_id write_fails item_id rivals definition caller today wanted s single = record {
    at = λ t e.
        let rows =
          map (new_assignment new_id definition caller today)
            (select (λ u. not (contains (already_assigned definition.id s.work) u)) wanted) in
        let after = insert_active-HasSingleActive rows (s.work.kra_assignments ++ rivals) single in
        rw e (inr (rw notified_assignments after));
  }

  pub definition_in_scope_reads :
      (user : Token) (id : Uuid) (t : Session (Db Float)) → (definition_in_scope user id t).1 ≡ t
  unfolding definition_in_scope
  definition_in_scope_reads user id t = elim (Option-cases (caller_tenant user)) [
    | inl e ↦ rw e refl
    | inr (tenant_id, e) ↦ elim (Option-cases (find_live_definition id tenant_id t.work)) [
      | inl f ↦ rw (e, f) refl
      | inr (k, f) ↦
          let same = in_scope_reads k.property_id user t in
          elim (Result-cases (in_scope k.property_id user t).0) [
            | inl (x, r) ↦ rw (e, f, r) same
            | inr (p, r) ↦ rw (e, f, r) same
          ]
    ]
  ]

  -- Giving a task to users either leaves the session as it was or commits assignments in which no
  -- user has two active ones of one task, where none had two before, those that others commit
  -- meanwhile counted in.
  pub assign_users-IsUnchangedOrSingle :
      (new_id : Uuid → Uuid) (write_fails : Uuid → Bool) (item_id : Uuid → Uuid)
      (rivals : List KraAssignment) (utc_today : Date) (user : Token) (id : Uuid)
      (user_ids : List Uuid) (today : Date) (s : Session (Db Float))
      → HasSingleActive (s.work.kra_assignments ++ rivals)
      → IsUnchangedOrSingle s
          (assign_users new_id write_fails item_id rivals utc_today user id user_ids today s).1
  unfolding assign_users validate_client_today require_manager_now
  assign_users-IsUnchangedOrSingle new_id write_fails item_id rivals utc_today user id user_ids
        today s single =
      let weaker : (t : Session (Db Float)) → IsAt s t → IsUnchangedOrSingle s t = λ t e. inl e in
      let wanted = without_repeats [] user_ids in
      (bind-Leads {Q = IsUnchangedOrSingle s} weaker
          (raise_if-Keeps (ltb 1 (today - utc_today) || ltb 1 (utc_today - today))
            (value_error today_out_of_range))
          (λ _.
            bind-Leads weaker
              (bind-Keeps (gets-Keeps (current_role user))
                (λ stored. raise_if-Keeps (not (same_role stored user.role)) task_role_changed))
              (λ _.
                bind-Leads weaker
                  (reads-Keeps s (definition_in_scope user id) (definition_in_scope_reads user id))
                  (λ definition.
                    bind-Leads weaker (raise_if-Keeps (not definition.is_active) task_inactive)
                      (λ _.
                        bind-Leads weaker (gets-Keeps (targets_of wanted definition.tenant_id))
                          (λ targets.
                            bind-Leads weaker
                              (raise_if-Keeps (not (length targets == length wanted))
                                task_not_found)
                              (λ _.
                                bind-Leads weaker
                                  (reads-Keeps s
                                    (raise_first (first_refusal user definition targets))
                                    (raise_first_reads (first_refusal user definition targets)))
                                  (λ _.
                                    bind-Leads weaker (gets-Keeps (already_assigned definition.id))
                                      (λ already.
                                        bind-Leads weaker
                                          (caller_for-Keeps s user
                                            (select (λ u. not (contains already u)) wanted))
                                          (λ caller.
                                            give_to-Leads new_id write_fails item_id rivals
                                              definition caller today wanted s single)))))))))).at
        s refl
