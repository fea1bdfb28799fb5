-- ===== src/KraTasks/Assign/Given.antt =====
-- Who holds a task after it is given to users, who is given it and who is skipped.
use ski_tech_backend.Base.{
  ◌≡◌, refl, ap, arith, Bool, true, false, not, ◌&&◌, ◌||◌, inl, inr, List, [], ◌∷◌, ◌++◌, map,
  ◌==◌, ==_refl, ==→eq, any, any-append, contains, select, Bool-cases, String,
}
use ski_tech_backend.Runtime.{Uuid}
use ski_tech_backend.Session.{Session, ok}
use ski_tech_backend.Models.{Db}
use ski_tech_backend.Models.Kra.{KraDefinition, KraAssignment}
use ski_tech_backend.KraTasks.Calendar.{Date}
use ski_tech_backend.KraTasks.Assign.{
  assignee_of, notify_all, is_active_for, new_assignment, insert_active, already_assigned, give_to,
}

contains-select_and :
    (p : Uuid → Bool) (xs : List Uuid) (u : Uuid)
    → contains (select p xs) u ≡ (contains xs u && p u)
contains-select_and p [] u = refl
contains-select_and p (x ∷ xs) u = elim (Bool-cases (u == x)) [
  | inl e ↦
      let same = ==→eq u x e in
      let rest = contains-select_and p xs u in rw same (ground (arith, rest, ==_refl x))
  | inr e ↦ let rest = contains-select_and p xs u in ground (arith, rest)
]

already_any :
    (id u : Uuid) (xs : List KraAssignment)
    → contains (map assignee_of (select (λ a. a.definition_id == id && a.is_active) xs)) u
      ≡ any (is_active_for id u) xs
already_any id u [] = refl
already_any id u (x ∷ xs) =
    let rest = already_any id u xs in
    elim (Bool-cases (x.definition_id == id && x.is_active)) [
      | inl e ↦ rw e (ground (arith, rest))
      | inr e ↦ rw e (ground (arith, rest))
    ]

module _ (new_id : Uuid → Uuid) (definition : KraDefinition) (caller : Uuid) (today : Date) where
  abbrev rows_for : List Uuid → List KraAssignment
  rows_for = map (new_assignment new_id definition caller today)

  -- One active row more.
  any-row :
      (w u : Uuid) (xs : List KraAssignment)
      → any
          (is_active_for definition.id u)
          (xs ++ new_assignment new_id definition caller today w ∷ [])
        ≡ (any (is_active_for definition.id u) xs || (w == u))
  unfolding new_assignment
  any-row w u xs =
      let split =
        any-append (is_active_for definition.id u) xs
          (new_assignment new_id definition caller today w ∷ []) in
      let same = ==_refl definition.id in ground (arith, split, same)

  -- Who has an active row after the insert, and whose row was inserted.
  insert_active_lem :
      (ws : List Uuid) (u : Uuid) (xs : List KraAssignment)
      → (any (is_active_for definition.id u) (insert_active (rows_for ws) xs).0
          ≡ (any (is_active_for definition.id u) xs || contains ws u))
        × (contains (map assignee_of (insert_active (rows_for ws) xs).1) u
            ≡ (contains ws u && not (any (is_active_for definition.id u) xs)))
  unfolding insert_active new_assignment
  insert_active_lem [] u xs = (ground arith, refl)
  insert_active_lem (w ∷ ws) u xs =
      let same_any : (u == w) ≡ true
          → any (is_active_for definition.id u) xs ≡ any (is_active_for definition.id w) xs =
        λ k. ap (λ v. any (is_active_for definition.id v) xs) (==→eq u w k) in
      elim (Bool-cases (any (is_active_for definition.id w) xs)) [
        | inl e ↦
            let (after, given) = insert_active_lem ws u xs in
            elim (Bool-cases (u == w)) [
              | inl k ↦ let s = same_any k in rw e (ground (arith, after), ground (arith, given))
              | inr k ↦ rw (e, k) (after, given)
            ]
        | inr e ↦
            let (after, given) =
              insert_active_lem ws u (xs ++ new_assignment new_id definition caller today w ∷ []) in
            let more = any-row w u xs in
            elim (Bool-cases (u == w)) [
              | inl k ↦
                  let s = same_any k in
                  let same = ==→eq u w k in
                  let k' : (w == u) ≡ true = rw same (==_refl w) in
                  rw e (ground (arith, after, more), ground (arith, given, more))
              | inr k ↦
                  let k' : (w == u) ≡ false = ground arith in
                  rw e (ground (arith, after, more), ground (arith, given, more))
            ]
      ]

module _ {Float : Type 0} where
  pub notified_assignments :
      (write_fails : Uuid → Bool) (item_id : Uuid → Uuid) (definition : KraDefinition)
      (assigner : String) (rows : List KraAssignment) (d : Db Float)
      → (notify_all write_fails item_id definition assigner rows d).kra_assignments
        ≡ d.kra_assignments
  unfolding notify_all
  notified_assignments write_fails item_id definition assigner [] d = refl
  notified_assignments write_fails item_id definition assigner (a ∷ rest) d =
      notified_assignments write_fails item_id definition assigner rest _

  -- Giving a task writes it to the database: a user has an active assignment of it afterwards
  -- exactly if they had one before, those that others commit meanwhile counted in, or were asked
  -- for. A user is reported as given the task exactly if they were asked for and had none, and as
  -- skipped exactly if they were asked for and had one.
  pub give_to_covers :
      (new_id : Uuid → Uuid) (write_fails : Uuid → Bool) (item_id : Uuid → Uuid)
      (rivals : List KraAssignment) (definition : KraDefinition) (caller : Uuid) (today : Date)
      (wanted : List Uuid) (s : Session (Db Float)) (u : Uuid)
      → (created : List KraAssignment) × (skipped : List Uuid) × ((give_to new_id write_fails
            item_id rivals definition caller today wanted s).0
          ≡ ok (created, skipped))
        × (any
              (λ a. a.is_active && (a.definition_id == definition.id && a.assignee_id == u))
              (give_to new_id write_fails item_id rivals definition caller today wanted
                s).1.committed.kra_assignments
            ≡ (any (is_active_for definition.id u) (s.work.kra_assignments ++ rivals)
                || contains wanted u))
        × (contains (map assignee_of created) u ≡ (
            contains wanted u
            && not (any (is_active_for definition.id u) (s.work.kra_assignments ++ rivals))))
        × (contains skipped u ≡ (
            contains wanted u
            && any (is_active_for definition.id u) (s.work.kra_assignments ++ rivals)))
  unfolding give_to
  give_to_covers new_id write_fails item_id rivals definition caller today wanted s u =
      let already = already_assigned definition.id s.work in
      let before = s.work.kra_assignments ++ rivals in
      let targets = select (λ v. not (contains already v)) wanted in
      let given =
        map assignee_of
          (insert_active (rows_for new_id definition caller today targets) before).1 in
      let (after, made) = insert_active_lem new_id definition caller today targets u before in
      let some_before = any-append (is_active_for definition.id u) s.work.kra_assignments rivals in
      let known = already_any definition.id u s.work.kra_assignments in
      let asked = contains-select_and (λ v. not (contains already v)) wanted u in
      let left = contains-select_and (λ v. not (contains given v)) wanted u in
      (
        (insert_active (rows_for new_id definition caller today targets) before).1,
        select (λ v. not (contains given v)) wanted,
        refl,
        rw notified_assignments (rw after (rw (asked, known, some_before) (ground arith))),
        rw (made, asked, known, some_before) (ground arith),
        rw (left, made, asked, known, some_before) (ground arith),
      )
