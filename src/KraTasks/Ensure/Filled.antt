-- ===== src/KraTasks/Ensure/Filled.antt =====
-- What `ensure_occurrences` leaves, and what a second call does.
use ski_tech_backend.Base.{
  ◌≤◌, ◌≡◌, refl, sym, ap, ◌∙◌, arith, true, ◌||◌, All, List, [], ◌∷◌, ◌++◌, append_assoc,
  append-nil, any, any-append, length, subst,
}
use ski_tech_backend.Runtime.{Uuid}
use ski_tech_backend.Session.{Session, ok}
use ski_tech_backend.Models.{Db}
use ski_tech_backend.Models.Kra.{Frequency, KraAssignment, KraOccurrence}
use ski_tech_backend.KraTasks.Calendar.{Date}
use ski_tech_backend.KraTasks.Periods.{period_for}
use ski_tech_backend.KraTasks.Periods.Newest.{periods_newest_first_lem}
use ski_tech_backend.KraTasks.Ensure.{
  EnsureArgs, EnsureResult, joined_frequency, join_all, assignments_for, queue_all, has_key,
  insert_ignoring, inserted, ensure_occurrences,
}
use ski_tech_backend.KraTasks.Ensure.Queue.{
  any-queue_all, IsFilled, queue_all_none, any-insert_ignoring, HasUniquePeriods,
  insert_ignoring-HasUniquePeriods, insert_ignoring_adds,
}

All-split :
    {A : Type 0} (P : A → Type 0) (before xs : List A)
    → ((done : List A) (x : A) (rest : List A) → done ++ x ∷ rest ≡ before ++ xs → P x)
    → All P xs
All-split P before [] h = tt
All-split P before (x ∷ xs) h = (
  h before x xs refl,
  All-split P (before ++ x ∷ []) xs
      (λ done y rest e. h done y rest (e ∙ append_assoc before (x ∷ []) xs)),
)

module _ {Float : Type 0} where
  -- The occurrences that a session sees.
  abbrev pub occurrences_of : Session (Db Float) → List KraOccurrence
  occurrences_of s = s.work.kra_occurrences

  join_all_same :
      (args : EnsureArgs) (d : Db Float) (ys : List KraOccurrence) (xs : List KraAssignment)
      → join_all args (record d { kra_occurrences = ys }) xs ≡ join_all args d xs
  unfolding join_all joined_frequency
  join_all_same args d ys [] = refl
  join_all_same args d ys (x ∷ xs) = rw (join_all_same args d ys xs) refl

  module _ (new_id : Uuid → Date → Uuid) (rivals : List KraOccurrence) (args : EnsureArgs)
      (s s' : Session (Db Float)) (r : EnsureResult)
      (run : ensure_occurrences new_id rivals args s ≡ (ok r, s')) where
    abbrev rows : List KraOccurrence
    rows = (queue_all new_id args.up_to_date s.work.kra_occurrences (assignments_for args s.work)).0

    after_eq : occurrences_of s' ≡ insert_ignoring rows (s.work.kra_occurrences ++ rivals)
    unfolding ensure_occurrences
    after_eq = ground arith

    capped_eq :
        r.capped_assignments
        ≡ (queue_all new_id args.up_to_date s.work.kra_occurrences (assignments_for args s.work)).1
    unfolding ensure_occurrences
    capped_eq = ground arith

    created_eq : r.created ≡ inserted rows (s.work.kra_occurrences ++ rivals)
    unfolding ensure_occurrences
    created_eq = ground arith

    -- The occurrences that are there, those of concurrent transactions among them, stay as they
    -- are, and as many as the result counts are added at the end. Where no assignment had two
    -- occurrences of one period before, none has two afterwards.
    pub ensure_occurrences_adds :
        HasUniquePeriods (s.work.kra_occurrences ++ rivals)
        → (added : List KraOccurrence) × (occurrences_of s'
            ≡ (s.work.kra_occurrences ++ rivals) ++ added)
          × (length added ≡ r.created)
          × HasUniquePeriods (occurrences_of s')
    ensure_occurrences_adds unique =
        let (added, e, count) = insert_ignoring_adds rows (s.work.kra_occurrences ++ rivals) in
        (
          added,
          after_eq ∙ e,
          count ∙ sym created_eq,
          rw after_eq
              (insert_ignoring-HasUniquePeriods rows (s.work.kra_occurrences ++ rivals) unique),
        )

    fills :
        (before : List (KraAssignment × Frequency)) (a : KraAssignment) (f : Frequency)
        (after : List (KraAssignment × Frequency))
        → assignments_for args s.work ≡ before ++ (a, f) ∷ after
        → r.capped_assignments ≡ 0
        → IsFilled args.up_to_date (occurrences_of s') (a, f)
    fills before a f after e free start listed =
        let xs = s.work.kra_occurrences in
        let queued : (any (has_key a.id start) xs || any (has_key a.id start) rows) ≡ true =
          subst
            (λ chosen.
              (any (has_key a.id start) xs
                || any (has_key a.id start) (queue_all new_id args.up_to_date xs chosen).0)
              ≡ true)
            (sym e)
            (any-queue_all new_id args.up_to_date xs before a f after start
              (rw (capped_eq, e) at free) listed) in
        let kept = any-insert_ignoring a.id start rows (xs ++ rivals) in
        let split = any-append (has_key a.id start) xs rivals in
        rw (after_eq, kept, split) (ground (arith, queued))

    -- Where no assignment was capped, every active assignment that was asked for has an occurrence
    -- of the period of each day from its start date to the last day.
    pub ensure_occurrences_fills :
        (before : List (KraAssignment × Frequency)) (a : KraAssignment) (f : Frequency)
        (after : List (KraAssignment × Frequency)) (day : Date)
        → assignments_for args s.work ≡ before ++ (a, f) ∷ after
        → r.capped_assignments ≡ 0
        → 1 ≤ a.start_date
        → a.start_date ≤ day
        → day ≤ args.up_to_date
        → any (has_key a.id (period_for f day).0) (occurrences_of s') ≡ true
    ensure_occurrences_fills before a f after day e free pos lo hi =
        let listed = (periods_newest_first_lem f a.start_date pos args.up_to_date day lo hi).0 in
        fills before a f after e free (period_for f day).0 listed

    work_eq : s'.work ≡ record s.work { kra_occurrences = occurrences_of s' }
    unfolding ensure_occurrences
    work_eq = ground arith

    same_assignments : assignments_for args s'.work ≡ assignments_for args s.work
    unfolding assignments_for
    same_assignments =
        ap (λ (d : Db Float). join_all args d d.kra_assignments) work_eq
        ∙ join_all_same args s.work (occurrences_of s') s.work.kra_assignments

    -- After a call that capped no assignment, a second call with the same arguments and no
    -- concurrent ones creates nothing and leaves the occurrences as they are.
    pub ensure_occurrences_again :
        (new_id' : Uuid → Date → Uuid)
        → r.capped_assignments ≡ 0
        → ((ensure_occurrences new_id' [] args s').0
            ≡ ok (record { created = 0; capped_assignments = 0 }))
          × (occurrences_of (ensure_occurrences new_id' [] args s').1 ≡ occurrences_of s')
    unfolding ensure_occurrences insert_ignoring inserted
    ensure_occurrences_again new_id' free =
        let none_queued =
          queue_all_none new_id' args.up_to_date (occurrences_of s') (assignments_for args s.work) (
            All-split (IsFilled args.up_to_date (occurrences_of s')) []
              (assignments_for args s.work)
              (λ before p after e. fills before p.0 p.1 after (sym e) free)) in
        rw (same_assignments, none_queued) (refl, append-nil _)
