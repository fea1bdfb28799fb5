-- ===== src/KraTasks/Ensure/Queue.antt =====
-- The rows that are queued for assignments, and what an insert of them leaves.
use ski_tech_backend.Base.{
  ℕ, suc, ◌≡◌, refl, ap, arith, true, false, ◌||◌, inl, inr, All, List, [], ◌∷◌, ◌++◌, map,
  append_assoc, append-nil, ==_refl, ==→eq, any, any-append, contains, length, Bool-cases,
}
use ski_tech_backend.Runtime.{Uuid}
use ski_tech_backend.Models.Kra.{Frequency, KraAssignment, KraOccurrence}
use ski_tech_backend.KraTasks.Calendar.{Date}
use ski_tech_backend.KraTasks.Periods.{periods_newest_first}
use ski_tech_backend.KraTasks.Periods.Newest.{start_of}
use ski_tech_backend.KraTasks.Ensure.{
  existing, new_occurrence, queue, queue_all, has_key, insert_ignoring, inserted,
}

contains-existing :
    (i : Uuid) (start : Date) (xs : List KraOccurrence)
    → contains (existing i xs) start ≡ any (has_key i start) xs
unfolding existing
contains-existing i start [] = refl
contains-existing i start (x ∷ xs) = ground (arith, contains-existing i start xs)

-- A listed start that is not there yet is queued, where no limit left it out.
any-queue :
    (new_id : Uuid → Date → Uuid) (a : KraAssignment) (done : List Date) (n : ℕ)
    (ps : List (Date × Date)) (start : Date)
    → (queue new_id a done n ps).1 ≡ false
    → contains (map start_of ps) start ≡ true
    → (contains done start || any (has_key a.id start) (queue new_id a done n ps).0) ≡ true
unfolding queue new_occurrence
any-queue new_id a done n [] start free listed = cc
any-queue new_id a done n (p ∷ ps) start free listed = ground (
  arith,
  any-queue new_id a done n ps start,
  any-queue new_id a done (suc n) ps start,
  ==_refl a.id,
  ==→eq start p.0,
  ==_refl start,
)

-- Nothing is queued where every listed start is there.
queue_none :
    (new_id : Uuid → Date → Uuid) (a : KraAssignment) (done : List Date) (n : ℕ)
    (ps : List (Date × Date))
    → ((start : Date) → contains (map start_of ps) start ≡ true → contains done start ≡ true)
    → queue new_id a done n ps ≡ ([], false)
unfolding queue
queue_none new_id a done n [] h = refl
queue_none new_id a done n (p ∷ ps) h =
    rw (h p.0 (ground (arith, ==_refl p.0)))
      (queue_none new_id a done n ps (λ start listed. h start (ground arith)))

same_key_listed :
    (i : Uuid) (start : Date) (r : KraOccurrence) (rows xs : List KraOccurrence)
    → any (has_key r.assignment_id r.period_start) xs ≡ true
    → any (has_key i start) (insert_ignoring rows xs)
      ≡ (any (has_key i start) xs || any (has_key i start) rows)
    → any (has_key i start) (insert_ignoring rows xs)
      ≡ (any (has_key i start) xs || any (has_key i start) (r ∷ rows))
same_key_listed i start r rows xs listed h = elim (Bool-cases (has_key i start r)) [
  | inl e ↦
      let ei : r.assignment_id ≡ i = ==→eq _ _ (ground arith) in
      let es : r.period_start ≡ start = ==→eq _ _ (ground arith) in
      let found = rw (ei, es) at listed in ground arith
  | inr e ↦ ground arith
]

pub any-insert_ignoring :
    (i : Uuid) (start : Date) (rows xs : List KraOccurrence)
    → any (has_key i start) (insert_ignoring rows xs)
      ≡ (any (has_key i start) xs || any (has_key i start) rows)
unfolding insert_ignoring
any-insert_ignoring i start [] xs = ground arith
any-insert_ignoring i start (r ∷ rows) xs =
    elim (Bool-cases (any (has_key r.assignment_id r.period_start) xs)) [
      | inl e ↦ rw e (same_key_listed i start r rows xs e (any-insert_ignoring i start rows xs))
      | inr e ↦
          let added = any-append (has_key i start) xs (r ∷ []) in
          let rest = any-insert_ignoring i start rows (xs ++ r ∷ []) in
          rw (e, rest, added) (ground arith)
    ]

pub any-queue_all :
    (new_id : Uuid → Date → Uuid) (up_to : Date) (xs : List KraOccurrence)
    (before : List (KraAssignment × Frequency)) (a : KraAssignment) (f : Frequency)
    (after : List (KraAssignment × Frequency)) (start : Date)
    → (queue_all new_id up_to xs (before ++ (a, f) ∷ after)).1 ≡ 0
    → contains (map start_of (periods_newest_first f a.start_date up_to)) start ≡ true
    → (any (has_key a.id start) xs
        || any (has_key a.id start) (queue_all new_id up_to xs (before ++ (a, f) ∷ after)).0)
      ≡ true
unfolding queue_all
any-queue_all new_id up_to xs [] a f after start free listed =
    let ps = periods_newest_first f a.start_date up_to in
    let rows = queue new_id a (existing a.id xs) 0 ps in
    let own = any-queue new_id a (existing a.id xs) 0 ps start in
    let old = contains-existing a.id start xs in
    let split = any-append (has_key a.id start) rows.0 (queue_all new_id up_to xs after).0 in
    ground (arith, own, old, split)
any-queue_all new_id up_to xs ((b, g) ∷ before) a f after start free listed =
    let ps = periods_newest_first g b.start_date up_to in
    let rows = queue new_id b (existing b.id xs) 0 ps in
    let rest = any-queue_all new_id up_to xs before a f after start in
    let split =
      any-append (has_key a.id start) rows.0
        (queue_all new_id up_to xs (before ++ (a, f) ∷ after)).0 in
    ground (arith, rest, split)

-- Every start from an assignment's first period to the last day has an occurrence.
abbrev pub IsFilled : Date → List KraOccurrence → KraAssignment × Frequency → Type 0
IsFilled up_to xs (a, f) =
    (start : Date)
    → contains (map start_of (periods_newest_first f a.start_date up_to)) start ≡ true
    → any (has_key a.id start) xs ≡ true

pub queue_all_none :
    (new_id : Uuid → Date → Uuid) (up_to : Date) (xs : List KraOccurrence)
    (assignments : List (KraAssignment × Frequency))
    → All (IsFilled up_to xs) assignments
    → queue_all new_id up_to xs assignments ≡ ([], 0)
unfolding queue_all
queue_all_none new_id up_to xs [] h = refl
queue_all_none new_id up_to xs ((a, f) ∷ rest) h =
    let none_queued =
      queue_none new_id a (existing a.id xs) 0 (periods_newest_first f a.start_date up_to)
        (λ start listed. rw (contains-existing a.id start xs) (h.0 start listed)) in
    let none_later = queue_all_none new_id up_to xs rest h.1 in rw (none_queued, none_later) refl

-- Every key is taken once at most.
abbrev pub HasUniquePeriods : List KraOccurrence → Type 0
HasUniquePeriods [] = Unit
HasUniquePeriods (x ∷ xs) =
    (any (has_key x.assignment_id x.period_start) xs ≡ false) × HasUniquePeriods xs

add_unique :
    (xs : List KraOccurrence) (r : KraOccurrence)
    → any (has_key r.assignment_id r.period_start) xs ≡ false
    → HasUniquePeriods xs
    → HasUniquePeriods (xs ++ r ∷ [])
add_unique [] r free unique = (refl, tt)
add_unique (x ∷ xs) r free unique =
    let split = any-append (has_key x.assignment_id x.period_start) xs (r ∷ []) in
    (ground (arith, split, unique.0), add_unique xs r (ground arith) unique.1)

pub insert_ignoring-HasUniquePeriods :
    (rows xs : List KraOccurrence)
    → HasUniquePeriods xs
    → HasUniquePeriods (insert_ignoring rows xs)
unfolding insert_ignoring
insert_ignoring-HasUniquePeriods [] xs h = h
insert_ignoring-HasUniquePeriods (r ∷ rows) xs h =
    elim (Bool-cases (any (has_key r.assignment_id r.period_start) xs)) [
      | inl e ↦ rw e (insert_ignoring-HasUniquePeriods rows xs h)
      | inr e ↦ rw e (insert_ignoring-HasUniquePeriods rows (xs ++ r ∷ []) (add_unique xs r e h))
    ]

-- The insert adds at the end only.
pub insert_ignoring_adds :
    (rows xs : List KraOccurrence)
    → (added : List KraOccurrence) × (insert_ignoring rows xs ≡ xs ++ added)
      × (length added ≡ inserted rows xs)
unfolding insert_ignoring inserted
insert_ignoring_adds [] xs = ([], rw append-nil refl, refl)
insert_ignoring_adds (r ∷ rows) xs =
    elim (Bool-cases (any (has_key r.assignment_id r.period_start) xs)) [
      | inl e ↦ rw e (insert_ignoring_adds rows xs)
      | inr e ↦
          let (added, after, count) = insert_ignoring_adds rows (xs ++ r ∷ []) in
          rw e (r ∷ added, rw append_assoc at after, ap suc count)
    ]
