-- ===== src/Complaints/Dashboards/Tallies.antt =====
-- The breakdowns of the dashboards beside their counters.
use ski_tech_backend.Base.{
  count_where, count_one, tally_from, tally, ℕ, suc, ◌+◌, ◌≡◌, refl, ap, arith, Bool, true, false,
  inl, inr, List, [], ◌∷◌, map, select, length, if◌then◌else◌, Bool-cases,
}
use ski_tech_backend.Runtime.{Runtime}
use ski_tech_backend.Models.Complaints.{
  ComplaintStatus, opened, in_progress, resolved, escalated, closed, ComplaintPriority, low, medium,
  high, critical, status_eq, priority_eq, category_eq, type_eq, Complaint,
}
use ski_tech_backend.Complaints.Dashboards.{
  category_of, type_of, has_status, has_priority, state_of, priority_of, manager_data,
  statistics_of,
}

-- `d.get(k, 0)`
abbrev pub lookup : {K : Type 0} → (K → K → Bool) → K → List (K × ℕ) → ℕ
lookup eq k [] = 0
lookup eq k ((j, n) ∷ rest) = if eq j k then n else lookup eq k rest

-- `sum(d.values())`
abbrev pub sum_of_values : {K : Type 0} → List (K × ℕ) → ℕ
sum_of_values [] = 0
sum_of_values ((j, n) ∷ rest) = n + sum_of_values rest

module _ {K : Type 0} (eq : K → K → Bool) (eq_refl : (a : K) → eq a a ≡ true)
    (eq→same : (a b : K) → eq a b ≡ true → a ≡ b) where
  abbrev one_if : K → K → ℕ
  one_if j k = if eq j k then 1 else 0

  lookup-count_one :
      (j k : K) (counts : List (K × ℕ))
      → lookup eq k (count_one eq j counts) ≡ lookup eq k counts + one_if j k
  unfolding count_one
  lookup-count_one j k [] = ground arith
  lookup-count_one j k ((i, n) ∷ rest) = elim (Bool-cases (eq i j)) [
    | inl e ↦
        let same = eq→same i j e in
        rw (e, same)
          (elim (Bool-cases (eq j k)) [ inl y ↦ rw y (omega arith) | inr y ↦ rw y (omega arith) ])
    | inr e ↦ elim (Bool-cases (eq i k)) [
      | inl y ↦
          let same = eq→same i k y in
          elim (Bool-cases (eq j k)) [
            | inl z ↦
                let j≡k = eq→same j k z in
                let hit = eq_refl k in let miss : eq k k ≡ false = rw (same, j≡k) at e in cc
            | inr z ↦ rw (e, y, z) (omega arith)
          ]
      | inr y ↦ rw (e, y) (lookup-count_one j k rest)
    ]
  ]

  lookup-tally_from :
      (k : K) (counts : List (K × ℕ)) (ks : List K)
      → lookup eq k (tally_from eq counts ks)
        ≡ lookup eq k counts + length (select (λ j. eq j k) ks)
  unfolding tally_from
  lookup-tally_from k counts [] = omega arith
  lookup-tally_from k counts (j ∷ ks) =
      let rest = lookup-tally_from k (count_one eq j counts) ks in
      let one = lookup-count_one j k counts in
      elim (Bool-cases (eq j k)) [
        | inl y ↦ let one' = rw y at one in rw y (omega (arith, rest, one'))
        | inr y ↦ let one' = rw y at one in rw y (omega (arith, rest, one'))
      ]

module _ {K : Type 0} (eq : K → K → Bool) where
  sum-count_one :
      (j : K) (counts : List (K × ℕ))
      → sum_of_values (count_one eq j counts) ≡ suc (sum_of_values counts)
  unfolding count_one
  sum-count_one j [] = omega arith
  sum-count_one j ((i, n) ∷ rest) = elim (Bool-cases (eq i j)) [
    | inl e ↦ rw e (omega arith)
    | inr e ↦ rw e (omega (arith, sum-count_one j rest))
  ]

  sum-tally_from :
      (counts : List (K × ℕ)) (ks : List K)
      → sum_of_values (tally_from eq counts ks) ≡ sum_of_values counts + length ks
  unfolding tally_from
  sum-tally_from counts [] = omega arith
  sum-tally_from counts (j ∷ ks) =
      let rest = sum-tally_from (count_one eq j counts) ks in
      let one = sum-count_one j counts in omega (arith, rest, one)

length-map : {A B : Type 0} (f : A → B) (xs : List A) → length (map f xs) ≡ length xs
length-map f [] = refl
length-map f (x ∷ xs) = ap suc (length-map f xs)

length-select-map :
    {A B : Type 0} (f : A → B) (p : B → Bool) (xs : List A)
    → length (select p (map f xs)) ≡ length (select (λ x. p (f x)) xs)
length-select-map f p [] = refl
length-select-map f p (x ∷ xs) = ground (arith, length-select-map f p xs)

status_eq_refl : (t : ComplaintStatus) → status_eq t t ≡ true
status_eq_refl t = ground arith

status_eq→same : (a b : ComplaintStatus) → status_eq a b ≡ true → a ≡ b
status_eq→same a b h = ground arith

priority_eq_refl : (t : ComplaintPriority) → priority_eq t t ≡ true
priority_eq_refl t = ground arith

priority_eq→same : (a b : ComplaintPriority) → priority_eq a b ≡ true → a ≡ b
priority_eq→same a b h = ground arith

lookup-status :
    (t : ComplaintStatus) (cs : List Complaint)
    → lookup status_eq t (tally status_eq (map state_of cs)) ≡ count_where (has_status t) cs
lookup-status t cs =
    let found = lookup-tally_from status_eq status_eq_refl status_eq→same t [] (map state_of cs) in
    let mapped = length-select-map state_of (λ u. status_eq u t) cs in omega (arith, found, mapped)

lookup-priority :
    (t : ComplaintPriority) (cs : List Complaint)
    → lookup priority_eq t (tally priority_eq (map priority_of cs))
      ≡ count_where (has_priority t) cs
lookup-priority t cs =
    let found =
      lookup-tally_from priority_eq priority_eq_refl priority_eq→same t [] (map priority_of cs) in
    let mapped = length-select-map priority_of (λ u. priority_eq u t) cs in
    omega (arith, found, mapped)

sum-map :
    {K : Type 0} (eq : K → K → Bool) (f : Complaint → K) (cs : List Complaint)
    → sum_of_values (tally eq (map f cs)) ≡ length cs
sum-map eq f cs =
    let total = sum-tally_from eq [] (map f cs) in
    let mapped = length-map f cs in omega (arith, total, mapped)

sum_by_priority :
    (cs : List Complaint)
    → count_where (has_priority critical) cs
        + count_where (has_priority high) cs
        + count_where (has_priority medium) cs
        + count_where (has_priority low) cs
      ≡ length cs
sum_by_priority [] = omega arith
sum_by_priority (c ∷ cs) = ground (arith, sum_by_priority cs)

sum_by_status :
    (cs : List Complaint)
    → count_where (has_status opened) cs
        + count_where (has_status in_progress) cs
        + count_where (has_status resolved) cs
        + count_where (has_status escalated) cs
        + count_where (has_status closed) cs
      ≡ length cs
sum_by_status [] = omega arith
sum_by_status (c ∷ cs) = ground (arith, sum_by_status cs)

-- The manager's dashboard, for any clock and complaints: the entry of by_status for open, in
-- progress and escalated complaints is their counter, the entry of by_priority for a priority is
-- the number of complaints of it, and the entries of each of the four breakdowns add up to the
-- total.
pub manager_data_counts :
    (now : ℕ) (cs : List Complaint)
    → (lookup status_eq opened (manager_data now cs).by_status
        ≡ (manager_data now cs).open_complaints)
      × (lookup status_eq in_progress (manager_data now cs).by_status
          ≡ (manager_data now cs).in_progress_count)
      × (lookup status_eq escalated (manager_data now cs).by_status
          ≡ (manager_data now cs).escalated_count)
      × ((p : ComplaintPriority)
          → lookup priority_eq p (manager_data now cs).by_priority
            ≡ count_where (has_priority p) cs)
      × (sum_of_values (manager_data now cs).by_priority ≡ (manager_data now cs).total_complaints)
      × (sum_of_values (manager_data now cs).by_status ≡ (manager_data now cs).total_complaints)
      × (sum_of_values (manager_data now cs).by_category ≡ (manager_data now cs).total_complaints)
      × (sum_of_values (manager_data now cs).by_type ≡ (manager_data now cs).total_complaints)
unfolding manager_data
manager_data_counts now cs = (
  lookup-status opened cs,
  lookup-status in_progress cs,
  lookup-status escalated cs,
  λ p. lookup-priority p cs,
  sum-map priority_eq priority_of cs,
  sum-map status_eq state_of cs,
  sum-map category_eq category_of cs,
  sum-map type_eq type_of cs,
)

module _ {Float : Type 0} (rt : Runtime Float) where
  -- In the statistics of any complaints, the counts by priority and the counts by status each add
  -- up to the total.
  pub statistics_of_sums :
      (cs : List Complaint)
      → ((statistics_of rt cs).critical
            + (statistics_of rt cs).high
            + (statistics_of rt cs).medium
            + (statistics_of rt cs).low
          ≡ (statistics_of rt cs).total)
        × ((statistics_of rt cs).opened
              + (statistics_of rt cs).in_progress
              + (statistics_of rt cs).resolved
              + (statistics_of rt cs).escalated
              + (statistics_of rt cs).closed
            ≡ (statistics_of rt cs).total)
  unfolding statistics_of
  statistics_of_sums cs = (sum_by_priority cs, sum_by_status cs)
