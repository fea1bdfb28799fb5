-- ===== src/KraTasks/Summary/Totals.antt =====
-- The summary beside direct counts of the rows.
use ski_tech_backend.Base.{
  ℕ, suc, ◌+◌, ◌≡◌, refl, ap, ◌∙◌, arith, Bool, true, false, ◌&&◌, inl, inr, Option, List, [], ◌∷◌,
  map, length, count_where, count_one, tally_from, tally, if◌then◌else◌, Bool-cases,
}
use ski_tech_backend.Runtime.{Uuid}
use ski_tech_backend.Models.Kra.{Frequency, is_pending, is_delayed, is_completed}
use ski_tech_backend.KraTasks.Calendar.{Date}
use ski_tech_backend.KraTasks.Summary.{
  OccurrenceRow, GroupKey, key_eq, group_of, SummaryCounts, blank, if_so, add_group, add_groups,
  is_of_frequency, summary_of,
}

-- The sum of the counts of the groups that meet a test.
weight : (GroupKey → Bool) → List (GroupKey × ℕ) → ℕ
weight w [] = 0
weight w ((k, n) ∷ rest) = if_so (w k) n + weight w rest

key_eq→same : (a b : GroupKey) → key_eq a b ≡ true → a ≡ b
key_eq→same a b h = ground arith

weight-count_one :
    (w : GroupKey → Bool) (j : GroupKey) (groups : List (GroupKey × ℕ))
    → weight w (count_one key_eq j groups) ≡ weight w groups + if_so (w j) 1
unfolding count_one weight
weight-count_one w j [] = omega arith
weight-count_one w j ((i, n) ∷ rest) = elim (Bool-cases (key_eq i j)) [
  | inl e ↦
      let same = key_eq→same i j e in
      rw e (elim (Bool-cases (w j)) [
        | inl y ↦ let y' : w i ≡ true = rw same y in rw (y, y') (omega arith)
        | inr y ↦ let y' : w i ≡ false = rw same y in rw (y, y') (omega arith)
      ])
  | inr e ↦ rw e (omega (arith, weight-count_one w j rest))
]

weight-tally :
    (w : GroupKey → Bool) (groups : List (GroupKey × ℕ)) (ks : List GroupKey)
    → weight w (tally_from key_eq groups ks) ≡ weight w groups + count_where w ks
unfolding tally_from
weight-tally w groups [] = omega arith
weight-tally w groups (k ∷ ks) =
    let rest = weight-tally w (count_one key_eq k groups) ks in
    let one = weight-count_one w k groups in
    elim (Bool-cases (w k)) [
      | inl y ↦ let one' = rw y at one in rw y (omega (arith, rest, one'))
      | inr y ↦ let one' = rw y at one in rw y (omega (arith, rest, one'))
    ]

count_where-map :
    (w : GroupKey → Bool) (rows : List OccurrenceRow)
    → count_where w (map group_of rows) ≡ count_where (λ r. w (group_of r)) rows
count_where-map w [] = refl
count_where-map w (r ∷ rows) = ground (arith, count_where-map w rows)

-- A bucket's fields as weights of the groups.
abbrev IsBucketOf : (GroupKey → Bool) → List (GroupKey × ℕ) → SummaryCounts → SummaryCounts → Type 0
IsBucketOf p groups b after =
    (after.pending ≡ b.pending + weight (λ k. p k && is_pending k.status) groups)
    × (after.delayed ≡ b.delayed + weight (λ k. p k && is_delayed k.status) groups)
    × (after.completed ≡ b.completed + weight (λ k. p k && is_completed k.status) groups)
    × (after.completed_with_delay
        ≡ b.completed_with_delay
          + weight (λ k. p k && (is_completed k.status && k.was_delayed)) groups)
    × (after.total ≡ b.total + weight p groups)

bucket_step :
    (p : GroupKey → Bool) (k : GroupKey) (n : ℕ) (rest : List (GroupKey × ℕ)) (t : Bool)
    (b after : SummaryCounts)
    → p k ≡ t
    → IsBucketOf p rest (if t then add_group k n b else b) after
    → IsBucketOf p ((k, n) ∷ rest) b after
unfolding add_group weight
bucket_step p k n rest true b after e (h0, h1, h2, h3, h4) =
    rw e (
      omega (arith, h0),
      omega (arith, h1),
      omega (arith, h2),
      omega (arith, h3),
      omega (arith, h4),
    )
bucket_step p k n rest false b after e (h0, h1, h2, h3, h4) =
    rw e (
      omega (arith, h0),
      omega (arith, h1),
      omega (arith, h2),
      omega (arith, h3),
      omega (arith, h4),
    )

add_groups-IsBucketOf :
    (p : GroupKey → Bool) (groups : List (GroupKey × ℕ)) (b : SummaryCounts)
    → IsBucketOf p groups b (add_groups p groups b)
unfolding add_groups weight
add_groups-IsBucketOf p [] b = (omega arith, omega arith, omega arith, omega arith, omega arith)
add_groups-IsBucketOf p ((k, n) ∷ rest) b =
    bucket_step p k n rest (p k) b _ refl
      (add_groups-IsBucketOf p rest (if p k then add_group k n b else b))

-- The number of rows whose group meets a test.
abbrev pub rows_with : (GroupKey → Bool) → List OccurrenceRow → ℕ
rows_with w rows = count_where (λ r. w (group_of r)) rows

weight_of_rows :
    (w : GroupKey → Bool) (rows : List OccurrenceRow)
    → weight w (tally key_eq (map group_of rows)) ≡ rows_with w rows
unfolding weight
weight_of_rows w rows =
    let tallied = weight-tally w [] (map group_of rows) in
    let mapped = count_where-map w rows in omega (arith, tallied, mapped)

-- A bucket counts, of the rows whose group meets a test, those of each status.
abbrev pub IsCountedBy : (GroupKey → Bool) → List OccurrenceRow → SummaryCounts → Type 0
IsCountedBy p rows bucket =
    (bucket.pending ≡ rows_with (λ k. p k && is_pending k.status) rows)
    × (bucket.delayed ≡ rows_with (λ k. p k && is_delayed k.status) rows)
    × (bucket.completed ≡ rows_with (λ k. p k && is_completed k.status) rows)
    × (bucket.completed_with_delay
        ≡ rows_with (λ k. p k && (is_completed k.status && k.was_delayed)) rows)
    × (bucket.total ≡ rows_with p rows)

bucket-IsCountedBy :
    (p : GroupKey → Bool) (rows : List OccurrenceRow)
    → IsCountedBy p rows (add_groups p (tally key_eq (map group_of rows)) blank)
bucket-IsCountedBy p rows =
    let (h0, h1, h2, h3, h4) = add_groups-IsBucketOf p (tally key_eq (map group_of rows)) blank in
    let w0 = weight_of_rows (λ k. p k && is_pending k.status) rows in
    let w1 = weight_of_rows (λ k. p k && is_delayed k.status) rows in
    let w2 = weight_of_rows (λ k. p k && is_completed k.status) rows in
    let w3 = weight_of_rows (λ k. p k && (is_completed k.status && k.was_delayed)) rows in
    let w4 = weight_of_rows p rows in
    (
      omega (arith, h0, w0),
      omega (arith, h1, w1),
      omega (arith, h2, w2),
      omega (arith, h3, w3),
      omega (arith, h4, w4),
    )

sum_of_states :
    (rows : List OccurrenceRow)
    → rows_with (λ k. true && is_pending k.status) rows
        + rows_with (λ k. true && is_delayed k.status) rows
        + rows_with (λ k. true && is_completed k.status) rows
      ≡ length rows
sum_of_states [] = omega arith
sum_of_states (r ∷ rows) = ground (arith, sum_of_states rows)

all_rows : (rows : List OccurrenceRow) → rows_with (λ _. true) rows ≡ length rows
all_rows [] = refl
all_rows (r ∷ rows) = ap suc (all_rows rows)

-- The summary of any rows counts each bucket as a direct count of them does: by frequency, those of
-- the frequency that are pending, delayed, completed and completed after a delay, and all of them;
-- in the totals the same of every row. The totals' three statuses add up to the number of rows.
pub summary_of_counts :
    (scope : Option Uuid) (period_from period_to : Option Date) (rows : List OccurrenceRow)
    → let s = summary_of scope period_from period_to rows in
      IsCountedBy (is_of_frequency Frequency.daily) rows s.daily
      × IsCountedBy (is_of_frequency Frequency.weekly) rows s.weekly
      × IsCountedBy (is_of_frequency Frequency.monthly) rows s.monthly
      × IsCountedBy (is_of_frequency Frequency.quarterly) rows s.quarterly
      × IsCountedBy (λ _. true) rows s.totals
      × (s.totals.pending + s.totals.delayed + s.totals.completed ≡ length rows)
      × (s.totals.total ≡ length rows)
unfolding summary_of
summary_of_counts scope period_from period_to rows =
    let totals = bucket-IsCountedBy (λ _. true) rows in
    let (h0, h1, h2, h3, h4) = totals in
    let sum = sum_of_states rows in
    let all = all_rows rows in
    (
      bucket-IsCountedBy (is_of_frequency Frequency.daily) rows,
      bucket-IsCountedBy (is_of_frequency Frequency.weekly) rows,
      bucket-IsCountedBy (is_of_frequency Frequency.monthly) rows,
      bucket-IsCountedBy (is_of_frequency Frequency.quarterly) rows,
      totals,
      omega (arith, h0, h1, h2, sum),
      h4 ∙ all,
    )
