-- ===== src/KraTasks/Summary.antt =====
-- app/services/kra_task_service.py, `summarize`: the counts of the selected occurrences.
pub mod Totals
use ski_tech_backend.Base.{
  ℕ, ◌+◌, Bool, true, false, not, ◌&&◌, ◌||◌, Option, none, some, List, [], ◌∷◌, map, String, ◌==◌,
  ltb, leb, if◌then◌else◌, opt_eq, is_none, select, first, take, drop, length, order_by,
  order_by_desc, tally_from, tally,
}
use ski_tech_backend.Runtime.{Uuid}
use ski_tech_backend.Models.Kra.{
  Frequency, daily, weekly, monthly, quarterly, OccurrenceStatus, is_pending, is_delayed,
  is_completed, KraDefinition, KraOccurrence,
}
use ski_tech_backend.KraTasks.Calendar.{Date}
use ski_tech_backend.KraTasks.Definitions.{frequency_eq}

-- A row of `_occurrence_query`.
abbrev pub OccurrenceRow : Type 0
OccurrenceRow = KraOccurrence × KraDefinition

abbrev pub same_status : OccurrenceStatus → OccurrenceStatus → Bool
same_status OccurrenceStatus.pending t = is_pending t
same_status OccurrenceStatus.delayed t = is_delayed t
same_status OccurrenceStatus.completed t = is_completed t

-- The columns of `group_by`.
pub record GroupKey : Type 0 where
  pub frequency : Frequency
  pub status : OccurrenceStatus
  pub was_delayed : Bool

abbrev pub bool_eq : Bool → Bool → Bool
bool_eq true b = b
bool_eq false b = not b

abbrev pub key_eq : GroupKey → GroupKey → Bool
key_eq a b =
    frequency_eq a.frequency b.frequency
    && (same_status a.status b.status && bool_eq a.was_delayed b.was_delayed)

abbrev pub group_of : OccurrenceRow → GroupKey
group_of r = record {
  frequency = r.1.frequency;
  status = r.0.status;
  was_delayed = r.0.was_delayed;
}

pub record SummaryCounts : Type 0 where
  pub pending : ℕ
  pub delayed : ℕ
  pub completed : ℕ
  pub completed_with_delay : ℕ
  pub total : ℕ

abbrev pub blank : SummaryCounts
blank = record { pending = 0; delayed = 0; completed = 0; completed_with_delay = 0; total = 0 }

abbrev pub if_so : Bool → ℕ → ℕ
if_so true n = n
if_so false n = 0

-- What a group adds to a bucket.
unfoldable pub add_group : GroupKey → ℕ → SummaryCounts → SummaryCounts
add_group k count bucket = record {
  pending = bucket.pending + if_so (is_pending k.status) count;
  delayed = bucket.delayed + if_so (is_delayed k.status) count;
  completed = bucket.completed + if_so (is_completed k.status) count;
  completed_with_delay =
      bucket.completed_with_delay + if_so (is_completed k.status && k.was_delayed) count;
  total = bucket.total + count;
}

-- A bucket after the loop, which adds the groups that meet a test.
unfoldable pub add_groups : (GroupKey → Bool) → List (GroupKey × ℕ) → SummaryCounts → SummaryCounts
unfolding add_group
add_groups p [] bucket = bucket
add_groups p ((k, count) ∷ rest) bucket =
    add_groups p rest (if p k then add_group k count bucket else bucket)

abbrev pub is_of_frequency : Frequency → GroupKey → Bool
is_of_frequency f k = frequency_eq k.frequency f

pub record SummaryResponse : Type 0 where
  pub property_id : Option Uuid
  pub period_from : Option Date
  pub period_to : Option Date
  pub daily : SummaryCounts
  pub weekly : SummaryCounts
  pub monthly : SummaryCounts
  pub quarterly : SummaryCounts
  pub totals : SummaryCounts

-- The response of the selected rows.
unfoldable pub summary_of :
    Option Uuid → Option Date → Option Date → List OccurrenceRow → SummaryResponse
unfolding tally_from add_groups
summary_of scope period_from period_to rows =
    let groups = tally key_eq (map group_of rows) in
    record {
      property_id = scope;
      period_from = period_from;
      period_to = period_to;
      daily = add_groups (is_of_frequency Frequency.daily) groups blank;
      weekly = add_groups (is_of_frequency Frequency.weekly) groups blank;
      monthly = add_groups (is_of_frequency Frequency.monthly) groups blank;
      quarterly = add_groups (is_of_frequency Frequency.quarterly) groups blank;
      totals = add_groups (λ _. true) groups blank;
    }
