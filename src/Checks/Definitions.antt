-- ===== src/Checks/Definitions.antt =====
-- A definition that is renamed, and the summary of its occurrences.
use ski_tech_backend.Base.{ℕ, ◌+◌, true, none, some, List, [], ◌∷◌, ◌≡◌, length}
use ski_tech_backend.Runtime.{Uuid}
use ski_tech_backend.Session.{Session, begin}
use ski_tech_backend.Models.{Db}
use ski_tech_backend.Models.Kra.{Frequency, KraDefinition}
use ski_tech_backend.KraTasks.Calendar.{Date}
use ski_tech_backend.KraTasks.Definitions.{DefinitionUpdate, update_definition}
use ski_tech_backend.KraTasks.Summary.{OccurrenceRow, is_of_frequency, summary_of}
use ski_tech_backend.KraTasks.Summary.Totals.{IsCountedBy, summary_of_counts}
use ski_tech_backend.Checks.{start, task, due, manager_token}

abbrev session : Session (Db ℕ)
session = begin start

abbrev renaming : DefinitionUpdate
renaming = record {
  title = some "Check both pools";
  description = none;
  value_label = none;
  is_active = none;
  frequency = none;
}

abbrev new_id : Uuid → Date → Uuid
new_id a day = 5000 + day

abbrev renamed : KraDefinition
renamed = record task { title = "Check both pools" }

abbrev after_renaming : Session (Db ℕ)
after_renaming = (update_definition new_id [] 41 manager_token 400 renaming session).1

abbrev rows : List OccurrenceRow
rows = (due, task) ∷ []

summary_of_counts_example :
    let s = summary_of none none none rows in
    IsCountedBy (is_of_frequency Frequency.daily) rows s.daily
    × IsCountedBy (is_of_frequency Frequency.weekly) rows s.weekly
    × IsCountedBy (is_of_frequency Frequency.monthly) rows s.monthly
    × IsCountedBy (is_of_frequency Frequency.quarterly) rows s.quarterly
    × IsCountedBy (λ _. true) rows s.totals
    × (s.totals.pending + s.totals.delayed + s.totals.completed ≡ length rows)
    × (s.totals.total ≡ length rows)
summary_of_counts_example = summary_of_counts none none none rows
