-- ===== src/Base/Counting.antt =====
-- Counting rows, and counts by a key.
use Prim.Native.Nat.{ℕ, suc}
use mathlib.Core.Bool.{Bool}
use mathlib.Core.List.{List, [], ◌∷◌}
use ski_tech_backend.Base.Tests.{if◌then◌else◌}
use ski_tech_backend.Base.Lists.{select, length}

abbrev pub count_where {ℓ} : {A : Type ℓ} → (A → Bool) → List A → ℕ
count_where p xs = length (select p xs)

-- A dict of counts, its keys in the order of their insertion; `d[k] = d.get(k, 0) + 1`.
unfoldable pub count_one : {K : Type 0} → (K → K → Bool) → K → List (K × ℕ) → List (K × ℕ)
count_one eq k [] = (k, 1) ∷ []
count_one eq k ((j, n) ∷ rest) = if eq j k then (j, suc n) ∷ rest else (j, n) ∷ count_one eq k rest

unfoldable pub tally_from : {K : Type 0} → (K → K → Bool) → List (K × ℕ) → List K → List (K × ℕ)
unfolding count_one
tally_from eq counts [] = counts
tally_from eq counts (k ∷ ks) = tally_from eq (count_one eq k counts) ks

abbrev pub tally : {K : Type 0} → (K → K → Bool) → List K → List (K × ℕ)
tally eq ks = tally_from eq [] ks
