-- ===== src/TimeSeries/Tests.antt =====
-- A `TimeSeries` (include/process/timeseries.hpp) of a small capacity, and the theorems at it.
use libprocess.Common.{ℕ, refl, ◌≤◌, ◌≡◌, none, some, List, [], ◌∷◌, arith, length}
use libprocess.TimeSeries.{TimeSeries, assign, last, create, set, get, invalid, lower_bound, up_to}
use libprocess.TimeSeries.Range.{select, get-select}
use libprocess.TimeSeries.Entries.{Above}
use libprocess.TimeSeries.Truncation.{Inv}
use libprocess.TimeSeries.Bounded.{set_all, set-Bounded, history_within_capacity}
use libprocess.TimeSeries.Fault.{Spread, sixth_write_faults}

abbrev full : TimeSeries ℕ
full = record {
  window = 100;
  capacity = 4;
  values = (1, 10) ∷ (2, 20) ∷ (3, 30) ∷ (4, 40) ∷ [];
  next = none;
  index = none;
}

full-Inv : Inv full
full-Inv = record { enough = omega arith; sorted = omega arith; placed = λ i e. absurd (cc) }

set-Bounded_example :
    (after : TimeSeries ℕ) × (set 5 50 5 full ≡ some after)
    × Inv after
    × (length after.values ≤ after.capacity)
    × (after.capacity ≡ full.capacity)
    × (last after.values ≡ last (assign 5 50 full.values))
set-Bounded_example = set-Bounded 5 50 5 full full-Inv

abbrev writes : List (ℕ × ℕ × ℕ)
writes = (1, 10, 1) ∷ (2, 20, 2) ∷ (3, 30, 3) ∷ (4, 40, 4) ∷ (5, 50, 5) ∷ (6, 60, 6) ∷ []

history_within_capacity_example :
    (after : TimeSeries ℕ) × (set_all writes (create 100 4) ≡ some after)
    × Above 0 after.values
    × (length after.values ≤ 4)
history_within_capacity_example = history_within_capacity 100 4 writes (omega arith)

one_to_six : Spread 6 100 1 2 3 4 5 6
one_to_six = omega arith

sixth_write_faults_example :
    set_all {T = ℕ}
      ((6, 0, 1) ∷ (6, 0, 2) ∷ (6, 0, 3) ∷ (6, 0, 4) ∷ (6, 0, 5) ∷ (6, 0, 6) ∷ [])
      (create 100 3)
    ≡ none
sixth_write_faults_example = sixth_write_faults 6 100 1 2 3 4 5 6 0 one_to_six 3 (omega arith)

full_range : get (some 2) (some 3) full ≡ (2, 20) ∷ (3, 30) ∷ []
unfolding get invalid lower_bound up_to
full_range = refl

full-Above : Above 0 full.values
full-Above = omega arith

get-select_example : get (some 2) (some 3) full ≡ select (some 2) (some 3) full.values
get-select_example = get-select (some 2) (some 3) full full-Above
