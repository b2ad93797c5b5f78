-- ===== src/TimeSeries.antt =====
-- include/process/timeseries.hpp: `TimeSeries<T>`. The map is the list of its entries by ascending
-- time. `next` is an iterator: the time of the entry that it points to, or none for `end()`;
-- `none` as a result stands for the use of `end()` as an entry, which has no defined behaviour.
-- Time is counted in nanoseconds from the epoch, and `now` is an argument.
pub mod Entries
pub mod Truncation
pub mod Bounded
pub mod Fault
pub mod Range
mod Tests
use Prim.Native.Nat.{max}
use libprocess.Common.{
  ℕ, zero, suc, ◌+◌, ◌-◌, ◌/◌, Bool, true, false, Option, none, some, List, [], ◌∷◌, if◌then◌else◌,
  ltb, leb, ◌==◌, length,
}

module _ {T : Type 0} where
  -- `values[time] = value`
  unfoldable pub assign : ℕ → T → List (ℕ × T) → List (ℕ × T)
  assign time v [] = (time, v) ∷ []
  assign time v ((k, u) ∷ es) =
      if ltb time k
      then (time, v) ∷ (k, u) ∷ es
      else if time == k
      then (k, v) ∷ es
      else (k, u) ∷ assign time v es

  -- `values.rbegin()`
  abbrev pub last : List (ℕ × T) → Option (ℕ × T)
  last [] = none
  last (e ∷ []) = some e
  last (e ∷ f ∷ es) = last (f ∷ es)

  -- The entries from `values.upper_bound(now - window)` on. The difference may be negative in the
  -- source, so the sum is compared here.
  unfoldable pub unexpired : ℕ → ℕ → List (ℕ × T) → List (ℕ × T)
  unexpired now window [] = []
  unexpired now window ((k, v) ∷ es) =
      if leb (k + window) now then unexpired now window es else (k, v) ∷ es

  -- The entry that an iterator to the start of a list points to.
  abbrev pub head_time : List (ℕ × T) → Option ℕ
  head_time [] = none
  head_time ((k, v) ∷ es) = some k

  -- The entries behind the one at a time, and the map without that one.
  unfoldable pub behind : ℕ → List (ℕ × T) → List (ℕ × T)
  behind time [] = []
  behind time ((k, v) ∷ es) = if k == time then es else behind time es

  unfoldable pub erase : ℕ → List (ℕ × T) → List (ℕ × T)
  erase time [] = []
  erase time ((k, v) ∷ es) = if k == time then es else (k, v) ∷ erase time es

pub record TimeSeries (T : Type 0) : Type 0 where
  pub window : ℕ
  pub capacity : ℕ
  pub values : List (ℕ × T)
  pub next : Option ℕ
  pub index : Option ℕ

-- A range whose start lies behind its stop.
unfoldable invalid : Option ℕ → Option ℕ → Bool
invalid (some start) (some stop) = ltb stop start
invalid _ _ = false

module _ {T : Type 0} where
  -- The constructor. `next` is not initialised, and not read while `index` is none.
  unfoldable pub create : ℕ → ℕ → TimeSeries T
  create window capacity = record {
    window = window;
    capacity = max 3 capacity;
    values = [];
    next = none;
    index = none;
  }

  -- The last part of `truncate`, with the entries from the upper bound on, which start at `first`.
  unfoldable pub cut : ℕ → List (ℕ × T) → TimeSeries T → Option (TimeSeries T)
  cut first kept ts = elim ts.index [
    | none ↦ some (record ts { values = kept })
    | some i ↦ elim ts.next [
      | none ↦ none
      | some k ↦ some (
          if ltb first k
          then record ts { values = kept; index = some (i - (length ts.values - length kept)) }
          else record ts { values = kept; index = none })
    ]
  ]

  unfoldable pub cut_from : List (ℕ × T) → TimeSeries T → Option (TimeSeries T)
  unfolding cut
  cut_from [] ts = some ts
  cut_from ((k, v) ∷ es) ts = cut k ((k, v) ∷ es) ts

  unfoldable pub truncate : ℕ → TimeSeries T → Option (TimeSeries T)
  unfolding cut_from unexpired
  truncate now ts =
      if leb (length ts.values) 1 then some ts else cut_from (unexpired now ts.window ts.values) ts

  abbrev pub second_time : List (ℕ × T) → Option ℕ
  second_time [] = none
  second_time (e ∷ es) = head_time es

  -- The first lines of the loop's body in `sparsify`: where to remove, by iterator and by index.
  unfoldable pub candidate : TimeSeries T → Option ℕ × ℕ
  candidate ts = elim ts.index [
    | none ↦ (second_time ts.values, 1)
    | some i ↦ if ltb (length ts.values / 2) i then (second_time ts.values, 1) else (ts.next, i)
  ]

  -- `next = values.erase(next); next++; index = index.get() + 1`, with the entries behind `next`.
  unfoldable pub remove : ℕ → ℕ → List (ℕ × T) → TimeSeries T → Option (TimeSeries T)
  remove k i [] ts = none
  remove k i (e ∷ es) ts =
      some (record ts { values = erase k ts.values; next = head_time es; index = some (i + 1) })

  unfoldable pub remove_at : Option ℕ → ℕ → TimeSeries T → Option (TimeSeries T)
  remove_at none i ts = none
  remove_at (some k) i ts = remove k i (behind k ts.values) ts

  unfoldable pub sparsify_once : TimeSeries T → Option (TimeSeries T)
  unfolding candidate remove_at
  sparsify_once ts = remove_at (candidate ts).0 (candidate ts).1 ts

  -- The loop of `sparsify`. Each round removes an entry, so the number of entries is enough fuel.
  unfoldable pub sparsify : ℕ → TimeSeries T → Option (TimeSeries T)
  sparsify zero ts = some ts
  sparsify (suc fuel) ts = elim (ltb ts.capacity (length ts.values)) [
    | false ↦ some ts
    | true ↦ elim (sparsify_once ts) [ none ↦ none | some ts' ↦ sparsify fuel ts' ]
  ]

  -- Whether a time lies before the last entry.
  unfoldable pub out_of_order : ℕ → List (ℕ × T) → Bool
  out_of_order time es = elim (last es) [ none ↦ false | some (k, v) ↦ ltb time k ]

  unfoldable pub insert : T → ℕ → TimeSeries T → TimeSeries T
  unfolding out_of_order assign
  insert value time ts = record ts {
    index = if out_of_order time ts.values then none else ts.index;
    values = assign time value ts.values;
  }

  unfoldable pub set : ℕ → T → ℕ → TimeSeries T → Option (TimeSeries T)
  set now value time ts = elim (truncate now (insert value time ts)) [
    | none ↦ none
    | some ts' ↦ sparsify (length ts'.values) ts'
  ]

  unfoldable pub latest : TimeSeries T → Option (ℕ × T)
  latest ts = last ts.values

  -- `values.lower_bound(time)`, and the entries from an iterator up to `values.upper_bound(time)`.
  unfoldable pub lower_bound : ℕ → List (ℕ × T) → List (ℕ × T)
  lower_bound time [] = []
  lower_bound time ((k, v) ∷ es) = if ltb k time then lower_bound time es else (k, v) ∷ es

  unfoldable pub up_to : ℕ → List (ℕ × T) → List (ℕ × T)
  up_to time [] = []
  up_to time ((k, v) ∷ es) = if ltb time k then [] else (k, v) ∷ up_to time es

  abbrev pub from : Option ℕ → List (ℕ × T) → List (ℕ × T)
  from none es = es
  from (some start) es = lower_bound start es

  abbrev pub until : Option ℕ → List (ℕ × T) → List (ℕ × T)
  until none es = es
  until (some stop) es = up_to stop es

  unfoldable pub get : Option ℕ → Option ℕ → TimeSeries T → List (ℕ × T)
  unfolding invalid lower_bound up_to
  get start stop ts = if invalid start stop then [] else until stop (from start ts.values)
