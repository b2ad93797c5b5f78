-- ===== src/TimeSeries/Range.antt =====
-- include/process/timeseries.hpp: what `TimeSeries<T>::get` returns.
use libprocess.Common.{
  ℕ, suc, ◌≤◌, ◌<◌, ◌≡◌, refl, ap, Bool, true, ◌&&◌, Option, none, some, List, [], ◌∷◌, arith,
  if◌then◌else◌, leb,
}
use libprocess.TimeSeries.{TimeSeries, get, invalid, lower_bound, up_to}
use libprocess.TimeSeries.Entries.{Above, Above-mono}

abbrev pub not_before : Option ℕ → ℕ → Bool
not_before none k = true
not_before (some start) k = leb start k

abbrev pub not_after : Option ℕ → ℕ → Bool
not_after none k = true
not_after (some stop) k = leb k stop

module _ {T : Type 0} where
  -- The entries of a range, bounds included, each looked at by itself.
  unfoldable pub select : Option ℕ → Option ℕ → List (ℕ × T) → List (ℕ × T)
  select start stop [] = []
  select start stop ((k, v) ∷ es) =
      let rest = select start stop es in
      if not_before start k && not_after stop k then (k, v) ∷ rest else rest

  select_all : (es : List (ℕ × T)) → select none none es ≡ es
  unfolding select
  select_all [] = refl
  select_all (e ∷ es) = ap (◌∷◌ e) (select_all es)

  -- Past the end of the range there is nothing to find.
  select_past :
      (start : Option ℕ) (stop lo : ℕ) (es : List (ℕ × T))
      → Above lo es
      → stop < lo
      → select start (some stop) es ≡ []
  unfolding select
  select_past start stop lo [] a h = refl
  select_past start stop lo ((k, v) ∷ es) a h =
      ground (arith, select_past start stop (suc k) es a.1 (omega (arith, a.0, h)))

  up_to-select :
      (stop lo : ℕ) (es : List (ℕ × T)) → Above lo es → up_to stop es ≡ select none (some stop) es
  unfolding up_to select
  up_to-select stop lo [] a = refl
  up_to-select stop lo ((k, v) ∷ es) a =
      ground (arith, up_to-select stop (suc k) es a.1, select_past none stop (suc k) es a.1)

  -- From an entry at or after the start on, the start no longer matters.
  select_started :
      (start lo : ℕ) (stop : Option ℕ) (es : List (ℕ × T))
      → Above lo es
      → start ≤ lo
      → select (some start) stop es ≡ select none stop es
  unfolding select
  select_started start lo stop [] a h = refl
  select_started start lo stop ((k, v) ∷ es) a h =
      ground (arith, select_started start (suc k) stop es a.1 (omega (arith, a.0, h)))

  lower_bound-select :
      (start lo : ℕ) (stop : Option ℕ) (es : List (ℕ × T))
      → Above lo es
      → select none stop (lower_bound start es) ≡ select (some start) stop es
  unfolding lower_bound select
  lower_bound-select start lo stop [] a = refl
  lower_bound-select start lo stop ((k, v) ∷ es) a = ground (
    arith,
    lower_bound-select start (suc k) stop es a.1,
    select_started start (suc k) stop es a.1,
  )

  lower_bound-Above :
      (start lo : ℕ) (es : List (ℕ × T)) → Above lo es → Above lo (lower_bound start es)
  unfolding lower_bound
  lower_bound-Above start lo [] a = tt
  lower_bound-Above start lo ((k, v) ∷ es) a =
      ground (
        arith,
        lower_bound-Above start (suc k) es a.1,
        Above-mono (suc k) lo (lower_bound start es),
      )

  select_invalid :
      (start stop : ℕ) (es : List (ℕ × T)) → stop < start → select (some start) (some stop) es ≡ []
  unfolding select
  select_invalid start stop [] h = refl
  select_invalid start stop ((k, v) ∷ es) h = ground (arith, select_invalid start stop es h)

  -- In a series whose entries ascend in time, `get` returns exactly the entries of the range, bounds
  -- included, in their order; a missing bound is none, and a range that ends before it starts is
  -- empty.
  pub get-select :
      (start stop : Option ℕ) (ts : TimeSeries T)
      → Above 0 ts.values
      → get start stop ts ≡ select start stop ts.values
  unfolding get invalid
  get-select none none ts a = ground (arith, select_all ts.values)
  get-select (some start) none ts a =
      ground (
        arith,
        select_all (lower_bound start ts.values),
        lower_bound-select start 0 none ts.values a,
      )
  get-select none (some stop) ts a = ground (arith, up_to-select stop 0 ts.values a)
  get-select (some start) (some stop) ts a = ground (
    arith,
    select_invalid start stop ts.values,
    up_to-select stop 0 (lower_bound start ts.values) (lower_bound-Above start 0 ts.values a),
    lower_bound-select start 0 (some stop) ts.values a,
  )
