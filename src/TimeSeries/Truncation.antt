-- ===== src/TimeSeries/Truncation.antt =====
-- `TimeSeries` (include/process/timeseries.hpp): the invariant of a series with a capacity of at least
-- four, and that an insertion and `truncate` keep it.
use mathlib.Core.Option.{some-injective}
use libprocess.Common.{
  ℕ, ◌+◌, ◌-◌, ◌≤◌, ◌<◌, ◌≡◌, refl, sym, ap, ◌∙◌, Option, none, some, List, [], ◌∷◌, arith,
  if◌then◌else◌, ltb, leb, ltb→lt, length, inl, inr, Bool-cases, Option-cases,
}
use libprocess.TimeSeries.{
  TimeSeries, last, unexpired, head_time, behind, out_of_order, create, cut, cut_from, truncate,
  insert,
}
use libprocess.TimeSeries.Entries.{
  Above, time_at, time_at-some, assign-Above, length-assign, time_at-assign, unexpired-Above,
  length-unexpired, time_at-unexpired,
}

module _ {T : Type 0} where
  pub record Inv (ts : TimeSeries T) : Type 0 where
    pub enough : 4 ≤ ts.capacity
    pub sorted : Above 0 ts.values
    pub placed :
        (i : ℕ) → ts.index ≡ some i → (i < length ts.values) × (ts.next ≡ time_at ts.values i)

  pub create-Inv : (window capacity : ℕ) → 4 ≤ capacity → Inv (create {T = T} window capacity)
  unfolding create
  create-Inv window capacity h = record {
    enough = omega arith;
    sorted = tt;
    placed = λ i e. absurd (cc);
  }

  pub insert-Inv : (v : T) (time : ℕ) (ts : TimeSeries T) → Inv ts → Inv (insert v time ts)
  unfolding insert
  insert-Inv v time ts a = record {
    enough = a.enough;
    sorted = assign-Above 0 time v ts.values (omega arith) a.sorted;
    placed = λ i e. elim (Bool-cases (out_of_order time ts.values)) [
      | inl late ↦ absurd (let z = rw late at e in cc)
      | inr early ↦
          let (b, n) = a.placed i (rw early at e) in
          (
            omega (arith, b, length-assign time v ts.values),
            n ∙ sym (time_at-assign 0 time v ts.values i a.sorted early b),
          )
    ];
  }

  -- What `truncate` does to a series: it succeeds, and keeps the newest entries.
  pub record Truncated (ts : TimeSeries T) (r : Option (TimeSeries T)) : Type 0 where
    pub after : TimeSeries T
    pub succeeds : r ≡ some after
    pub inv : Inv after
    pub same_capacity : after.capacity ≡ ts.capacity
    pub same_last : last after.values ≡ last ts.values

  last-unexpired :
      (now window : ℕ) (es : List (ℕ × T))
      → 0 < length (unexpired now window es)
      → last (unexpired now window es) ≡ last es
  unfolding unexpired
  last-unexpired now window [] h = refl
  last-unexpired now window ((k, v) ∷ []) h = ground arith
  last-unexpired now window ((k, v) ∷ (l, w) ∷ es) h = elim (Bool-cases (leb (k + window) now)) [
    | inl old ↦ rw old (last-unexpired now window ((l, w) ∷ es) (rw old at h))
    | inr new ↦ rw new
  ]

  cut-none :
      (first : ℕ) (ts : TimeSeries T) (kept : List (ℕ × T))
      → ts.index ≡ none
      → cut first kept ts ≡ some (record ts { values = kept })
  unfolding cut
  cut-none first ts kept e = ground arith

  cut-some :
      (first i k : ℕ) (ts : TimeSeries T) (kept : List (ℕ × T))
      → ts.index ≡ some i
      → ts.next ≡ some k
      → cut first kept ts
        ≡ some (
            if ltb first k
            then record ts { values = kept; index = some (i - (length ts.values - length kept)) }
            else record ts { values = kept; index = none })
  unfolding cut
  cut-some first i k ts kept e n = ground arith

  cut-Inv :
      (now first : ℕ) (ts : TimeSeries T) (kept : List (ℕ × T))
      → kept ≡ unexpired now ts.window ts.values
      → head_time kept ≡ some first
      → 0 < length kept
      → Inv ts
      → Truncated ts (cut first kept ts)
  cut-Inv now first ts kept q f n a = elim (Option-cases ts.index) [
    | inl e ↦ record {
      after = record ts { values = kept };
      succeeds = cut-none first ts kept e;
      inv = record { enough = a.enough; sorted = kept_Above; placed = λ i e'. absurd (cc) };
      same_capacity = refl;
      same_last = kept_last;
    }
    | inr (i, e) ↦
        let (b, m) = a.placed i e in
        let (k, t) = time_at-some ts.values i b in
        let r = cut-some first i k ts kept e (m ∙ t) in
        elim (Bool-cases (ltb first k)) [
          | inl before ↦
              let (d, p) = kept_at i k t (ltb→lt first k before) in
              record {
                after = record ts {
                  values = kept;
                  index = some (i - (length ts.values - length kept));
                };
                succeeds = rw before at r;
                inv = record {
                  enough = a.enough;
                  sorted = kept_Above;
                  placed = λ j e'.
                      let w = some-injective _ _ e' in
                      (omega (arith, w, b, d, kept_length), m ∙ t ∙ sym p ∙ ap (time_at kept) w);
                };
                same_capacity = refl;
                same_last = kept_last;
              }
          | inr behind ↦ record {
            after = record ts { values = kept; index = none };
            succeeds = rw behind at r;
            inv = record { enough = a.enough; sorted = kept_Above; placed = λ j e'. absurd (cc) };
            same_capacity = refl;
            same_last = kept_last;
          }
        ]
  ]
    where
      kept_Above : Above 0 kept
      kept_Above = rw q (unexpired-Above now ts.window 0 ts.values a.sorted)

      kept_length : length kept ≤ length ts.values
      kept_length = rw q (length-unexpired now ts.window ts.values)

      kept_last : last kept ≡ last ts.values
      kept_last = rw q (last-unexpired now ts.window ts.values (rw q at n))

      kept_at :
          (i k : ℕ)
          → time_at ts.values i ≡ some k
          → first < k
          → (length ts.values - length kept ≤ i)
            × (time_at kept (i - (length ts.values - length kept)) ≡ some k)
      kept_at i k t lt = rw q (
          time_at-unexpired now ts.window 0 ts.values i k first _ a.sorted t (rw q at f) lt
            (omega (arith, length-unexpired now ts.window ts.values)))

  untouched : (ts : TimeSeries T) → Inv ts → Truncated ts (some ts)
  untouched ts a = record {
    after = ts;
    succeeds = refl;
    inv = a;
    same_capacity = refl;
    same_last = refl;
  }

  cut_from-Inv :
      (now : ℕ) (ts : TimeSeries T) (kept : List (ℕ × T))
      → kept ≡ unexpired now ts.window ts.values
      → Inv ts
      → Truncated ts (cut_from kept ts)
  unfolding cut_from
  cut_from-Inv now ts [] q a = untouched ts a
  cut_from-Inv now ts ((k, v) ∷ es) q a = cut-Inv now k ts ((k, v) ∷ es) q refl (omega arith) a

  pub truncate-Inv : (now : ℕ) (ts : TimeSeries T) → Inv ts → Truncated ts (truncate now ts)
  unfolding truncate
  truncate-Inv now ts a = elim (Bool-cases (leb (length ts.values) 1)) [
    | inl few ↦ rw few (untouched ts a)
    | inr many ↦ rw many (cut_from-Inv now ts (unexpired now ts.window ts.values) refl a)
  ]
