-- ===== src/TimeSeries/Bounded.antt =====
-- `TimeSeries` (include/process/timeseries.hpp) with a capacity of at least four: the deletion
-- candidate stays on an entry, and a write leaves no more entries than the capacity.
use mathlib.Core.Option.{some-injective}
use libprocess.Common.{
  ℕ, zero, suc, ◌+◌, ◌/◌, ◌≤◌, ◌<◌, ◌≡◌, refl, sym, ap, ◌∙◌, Option, none, some, List, [], ◌∷◌,
  arith, ltb, ltb→lt, length, inl, inr, Bool-cases, Option-cases,
}
use libprocess.TimeSeries.{
  TimeSeries, assign, last, head_time, behind, erase, create, second_time, candidate, remove_at,
  remove, sparsify_once, sparsify, insert, set,
}
use libprocess.TimeSeries.Entries.{Above, time_at, time_at-some, Erased, erase-Erased, erase-Above}
use libprocess.TimeSeries.Truncation.{Inv, create-Inv, insert-Inv, truncate-Inv}

module _ {T : Type 0} where
  -- What a round of the loop in `sparsify` does to a series above its capacity.
  record Thinned (ts : TimeSeries T) (r : Option (TimeSeries T)) : Type 0 where
    after : TimeSeries T
    succeeds : r ≡ some after
    inv : Inv after
    same_capacity : after.capacity ≡ ts.capacity
    same_last : last after.values ≡ last ts.values
    fewer : length after.values + 1 ≡ length ts.values

  -- The candidate is the entry at its index, in the older half of the series.
  record Candidate (ts : TimeSeries T) (c : Option ℕ × ℕ) : Type 0 where
    at : c.0 ≡ time_at ts.values c.1
    low : (c.1 ≤ length ts.values / 2) × (1 ≤ length ts.values / 2)

  second_time-at : (es : List (ℕ × T)) → second_time es ≡ time_at es 1
  second_time-at [] = refl
  second_time-at (e ∷ []) = refl
  second_time-at (e ∷ f ∷ es) = refl

  candidate_lem :
      (ts : TimeSeries T) → Inv ts → ts.capacity < length ts.values → Candidate ts (candidate ts)
  unfolding candidate
  candidate_lem ts a h = elim (Option-cases ts.index) [
    | inl e ↦ ground (arith, second_time-at ts.values)
    | inr (i, e) ↦ ground (arith, second_time-at ts.values, a.placed i e)
  ]

  head_time-at : (es : List (ℕ × T)) → head_time es ≡ time_at es 0
  head_time-at [] = refl
  head_time-at (e ∷ es) = refl

  remove-Thinned :
      (k i : ℕ) (ts : TimeSeries T) (rest : List (ℕ × T))
      → rest ≡ behind k ts.values
      → Inv ts
      → Erased i k ts.values
      → i + 2 < length ts.values
      → Thinned ts (remove k i rest ts)
  unfolding remove
  remove-Thinned k i ts [] q a e h = absurd (omega (arith, ap length q, e.rest_length))
  remove-Thinned k i ts (x ∷ es) q a e h = record {
    after = record ts { values = erase k ts.values; next = head_time es; index = some (i + 1) };
    succeeds = refl;
    inv = record {
      enough = a.enough;
      sorted = erase-Above 0 k ts.values a.sorted;
      placed = λ j w.
          let n = some-injective _ _ w in
          (
            omega (arith, n, e.one_less),
            head_time-at es
                ∙ ap (λ r. time_at r 1) q
                ∙ sym (e.follows 1)
                ∙ ap (time_at (erase k ts.values)) n,
          );
    };
    same_capacity = refl;
    same_last = e.same_last (omega arith);
    fewer = e.one_less;
  }

  remove_at-Thinned :
      (o : Option ℕ) (i : ℕ) (ts : TimeSeries T)
      → Inv ts
      → ts.capacity < length ts.values
      → Candidate ts (o, i)
      → Thinned ts (remove_at o i ts)
  unfolding remove_at
  remove_at-Thinned none i ts a h c =
      let (k, t) = time_at-some ts.values i (omega (arith, c.low, a.enough, h)) in
      absurd (let z = c.at ∙ t in cc)
  remove_at-Thinned (some k) i ts a h c =
      remove-Thinned k i ts (behind k ts.values) refl a
        (erase-Erased 0 i k ts.values a.sorted (sym c.at)) (omega (arith, c.low, a.enough, h))

  sparsify_once-Thinned :
      (ts : TimeSeries T) → Inv ts → ts.capacity < length ts.values → Thinned ts (sparsify_once ts)
  unfolding sparsify_once
  sparsify_once-Thinned ts a h =
      remove_at-Thinned (candidate ts).0 (candidate ts).1 ts a h (candidate_lem ts a h)

  -- With a round for each entry the loop ends within the capacity.
  record Sparse (ts : TimeSeries T) (r : Option (TimeSeries T)) : Type 0 where
    after : TimeSeries T
    succeeds : r ≡ some after
    inv : Inv after
    same_capacity : after.capacity ≡ ts.capacity
    same_last : last after.values ≡ last ts.values
    bounded : length after.values ≤ after.capacity

  sparsify-Sparse :
      (fuel : ℕ) (ts : TimeSeries T)
      → Inv ts
      → length ts.values ≤ fuel
      → Sparse ts (sparsify fuel ts)
  unfolding sparsify
  sparsify-Sparse zero ts a h = record {
    after = ts;
    succeeds = refl;
    inv = a;
    same_capacity = refl;
    same_last = refl;
    bounded = omega arith;
  }
  sparsify-Sparse (suc fuel) ts a h = elim (Bool-cases (ltb ts.capacity (length ts.values))) [
    | inl over ↦
        let t = sparsify_once-Thinned ts a (ltb→lt _ _ over) in
        let r = sparsify-Sparse fuel t.after t.inv (omega (arith, t.fewer)) in
        record {
          after = r.after;
          succeeds = rw (over, sparsify, t.succeeds) r.succeeds;
          inv = r.inv;
          same_capacity = r.same_capacity ∙ t.same_capacity;
          same_last = r.same_last ∙ t.same_last;
          bounded = r.bounded;
        }
    | inr fits ↦ record {
      after = ts;
      succeeds = rw (fits, sparsify);
      inv = a;
      same_capacity = refl;
      same_last = refl;
      bounded = ground arith;
    }
  ]

  -- A write to a series with a capacity of at least four succeeds, whatever its time and the
  -- clock. It leaves no more entries than the capacity and a deletion candidate that is an entry,
  -- and neither the removal of old entries nor the thinning takes the newest entry away.
  pub set-Bounded :
      (now : ℕ) (v : T) (time : ℕ) (ts : TimeSeries T)
      → Inv ts
      → (after : TimeSeries T) × (set now v time ts ≡ some after)
        × Inv after
        × (length after.values ≤ after.capacity)
        × (after.capacity ≡ ts.capacity)
        × (last after.values ≡ last (assign time v ts.values))
  unfolding set insert
  set-Bounded now v time ts a =
      let t = truncate-Inv now (insert v time ts) (insert-Inv v time ts a) in
      let r = sparsify-Sparse (length t.after.values) t.after t.inv (omega arith) in
      (
        r.after,
        rw (t.succeeds, set) r.succeeds,
        r.inv,
        r.bounded,
        r.same_capacity ∙ t.same_capacity,
        r.same_last ∙ t.same_last,
      )

  -- A history of writes, each with the clock at that moment.
  unfoldable pub set_all : List (ℕ × T × ℕ) → TimeSeries T → Option (TimeSeries T)
  set_all [] ts = some ts
  set_all ((now, v, time) ∷ ws) ts = elim (set now v time ts) [
    | none ↦ none
    | some ts' ↦ set_all ws ts'
  ]

  set_all-Inv :
      (ws : List (ℕ × T × ℕ)) (ts : TimeSeries T)
      → Inv ts
      → length ts.values ≤ ts.capacity
      → (after : TimeSeries T) × (set_all ws ts ≡ some after)
        × Inv after
        × (length after.values ≤ ts.capacity)
  unfolding set_all
  set_all-Inv [] ts a h = (ts, refl, a, h)
  set_all-Inv ((now, v, time) ∷ ws) ts a h =
      let (t, e, b, n, c, l) = set-Bounded now v time ts a in
      let (u, f, d, m) = set_all-Inv ws t b n in (u, rw (e, set_all) f, d, omega (arith, m, c))

  -- From a new series with a capacity of at least four every history of writes succeeds, keeps the
  -- entries in ascending order of time and never leaves more of them than the capacity.
  pub history_within_capacity :
      (window capacity : ℕ) (ws : List (ℕ × T × ℕ))
      → 4 ≤ capacity
      → (after : TimeSeries T) × (set_all ws (create window capacity) ≡ some after)
        × Above 0 after.values
        × (length after.values ≤ capacity)
  unfolding create
  history_within_capacity window capacity ws h =
      let (t, e, a, n) =
        set_all-Inv ws (create window capacity) (create-Inv window capacity h) (omega arith) in
      (t, e, a.sorted, omega (arith, n))
