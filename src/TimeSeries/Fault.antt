-- ===== src/TimeSeries/Fault.antt =====
-- `TimeSeries` (include/process/timeseries.hpp) with a capacity of three, the least that the
-- constructor allows: the deletion candidate can be `end()`, which `truncate` reads.
use libprocess.Common.{
  ℕ, ◌+◌, ◌≤◌, ◌<◌, ◌≡◌, refl, Option, none, some, List, [], ◌∷◌, arith, length,
}
use libprocess.TimeSeries.{
  TimeSeries, cut, truncate, create, insert, sparsify, sparsify_once, remove, behind, erase, set,
}
use libprocess.TimeSeries.Bounded.{set_all}

-- Six ascending times, none of them out of the window.
pub record Spread (now window t1 t2 t3 t4 t5 t6 : ℕ) : Type 0 where
  pub fresh : now < t1 + window
  pub lt12 : t1 < t2
  pub lt23 : t2 < t3
  pub lt34 : t3 < t4
  pub lt45 : t4 < t5
  pub lt56 : t5 < t6

module _ {T : Type 0} (now window : ℕ) (t1 t2 t3 t4 t5 t6 : ℕ) (v : T) where
  abbrev entries : List ℕ → List (ℕ × T)
  entries [] = []
  entries (t ∷ ts) = (t, v) ∷ entries ts

  -- The series of a capacity of three with the given entries, candidate and index.
  abbrev series : List ℕ → Option ℕ → Option ℕ → TimeSeries T
  series ts next index = record {
    window = window;
    capacity = 3;
    values = entries ts;
    next = next;
    index = index;
  }

  -- A write that adds its entry at the end and drops none for its age.
  set_lem :
      (time : ℕ) (ts inserted : TimeSeries T) (after : Option (TimeSeries T))
      → insert v time ts ≡ inserted
      → truncate now inserted ≡ some inserted
      → sparsify (length inserted.values) inserted ≡ after
      → set now v time ts ≡ after
  unfolding set
  set_lem time ts inserted after i t s = rw (i, t, set) s

  module _ (s : Spread now window t1 t2 t3 t4 t5 t6) where
    first : set now v t1 (series [] none none) ≡ some (series (t1 ∷ []) none none)
    unfolding insert truncate cut sparsify
    first = set_lem t1 _ (series (t1 ∷ []) none none) _ refl refl refl

    second : set now v t2 (series (t1 ∷ []) none none) ≡ some (series (t1 ∷ t2 ∷ []) none none)
    unfolding insert truncate cut sparsify
    second = set_lem t2 _ (series (t1 ∷ t2 ∷ []) none none) _ (ground arith) (ground arith) refl

    third :
        set now v t3 (series (t1 ∷ t2 ∷ []) none none) ≡ some (series (t1 ∷ t2 ∷ t3 ∷ []) none none)
    unfolding insert truncate cut sparsify
    third = set_lem t3 _ (series (t1 ∷ t2 ∷ t3 ∷ []) none none) _ (ground arith) (ground arith) refl

    -- The fourth entry exceeds the capacity: the second one goes, and `next` is the last one.
    fourth :
        set now v t4 (series (t1 ∷ t2 ∷ t3 ∷ []) none none)
        ≡ some (series (t1 ∷ t3 ∷ t4 ∷ []) (some t4) (some 2))
    unfolding insert truncate cut sparsify sparsify_once remove behind erase
    fourth =
        set_lem t4 _ (series (t1 ∷ t2 ∷ t3 ∷ t4 ∷ []) none none) _ (ground arith) (ground arith)
          (ground arith)

    -- The fifth write removes the entry before the last, and the skip leads to `end()`.
    fifth :
        set now v t5 (series (t1 ∷ t3 ∷ t4 ∷ []) (some t4) (some 2))
        ≡ some (series (t1 ∷ t3 ∷ t5 ∷ []) none (some 3))
    unfolding insert truncate cut sparsify sparsify_once remove behind erase
    fifth =
        set_lem t5 _ (series (t1 ∷ t3 ∷ t4 ∷ t5 ∷ []) (some t4) (some 2)) _ (ground arith)
          (ground arith) (ground arith)

    inserted :
        insert v t6 (series (t1 ∷ t3 ∷ t5 ∷ []) none (some 3))
        ≡ series (t1 ∷ t3 ∷ t5 ∷ t6 ∷ []) none (some 3)
    unfolding insert
    inserted = ground arith

    stopped : truncate now (series (t1 ∷ t3 ∷ t5 ∷ t6 ∷ []) none (some 3)) ≡ none
    unfolding truncate cut
    stopped = ground arith

    sixth : set now v t6 (series (t1 ∷ t3 ∷ t5 ∷ []) none (some 3)) ≡ none
    unfolding set
    sixth = rw (inserted, stopped, set) refl

    least : (capacity : ℕ) → capacity ≤ 3 → create window capacity ≡ series [] none none
    unfolding create
    least capacity h = ground arith

    -- With a capacity of at most three, six writes at ascending times, none of them out of the
    -- window, make `truncate` read the entry at `end()`.
    pub sixth_write_faults :
        (capacity : ℕ)
        → capacity ≤ 3
        → set_all
            ((now, v, t1)
              ∷ (now, v, t2)
              ∷ (now, v, t3)
              ∷ (now, v, t4)
              ∷ (now, v, t5)
              ∷ (now, v, t6)
              ∷ [])
            (create window capacity)
          ≡ none
    unfolding set_all
    sixth_write_faults capacity h =
        rw
          (
            least capacity h,
            first,
            set_all,
            second,
            set_all,
            third,
            set_all,
            fourth,
            set_all,
            fifth,
            set_all,
            sixth,
          )
          refl
