-- ===== src/TimeSeries/Entries.antt =====
-- The map of a `TimeSeries` (include/process/timeseries.hpp) as a list of entries: what the
-- operations on it keep, and where an iterator stands after them.
use libprocess.Common.{
  ℕ, zero, suc, ◌+◌, ◌-◌, ◌≤◌, ◌<◌, ◌≡◌, refl, sym, ap, ◌∙◌, false, Option, none, some, List, [],
  ◌∷◌, arith, leb, length, inl, inr, Bool-cases,
}
use mathlib.Core.Path.{subst}
use mathlib.Core.Option.{some-injective}
use libprocess.TimeSeries.{assign, last, unexpired, head_time, behind, erase, out_of_order}

module _ {T : Type 0} where
  -- Entries by ascending time, from `lo` on.
  abbrev pub Above : ℕ → List (ℕ × T) → Type 0
  Above lo [] = Unit {0}
  Above lo ((k, v) ∷ es) = (lo ≤ k) × Above (suc k) es

  -- The time of the entry at a position: none at the end.
  abbrev pub time_at : List (ℕ × T) → ℕ → Option ℕ
  time_at [] i = none
  time_at ((k, v) ∷ es) zero = some k
  time_at ((k, v) ∷ es) (suc i) = time_at es i

  pub Above-mono : (lo lo' : ℕ) (es : List (ℕ × T)) → lo' ≤ lo → Above lo es → Above lo' es
  Above-mono lo lo' [] h a = tt
  Above-mono lo lo' ((k, v) ∷ es) h a = (omega arith, a.1)

  pub assign-Above :
      (lo time : ℕ) (v : T) (es : List (ℕ × T))
      → lo ≤ time
      → Above lo es
      → Above lo (assign time v es)
  unfolding assign
  assign-Above lo time v [] h a = (h, tt)
  assign-Above lo time v ((k, u) ∷ es) h a = ground (arith, assign-Above (suc k) time v es)

  pub length-assign :
      (time : ℕ) (v : T) (es : List (ℕ × T))
      → (length es ≤ length (assign time v es)) × (length (assign time v es) ≤ length es + 1)
  unfolding assign
  length-assign time v [] = omega arith
  length-assign time v ((k, u) ∷ es) = ground (arith, length-assign time v es)

  le_of_in_order :
      (lo time k : ℕ) (u : T) (es : List (ℕ × T))
      → Above lo ((k, u) ∷ es)
      → out_of_order time ((k, u) ∷ es) ≡ false
      → k ≤ time
  unfolding out_of_order
  le_of_in_order lo time k u [] a h = ground arith
  le_of_in_order lo time k u ((l, w) ∷ es) a h =
      omega (arith, le_of_in_order (suc k) time l w es a.1 h)

  assign_behind :
      (time k : ℕ) (v u : T) (es : List (ℕ × T))
      → k < time
      → assign time v ((k, u) ∷ es) ≡ (k, u) ∷ assign time v es
  unfolding assign
  assign_behind time k v u es h = ground arith

  time_at-assign_one :
      (time k : ℕ) (v u : T) (i : ℕ)
      → out_of_order time ((k, u) ∷ []) ≡ false
      → i < 1
      → time_at (assign time v ((k, u) ∷ [])) i ≡ time_at ((k, u) ∷ []) i
  unfolding assign out_of_order
  time_at-assign_one time k v u zero h b = ground arith
  time_at-assign_one time k v u (suc i) h b = absurd (omega arith)

  -- An entry that is not written before the last one leaves every position as it was.
  pub time_at-assign :
      (lo time : ℕ) (v : T) (es : List (ℕ × T)) (i : ℕ)
      → Above lo es
      → out_of_order time es ≡ false
      → i < length es
      → time_at (assign time v es) i ≡ time_at es i
  unfolding out_of_order
  time_at-assign lo time v [] i a h b = absurd (omega arith)
  time_at-assign lo time v ((k, u) ∷ []) i a h b = time_at-assign_one time k v u i h b
  time_at-assign lo time v ((k, u) ∷ (l, w) ∷ es) zero a h b = rw (
      assign_behind time k v u ((l, w) ∷ es)
        (omega (arith, le_of_in_order (suc k) time l w es a.1 h)))
  time_at-assign lo time v ((k, u) ∷ (l, w) ∷ es) (suc i) a h b =
      rw
        (assign_behind time k v u ((l, w) ∷ es)
          (omega (arith, le_of_in_order (suc k) time l w es a.1 h)))
        (time_at-assign (suc k) time v ((l, w) ∷ es) i a.1 h (omega arith))

  pub last-Above :
      (lo : ℕ) (es : List (ℕ × T)) (k : ℕ) (v : T) → Above lo es → last es ≡ some (k, v) → lo ≤ k
  last-Above lo [] k v a h = cc
  last-Above lo ((j, u) ∷ []) k v a h = ground arith
  last-Above lo ((j, u) ∷ (l, w) ∷ es) k v a h =
      omega (arith, last-Above (suc j) ((l, w) ∷ es) k v a.1 h)

  pub unexpired-Above :
      (now window lo : ℕ) (es : List (ℕ × T)) → Above lo es → Above lo (unexpired now window es)
  unfolding unexpired
  unexpired-Above now window lo [] a = tt
  unexpired-Above now window lo ((k, v) ∷ es) a = ground (
    arith,
    unexpired-Above now window (suc k) es a.1,
    Above-mono (suc k) lo (unexpired now window es),
  )

  pub time_at-some : (es : List (ℕ × T)) (i : ℕ) → i < length es → (k : ℕ) × (time_at es i ≡ some k)
  time_at-some [] i h = absurd (omega arith)
  time_at-some ((k, v) ∷ es) zero h = (k, refl)
  time_at-some ((k, v) ∷ es) (suc i) h = time_at-some es i (omega arith)

  le_of_time_at : (lo i k : ℕ) (es : List (ℕ × T)) → Above lo es → time_at es i ≡ some k → lo ≤ k
  le_of_time_at lo i k [] a h = cc
  le_of_time_at lo zero k ((j, v) ∷ es) a h = ground arith
  le_of_time_at lo (suc i) k ((j, v) ∷ es) a h = omega (arith, le_of_time_at (suc j) i k es a.1 h)

  le_of_head : (lo : ℕ) (es : List (ℕ × T)) (k : ℕ) → Above lo es → head_time es ≡ some k → lo ≤ k
  le_of_head lo [] k a h = cc
  le_of_head lo ((j, v) ∷ es) k a h = ground arith

  pub length-unexpired :
      (now window : ℕ) (es : List (ℕ × T)) → length (unexpired now window es) ≤ length es
  unfolding unexpired
  length-unexpired now window [] = omega arith
  length-unexpired now window ((k, v) ∷ es) = ground (arith, length-unexpired now window es)

  -- An iterator behind the first entry that is kept stands that many positions further to the front
  -- as entries are dropped.
  pub time_at-unexpired :
      (now window lo : ℕ) (es : List (ℕ × T)) (i k first d : ℕ)
      → Above lo es
      → time_at es i ≡ some k
      → head_time (unexpired now window es) ≡ some first
      → first < k
      → d + length (unexpired now window es) ≡ length es
      → (d ≤ i) × (time_at (unexpired now window es) (i - d) ≡ some k)
  unfolding unexpired
  time_at-unexpired now window lo [] i k first d a h f lt n = cc
  time_at-unexpired now window lo ((j, v) ∷ es) zero k first d a h f lt n =
      elim (Bool-cases (leb (j + window) now)) [
        | inl old ↦ absurd (
            ground (
              arith,
              rw old at f,
              le_of_head (suc j) (unexpired now window es) first
                  (unexpired-Above now window (suc j) es a.1),
            ))
        | inr new ↦ rw new (ground (arith, rw new at n))
      ]
  time_at-unexpired now window lo ((j, v) ∷ es) (suc i) k first d a h f lt n =
      elim (Bool-cases (leb (j + window) now)) [
        | inl old ↦
            let m = rw old at n in
            let r =
              time_at-unexpired now window (suc j) es i k first (d - 1) a.1 h (rw old at f) lt
                (omega (arith, m, length-unexpired now window es)) in
            let e : suc i - d ≡ i - (d - 1) = omega (arith, m, length-unexpired now window es) in
            rw old (omega (arith, r.0, m), ap (time_at (unexpired now window es)) e ∙ r.1)
        | inr new ↦ rw new (ground (arith, rw new at n))
      ]

  -- Erasing the entry at a position, given by its time.
  pub record Erased (i k : ℕ) (es : List (ℕ × T)) : Type 0 where
    pub one_less : length (erase k es) + 1 ≡ length es
    pub rest_length : length (behind k es) + i + 1 ≡ length es
    pub follows : (j : ℕ) → time_at (erase k es) (i + j) ≡ time_at (behind k es) j
    pub same_last : i + 1 < length es → last (erase k es) ≡ last es

  last-cons : (e : ℕ × T) (es : List (ℕ × T)) → 0 < length es → last (e ∷ es) ≡ last es
  last-cons e [] h = absurd (omega arith)
  last-cons e (f ∷ es) h = refl

  erase_hit :
      (j : ℕ) (u : T) (es : List (ℕ × T))
      → (erase j ((j, u) ∷ es) ≡ es) × (behind j ((j, u) ∷ es) ≡ es)
  unfolding erase behind
  erase_hit j u es = ground arith

  erase_miss :
      (j k : ℕ) (u : T) (es : List (ℕ × T))
      → j < k
      → (erase k ((j, u) ∷ es) ≡ (j, u) ∷ erase k es) × (behind k ((j, u) ∷ es) ≡ behind k es)
  unfolding erase behind
  erase_miss j k u es h = ground arith

  Erased-zero : (j : ℕ) (u : T) (es : List (ℕ × T)) → Erased 0 j ((j, u) ∷ es)
  Erased-zero j u es =
      let (p, q) = erase_hit j u es in
      record {
        one_less = rw p (omega arith);
        rest_length = rw q (omega arith);
        follows = λ n. rw (p, q) (ap (time_at es) (omega arith));
        same_last = λ b. rw p (sym (last-cons (j, u) es (omega arith)));
      }

  Erased-suc :
      (i k j : ℕ) (u : T) (es : List (ℕ × T))
      → j < k
      → Erased i k es
      → Erased (suc i) k ((j, u) ∷ es)
  Erased-suc i k j u es h r =
      let (p, q) = erase_miss j k u es h in
      record {
        one_less = rw p (omega (arith, r.one_less));
        rest_length = rw q (omega (arith, r.rest_length));
        follows = λ n.
            rw (p, q)
              (ap (time_at ((j, u) ∷ erase k es))
                  (let e : suc i + n ≡ suc (i + n) = omega arith in e)
                ∙ r.follows n);
        same_last = λ b. rw p (
            last-cons (j, u) (erase k es) (omega (arith, r.one_less))
            ∙ r.same_last (omega arith)
            ∙ sym (last-cons (j, u) es (omega arith)));
      }

  pub erase-Erased :
      (lo i k : ℕ) (es : List (ℕ × T)) → Above lo es → time_at es i ≡ some k → Erased i k es
  erase-Erased lo i k [] a h = cc
  erase-Erased lo zero k ((j, u) ∷ es) a h =
      subst (λ n. Erased 0 n ((j, u) ∷ es)) (some-injective j k h) (Erased-zero j u es)
  erase-Erased lo (suc i) k ((j, u) ∷ es) a h =
      Erased-suc i k j u es (le_of_time_at (suc j) i k es a.1 h) (erase-Erased (suc j) i k es a.1 h)

  pub erase-Above : (lo k : ℕ) (es : List (ℕ × T)) → Above lo es → Above lo (erase k es)
  unfolding erase
  erase-Above lo k [] a = tt
  erase-Above lo k ((j, u) ∷ es) a =
      ground (arith, erase-Above (suc j) k es a.1, Above-mono (suc j) lo es)
