-- ===== src/Sync/Queue/Fifo.antt =====
-- Histories of one `Queue` (include/process/queue.hpp): what was put, what was asked for, and which
-- request got which element.
use libprocess.Common.{
  ℕ, suc, ◌≤◌, Bool-cases, List-cases, ◌≡◌, refl, ap, ◌⊎◌, inl, inr, true, false, Option, none,
  some, List, [], ◌∷◌, ◌++◌, arith, if◌then◌else◌, append-nil, append_assoc, ◌==◌,
}
use libprocess.Sync.Queue.{Queue, empty, put, get, discard, erase_promise, waits}

-- Numbers from `lo`, in ascending order, below `hi`.
abbrev pub Ascending : ℕ → List ℕ → ℕ → Type 0
Ascending lo [] hi = lo ≤ hi
Ascending lo (x ∷ xs) hi = (lo ≤ x) × Ascending (suc x) xs hi

Ascending-snoc :
    (lo hi : ℕ) (xs : List ℕ) → Ascending lo xs hi → Ascending lo (xs ++ hi ∷ []) (suc hi)
Ascending-snoc lo hi [] h = (h, omega arith)
Ascending-snoc lo hi (x ∷ xs) h = (h.0, Ascending-snoc (suc x) hi xs h.1)

Ascending-mono :
    {lo lo' : ℕ} (hi : ℕ) (xs : List ℕ) → lo' ≤ lo → Ascending lo xs hi → Ascending lo' xs hi
Ascending-mono hi [] h a = omega arith
Ascending-mono hi (x ∷ xs) h a = (omega arith, a.1)

Ascending-erase :
    (p lo hi : ℕ) (xs : List ℕ) → Ascending lo xs hi → Ascending lo (erase_promise p xs) hi
unfolding erase_promise
Ascending-erase p lo hi [] a = a
Ascending-erase p lo hi (x ∷ xs) a = elim (Bool-cases (x == p)) [
  | inl e ↦ rw e (Ascending-mono hi xs (omega (arith, a.0)) a.1)
  | inr e ↦ rw e (a.0, Ascending-erase p (suc x) hi xs a.1)
]

le_of_waits :
    (p lo hi : ℕ) (xs ys : List ℕ) → Ascending lo (xs ++ ys) hi → waits p ys ≡ true → lo ≤ p
unfolding waits
le_of_waits p lo hi [] [] a h = cc
le_of_waits p lo hi [] (y ∷ ys) a h = ground (arith, le_of_waits p (suc y) hi [] ys a.1)
le_of_waits p lo hi (x ∷ xs) ys a h = omega (arith, le_of_waits p (suc x) hi xs ys a.1 h)

-- A request that waits has not been served, so its removal leaves the served ones alone.
erase_behind :
    (p lo hi : ℕ) (xs ys : List ℕ)
    → Ascending lo (xs ++ ys) hi
    → waits p ys ≡ true
    → erase_promise p (xs ++ ys) ≡ xs ++ erase_promise p ys
unfolding erase_promise
erase_behind p lo hi [] ys a h = refl
erase_behind p lo hi (x ∷ xs) ys a h =
    ground (arith, le_of_waits p (suc x) hi xs ys a.1 h, erase_behind p (suc x) hi xs ys a.1 h)

erase_absent : (p : ℕ) (ys : List ℕ) → waits p ys ≡ false → erase_promise p ys ≡ ys
unfolding erase_promise waits
erase_absent p [] h = refl
erase_absent p (y ∷ ys) h = ground (arith, erase_absent p ys)

erase_none : (p : ℕ) → erase_promise p [] ≡ []
unfolding erase_promise
erase_none p = refl

pub data Call (T : Type 0) : Type 0 where
  puts : T → Call T
  gets : Call T
  discards : ℕ → Call T

-- The queue with its history: the elements put, the requests made less those that were discarded
-- while they waited, and the deliveries, each with its request; all in order. A request is the
-- promise that it would create, so `next_promise` counts them.
pub record System (T : Type 0) : Type 0 where
  pub queue : Queue T
  pub next_promise : ℕ
  pub offered : List T
  pub asked : List ℕ
  pub delivered : List (ℕ × T)

module _ {T : Type 0} where
  abbrev pub start : System T
  start = record { queue = empty; next_promise = 0; offered = []; asked = []; delivered = [] }

  abbrev pub delivery : Option (ℕ × T) → List (ℕ × T)
  delivery none = []
  delivery (some d) = d ∷ []

  abbrev pub immediate : ℕ → Option T → List (ℕ × T)
  immediate p none = []
  immediate p (some t) = (p, t) ∷ []

  unfoldable pub step : Call T → System T → System T
  step (puts t) s =
      let (q, d) = put t s.queue in
      record s { queue = q; offered = s.offered ++ t ∷ []; delivered = s.delivered ++ delivery d }
  step gets s =
      let p = s.next_promise in
      let (q, r) = get p s.queue in
      record s {
        queue = q;
        next_promise = suc p;
        asked = s.asked ++ p ∷ [];
        delivered = s.delivered ++ immediate p r;
      }
  step (discards p) s =
      let (q, cancelled) = discard p s.queue in
      record s { queue = q; asked = if cancelled then erase_promise p s.asked else s.asked }

  unfoldable pub run : List (Call T) → System T → System T
  run [] s = s
  run (c ∷ cs) s = run cs (step c s)

  abbrev pub values : List (ℕ × T) → List T
  values [] = []
  values ((p, t) ∷ ds) = t ∷ values ds

  abbrev pub requests : List (ℕ × T) → List ℕ
  requests [] = []
  requests ((p, t) ∷ ds) = p ∷ requests ds

  values-append : (xs ys : List (ℕ × T)) → values (xs ++ ys) ≡ values xs ++ values ys
  values-append [] ys = refl
  values-append ((p, t) ∷ xs) ys = ap (◌∷◌ t) (values-append xs ys)

  requests-append : (xs ys : List (ℕ × T)) → requests (xs ++ ys) ≡ requests xs ++ requests ys
  requests-append [] ys = refl
  requests-append ((p, t) ∷ xs) ys = ap (◌∷◌ p) (requests-append xs ys)

  pub record Inv (s : System T) : Type 0 where
    pub one_side : (s.queue.promises ≡ []) ⊎ (s.queue.elements ≡ [])
    pub kept : values s.delivered ++ s.queue.elements ≡ s.offered
    pub served : requests s.delivered ++ s.queue.promises ≡ s.asked
    pub ascending : Ascending 0 s.asked s.next_promise

  puts-Inv : (t : T) (s : System T) → Inv s → Inv (step (puts t) s)
  unfolding step put
  puts-Inv t s v = elim (List-cases s.queue.promises) [
    | inl e ↦
        ground (
          arith,
          append-nil s.delivered,
          append_assoc (values s.delivered) s.queue.elements (t ∷ []),
        )
    | inr (p, ps, e) ↦ ground (
      arith,
      values-append s.delivered ((p, t) ∷ []),
      requests-append s.delivered ((p, t) ∷ []),
      append_assoc (requests s.delivered) (p ∷ []) ps,
      append-nil (values s.delivered),
      append-nil (values s.delivered ++ t ∷ []),
    )
  ]

  gets-Inv : (s : System T) → Inv s → Inv (step gets s)
  unfolding step get
  gets-Inv s v = elim (List-cases s.queue.elements) [
    | inl e ↦ ground (
      arith,
      append-nil s.delivered,
      append_assoc (requests s.delivered) s.queue.promises (s.next_promise ∷ []),
      Ascending-snoc 0 s.next_promise s.asked,
    )
    | inr (t, ts, e) ↦ ground (
      arith,
      values-append s.delivered ((s.next_promise, t) ∷ []),
      requests-append s.delivered ((s.next_promise, t) ∷ []),
      append_assoc (values s.delivered) (t ∷ []) ts,
      append-nil (requests s.delivered),
      append-nil (requests s.delivered ++ s.next_promise ∷ []),
      Ascending-snoc 0 s.next_promise s.asked,
    )
  ]

  discards-Inv : (p : ℕ) (s : System T) → Inv s → Inv (step (discards p) s)
  unfolding step discard
  discards-Inv p s v = elim (Bool-cases (waits p s.queue.promises)) [
    | inl e ↦ ground (
      arith,
      e,
      erase_none p,
      erase_behind p 0 s.next_promise (requests s.delivered) s.queue.promises
          (rw v.served v.ascending) e,
      Ascending-erase p 0 s.next_promise s.asked,
    )
    | inr e ↦ ground (arith, erase_absent p s.queue.promises e)
  ]

  step-Inv : (c : Call T) (s : System T) → Inv s → Inv (step c s)
  step-Inv (puts t) s v = puts-Inv t s v
  step-Inv gets s v = gets-Inv s v
  step-Inv (discards p) s v = discards-Inv p s v

  run-Inv : (cs : List (Call T)) (s : System T) → Inv s → Inv (run cs s)
  unfolding run
  run-Inv [] s v = v
  run-Inv (c ∷ cs) s v = run-Inv cs (step c s) (step-Inv c s v)

  start-Inv : Inv start
  start-Inv = ground arith

  elements_in_order :
      (cs : List (Call T))
      → let s = run cs start in values s.delivered ++ s.queue.elements ≡ s.offered
  elements_in_order cs = (run-Inv cs start start-Inv).kept

  requests_in_order :
      (cs : List (Call T))
      → let s = run cs start in
        (requests s.delivered ++ s.queue.promises ≡ s.asked)
        × ((s.queue.promises ≡ []) ⊎ (s.queue.elements ≡ []))
  requests_in_order cs = let v = run-Inv cs start start-Inv in (v.served, v.one_side)

  -- No element is lost, made up or reordered: the elements delivered so far, followed by those in
  -- the queue, are the elements that were put. Requests are served in order: the requests served so far, followed by those
  -- that wait, are the requests made, less those that were discarded while they waited; and no request waits while
  -- the queue holds an element.
  pub first_in_first_out :
      (cs : List (Call T))
      → let s = run cs start in
        (values s.delivered ++ s.queue.elements ≡ s.offered)
        × (requests s.delivered ++ s.queue.promises ≡ s.asked)
        × ((s.queue.promises ≡ []) ⊎ (s.queue.elements ≡ []))
  first_in_first_out cs = let r = requests_in_order cs in (elements_in_order cs, r.0, r.1)
