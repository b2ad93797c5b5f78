-- ===== src/Sync/Mutex/Exclusion.antt =====
-- Clients of one `Mutex` (include/process/mutex.hpp): a client that calls `lock` holds the lock
-- from the moment its future is ready until it calls `unlock`.
use libprocess.Common.{
  ℕ, ◌≤◌, ◌≡◌, ap, ◌≢◌, Bool, true, false, Option, none, some, List, [], ◌∷◌, ◌++◌, arith,
  if◌then◌else◌, length, length-append, append-nil, append_assoc,
}
use libprocess.Sync.Mutex.{Mutex, unlocked, lock, unlock}

-- The lock with its history: who holds it, and the clients in the order in which they called
-- `lock` and in the order in which their futures became ready.
pub record System : Type 0 where
  pub mutex : Mutex
  pub holders : List ℕ
  pub requested : List ℕ
  pub granted : List ℕ

abbrev pub start : System
start = record { mutex = unlocked; holders = []; requested = []; granted = [] }

-- The clients whose futures a call completes.
abbrev pub if_ready : ℕ → Bool → List ℕ
if_ready p true = p ∷ []
if_ready p false = []

abbrev pub woken : Option ℕ → List ℕ
woken none = []
woken (some p) = p ∷ []

unfoldable pub acquire : ℕ → System → System
acquire p s =
    let (m, ready) = lock p s.mutex in
    record {
      mutex = m;
      holders = s.holders ++ if_ready p ready;
      requested = s.requested ++ p ∷ [];
      granted = s.granted ++ if_ready p ready;
    }

-- `left` and `right` are the holders before and behind the one that unlocks.
unfoldable pub release : List ℕ → List ℕ → System → System
release left right s =
    let (m, next) = unlock s.mutex in
    record s {
      mutex = m;
      holders = (left ++ right) ++ woken next;
      granted = s.granted ++ woken next;
    }

pub data Step (s : System) : System → Type 0 where
  locks : (p : ℕ) → Step s (acquire p s)
  unlocks :
      (left : List ℕ) (p : ℕ) (right : List ℕ)
      → s.holders ≡ left ++ p ∷ right
      → Step s (release left right s)

pub data Reach : System → Type 0 where
  here : Reach start
  next : {s t : System} → Reach s → Step s t → Reach t

pub record Inv (s : System) : Type 0 where
  pub one_holder : length s.holders ≡ (if s.mutex.locked then 1 else 0)
  pub no_idle : s.mutex.locked ≡ false → s.mutex.waiters ≡ []
  pub in_order : s.granted ++ s.mutex.waiters ≡ s.requested

acquire-Inv : (p : ℕ) (s : System) → Inv s → Inv (acquire p s)
unfolding acquire lock
acquire-Inv p s v = ground (
  arith,
  length-append s.holders (p ∷ []),
  length-append s.holders [],
  append-nil s.granted,
  append-nil s.holders,
  append_assoc s.granted (p ∷ []) [],
  append_assoc s.granted s.mutex.waiters (p ∷ []),
)

append_woken :
    (granted waiters : List ℕ)
    → (granted ++ woken (unlock (record { locked = true; waiters = waiters })).1)
        ++ (unlock (record { locked = true; waiters = waiters })).0.waiters
      ≡ granted ++ waiters
unfolding unlock
append_woken granted [] = simp append-nil
append_woken granted (w ∷ ws) = append_assoc granted (w ∷ []) ws

release-Inv :
    (left : List ℕ) (p : ℕ) (right : List ℕ) (s : System)
    → s.holders ≡ left ++ p ∷ right
    → Inv s
    → Inv (release left right s)
unfolding release unlock
release-Inv left p right s e v =
    let held = ap length e in
    ground (
      arith,
      held,
      length-append left (p ∷ right),
      length-append left right,
      length-append (left ++ right) (woken (unlock s.mutex).1),
      append-nil s.granted,
      append_woken s.granted s.mutex.waiters,
    )

pub Reach-Inv : {s : System} → Reach s → Inv s
Reach-Inv here = ground arith
Reach-Inv (next {s} r (locks p)) = acquire-Inv p s (Reach-Inv r)
Reach-Inv (next {s} r (unlocks left p right e)) = release-Inv left p right s e (Reach-Inv r)

granted_in_order : {s : System} → Reach s → s.granted ++ s.mutex.waiters ≡ s.requested
granted_in_order r = (Reach-Inv r).in_order

-- While clients unlock only what they hold, no two hold the lock at once, and somebody holds it
-- whenever anybody waits; and the lock is granted in the order of the calls of `lock`: the grants so far, followed by the
-- waiters, are the calls so far.
pub mutual_exclusion :
    {s : System}
    → Reach s
    → (length s.holders ≤ 1)
      × (s.mutex.waiters ≢ [] → length s.holders ≡ 1)
      × (s.granted ++ s.mutex.waiters ≡ s.requested)
mutual_exclusion r = let v = Reach-Inv r in (ground arith, ground arith, granted_in_order r)
