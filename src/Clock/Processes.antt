-- ===== src/Clock/Processes.antt =====
-- src/clock.cpp: the times of single processes while the clock is paused, and how messages order
-- them. A process that has no time yet is given the time at which the clock was paused.
use libprocess.Common.{
  ℕ, ◌+◌, ◌≤◌, ◌≡◌, ◌≢◌, Bool, true, false, ◌&&◌, ◌||◌, Option, none, some, List, [], ◌∷◌, arith,
  if◌then◌else◌, ltb, ◌==◌,
}
use libprocess.Clock.{Clock}

unfoldable pub current_of : ℕ → List (ℕ × ℕ) → Option ℕ
current_of p [] = none
current_of p ((q, t) ∷ rest) = if q == p then some t else current_of p rest

unfoldable pub set_current : ℕ → ℕ → List (ℕ × ℕ) → List (ℕ × ℕ)
set_current p t [] = (p, t) ∷ []
set_current p t ((q, u) ∷ rest) = if q == p then (q, t) ∷ rest else (q, u) ∷ set_current p t rest

-- `Clock::now(process)`, which may record a time for the process.
unfoldable pub process_now : ℕ → ℕ → Clock → Clock × ℕ
process_now real p c =
    if c.paused
    then elim (current_of p c.currents) [
      | none ↦ (record c { currents = set_current p c.initial c.currents }, c.initial)
      | some t ↦ (c, t)
    ]
    else (c, real + c.advanced)

-- `Clock::advance(process, duration)`
unfoldable pub advance_process : ℕ → ℕ → ℕ → Clock → Clock
advance_process real p duration c =
    if c.paused
    then (let (c', now) = process_now real p c in
        record c' { currents = set_current p (now + duration) c'.currents })
    else c

-- `Clock::update(process, time, update)`, with FORCE or SAFE.
unfoldable pub update_process : ℕ → ℕ → ℕ → Bool → Clock → Clock
update_process real p time force c =
    if c.paused
    then (let (c', now) = process_now real p c in
        if ltb now time || force
        then record c' { currents = set_current p time c'.currents }
        else c')
    else c

-- `Clock::order`
unfoldable pub order : ℕ → ℕ → ℕ → Clock → Clock
order real from to c =
    let (c', now) = process_now real from c in update_process real to now false c'

-- The time that a process reads.
abbrev pub time_of : ℕ → ℕ → Clock → ℕ
time_of real p c = (process_now real p c).1

current_of-set_current :
    (p q t : ℕ) (cs : List (ℕ × ℕ))
    → current_of q (set_current p t cs) ≡ (if p == q then some t else current_of q cs)
unfolding current_of set_current
current_of-set_current p q t [] = ground arith
current_of-set_current p q t ((r, u) ∷ cs) = ground (arith, current_of-set_current p q t cs)

-- Reading the time of one process changes what no process reads.
time_of-process_now :
    (real p q : ℕ) (c : Clock) → time_of real q (process_now real p c).0 ≡ time_of real q c
unfolding process_now
time_of-process_now real p q c = ground (arith, current_of-set_current p q c.initial c.currents)

time_of-update :
    (real p q time : ℕ) (c : Clock)
    → c.paused ≡ true
    → time_of real q (update_process real p time false c)
      ≡ (if p == q && ltb (time_of real p c) time then time else time_of real q c)
unfolding update_process process_now
time_of-update real p q time c h = ground (
  arith,
  current_of-set_current p q c.initial c.currents,
  current_of-set_current p q time c.currents,
  current_of-set_current p q time (set_current p c.initial c.currents),
)

paused-process_now : (real p : ℕ) (c : Clock) → (process_now real p c).0.paused ≡ c.paused
unfolding process_now
paused-process_now real p c = ground arith

time_of-order :
    (real from to q : ℕ) (c : Clock)
    → c.paused ≡ true
    → time_of real q (order real from to c) ≡ (
        if to == q && ltb (time_of real to c) (time_of real from c)
        then time_of real from c
        else time_of real q c)
unfolding order
time_of-order real from to q c h = ground (
  arith,
  time_of-update real to q (time_of real from c) (process_now real from c).0,
  paused-process_now real from c,
  time_of-process_now real from to c,
  time_of-process_now real from q c,
)

-- While the clock is paused, ordering a receiver behind a sender leaves the receiver no earlier
-- than the sender was and no earlier than it was itself, and changes no other process's time.
pub order_after_sender :
    (real from to : ℕ) (c : Clock)
    → c.paused ≡ true
    → let after = order real from to c in
      (time_of real from c ≤ time_of real to after)
      × (time_of real to c ≤ time_of real to after)
      × ((q : ℕ) → q ≢ to → time_of real q after ≡ time_of real q c)
order_after_sender real from to c h = (
  ground (arith, time_of-order real from to to c h),
  ground (arith, time_of-order real from to to c h),
  λ q n. ground (arith, time_of-order real from to q c h),
)
