-- ===== src/Clock/Firing.antt =====
-- What a tick of src/clock.cpp fires and what cancelling a timer does.
use libprocess.Common.{
  ℕ, suc, ◌≤◌, ◌<◌, ◌≡◌, ◌≢◌, refl, ap, ◌∙◌, sym, Bool, true, false, List, [], ◌∷◌, ◌++◌, arith,
  if◌then◌else◌, ==_iff, ◌==◌, Bool-cases, inl, inr, All,
}
use libprocess.Clock.{
  Timer, Timers, Clock, schedule_tick, global_now, remaining, tick, remove_timer, cancel_in, cancel,
  put_group,
}
use libprocess.Clock.Groups.{Above, in_order, All-imp, later_than, partition, in_order-put_group}

remove-append :
    (id : ℕ) (xs ys : List Timer)
    → remove_timer id (xs ++ ys) ≡ remove_timer id xs ++ remove_timer id ys
unfolding remove_timer
remove-append id [] ys = refl
remove-append id (x ∷ xs) ys = ground (arith, remove-append id xs ys)

-- Timers at other times than the cancelled one's have other identifiers, and stay.
remove_absent :
    (x : Timer) (ys : List Timer)
    → All (λ y. y.id ≡ x.id → y.timeout ≡ x.timeout) ys
    → All (λ y. y.timeout ≢ x.timeout) ys
    → remove_timer x.id ys ≡ ys
unfolding remove_timer
remove_absent x [] h n = refl
remove_absent x (y ∷ ys) h n = elim (Bool-cases (y.id == x.id)) [
  | inl hit ↦ absurd (n.0 (h.0 ((==_iff y.id x.id).0 hit)))
  | inr miss ↦ rw (miss, remove_absent x ys h.1 n.1) refl
]

All-split {ℓ} : (P : Timer → Type ℓ) (xs ys : List Timer) → All P (xs ++ ys) → All P xs × All P ys
All-split P [] ys h = (tt, h)
All-split P (x ∷ xs) ys h = let (a, b) = All-split P xs ys h.1 in ((h.0, a), b)

ne_of_lt : {t u v : ℕ} → t ≡ v → t < u → u ≢ v
ne_of_lt e h q = omega arith

ne_of_eq : {t u v : ℕ} → (t == v) ≡ false → u ≡ t → u ≢ v
ne_of_eq h e q = ground arith

empty_removed : (id : ℕ) → [] ≡ remove_timer id []
unfolding remove_timer
empty_removed id = refl

cancel_in_order :
    (x : Timer) (lo : ℕ) (ts : Timers)
    → Above lo ts
    → All (λ y. y.id ≡ x.id → y.timeout ≡ x.timeout) (in_order ts)
    → in_order (cancel_in x ts).0 ≡ remove_timer x.id (in_order ts)
unfolding cancel_in
cancel_in_order x lo [] a h = empty_removed x.id
cancel_in_order x lo ((t, group) ∷ rest) a h =
    let (hg, hr) = All-split _ group (in_order rest) h in
    elim (Bool-cases (t == x.timeout)) [
      | inl here ↦
          let e = (==_iff t x.timeout).0 here in
          let others =
            All-imp (λ y (q : t < y.timeout). ne_of_lt e q) (in_order rest)
              (later_than t (suc t) rest (omega arith) a.2) in
          rw (here, in_order-put_group t (remove_timer x.id group) rest)
            (ap (◌++◌ (remove_timer x.id group)) (sym (remove_absent x (in_order rest) hr others))
              ∙ sym (remove-append x.id group (in_order rest)))
      | inr there ↦
          let others = All-imp (λ y (q : y.timeout ≡ t). ne_of_eq there q) group a.1 in
          rw there (
            ap (◌++◌ group) (cancel_in_order x (suc t) rest a.2 hr)
            ∙ ap (λ g. g ++ remove_timer x.id (in_order rest))
                (sym (remove_absent x group hg others))
            ∙ sym (remove-append x.id group (in_order rest)))
    ]

pub schedule_tick-timers : (c : Clock) → (schedule_tick c).timers ≡ c.timers
unfolding schedule_tick
schedule_tick-timers c = ground arith

tick-timers :
    (real time : ℕ) (c : Clock)
    → (tick real time c).0.timers ≡ remaining (global_now real c) c.timers
unfolding tick
tick-timers real time c = schedule_tick-timers _

-- A tick collects exactly the timers that are due by the clock, in the order of their times, and
-- leaves the others in the clock.
pub tick_fires_due :
    (real time lo : ℕ) (c : Clock)
    → Above lo c.timers
    → let now = global_now real c in
      let fired = (tick real time c).1 in
      (fired ++ in_order (tick real time c).0.timers ≡ in_order c.timers)
      × All (λ x. x.timeout ≤ now) fired
      × All (λ x. now < x.timeout) (in_order (tick real time c).0.timers)
unfolding tick
tick_fires_due real time lo c a =
    let p = partition (global_now real c) lo c.timers a in
    rw (tick-timers real time c) (p.whole, p.due, p.not_due)

-- Cancelling takes the timer with its identifier out and leaves every other timer, in its place.
pub cancel_removes :
    (x : Timer) (lo : ℕ) (c : Clock)
    → Above lo c.timers
    → All (λ y. y.id ≡ x.id → y.timeout ≡ x.timeout) (in_order c.timers)
    → in_order (cancel x c).0.timers ≡ remove_timer x.id (in_order c.timers)
unfolding cancel
cancel_removes x lo c a h = cancel_in_order x lo c.timers a h

-- Whether a timer waits in the group of its time.
abbrev pub in_group : ℕ → List Timer → Bool
in_group id [] = false
in_group id (y ∷ ys) = if y.id == id then true else in_group id ys

abbrev pub waits : Timer → Timers → Bool
waits y [] = false
waits y ((t, group) ∷ rest) = if t == y.timeout then in_group y.id group else waits y rest

in_group-remove :
    (x y : Timer) (ys : List Timer)
    → y.id ≢ x.id
    → in_group y.id (remove_timer x.id ys) ≡ in_group y.id ys
unfolding remove_timer
in_group-remove x y [] h = refl
in_group-remove x y (z ∷ ys) h = ground (arith, in_group-remove x y ys h)

put_group-waits :
    (y : Timer) (t : ℕ) (group : List Timer) (rest : Timers)
    → in_group y.id group ≡ true
    → t ≡ y.timeout
    → waits y (put_group t group rest) ≡ true
put_group-waits y t [] rest h e = cc
put_group-waits y t (z ∷ zs) rest h e = ground arith

-- Cancelling one of two timers that wait for the same time leaves the other.
cancel-waits :
    (x y : Timer) (ts : Timers)
    → y.id ≢ x.id
    → x.timeout ≡ y.timeout
    → waits y ts ≡ true
    → (waits y (cancel_in x ts).0 ≡ true) × ((cancel_in x ts).1 ≡ true)
unfolding cancel_in
cancel-waits x y [] n e h = cc
cancel-waits x y ((t, group) ∷ rest) n e h = ground (
  arith,
  cancel-waits x y rest n e,
  in_group-remove x y group n,
  put_group-waits y t (remove_timer x.id group) rest,
)

-- Where another timer waits for the same time, `cancel` reports that it cancelled a timer each time
-- that it is called, the second time for a timer that is no longer there.
pub cancel_reports_twice :
    (x y : Timer) (lo : ℕ) (c : Clock)
    → Above lo c.timers
    → All (λ z. z.id ≡ x.id → z.timeout ≡ x.timeout) (in_order c.timers)
    → y.id ≢ x.id
    → x.timeout ≡ y.timeout
    → waits y c.timers ≡ true
    → ((cancel x c).1 ≡ true)
      × ((cancel x (cancel x c).0).1 ≡ true)
      × (in_order (cancel x c).0.timers ≡ remove_timer x.id (in_order c.timers))
unfolding cancel
cancel_reports_twice x y lo c a u n e h =
    let first = cancel-waits x y c.timers n e h in
    (first.1, (cancel-waits x y (cancel_in x c.timers).0 n e first.0).1, cancel_removes x lo c a u)
