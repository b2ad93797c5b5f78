-- ===== src/Clock/Schedule.antt =====
-- src/clock.cpp: the invariant that ties the timers to the ticks of the event loop, and how
-- `scheduleTick` re-establishes it.
use libprocess.Common.{
  ℕ, ◌≤◌, ◌≡◌, refl, ◌≢◌, Bool, true, false, none, some, List, [], ◌∷◌, ◌++◌, arith, if◌then◌else◌,
  ◌==◌, inl, inr, All, if_cases, Option-cases,
}
use libprocess.Clock.{
  Timers, Clock, insert_tick, schedule_tick, next, earlier_than_all, schedule_at,
}
use libprocess.Clock.Groups.{Above}

abbrev pub holds : ℕ → List ℕ → Bool
holds t [] = false
holds t (u ∷ us) = if u == t then true else holds t us

abbrev pub IsCovered : Timers → List ℕ → Type 0
IsCovered [] ticks = Unit {0}
IsCovered ((t, group) ∷ rest) [] = ⊥
IsCovered ((t, group) ∷ rest) (u ∷ us) = u ≤ t

-- A timer that is due on the paused clock.
abbrev pub IsDue : ℕ → Timers → Type 0
IsDue now [] = ⊥
IsDue now ((t, group) ∷ rest) = t ≤ now

pub record Inv (c : Clock) : Type 0 where
  pub sorted : Above 0 c.timers
  -- A recorded tick is one that the event loop has yet to run.
  pub backed : All (λ t. holds t c.scheduled ≡ true) c.ticks
  pub covered : c.paused ≡ false → IsCovered c.timers c.ticks
  pub woken : c.paused ≡ true → IsDue c.current c.timers → c.scheduled ≢ []
  -- On the paused clock a tick is recorded only for a time that the clock has reached.
  pub reached : c.paused ≡ true → All (λ t. t ≤ c.current) c.ticks

pub holds-append : (t u : ℕ) (us : List ℕ) → holds t us ≡ true → holds t (us ++ u ∷ []) ≡ true
holds-append t u [] h = cc
holds-append t u (v ∷ us) h = ground (arith, holds-append t u us)

pub holds_last : (t : ℕ) (us : List ℕ) → holds t (us ++ t ∷ []) ≡ true
holds_last t [] = ground arith
holds_last t (v ∷ us) = ground (arith, holds_last t us)

pub backed_more :
    (u : ℕ) (scheduled ticks : List ℕ)
    → All (λ t. holds t scheduled ≡ true) ticks
    → All (λ t. holds t (scheduled ++ u ∷ []) ≡ true) ticks
backed_more u scheduled [] h = tt
backed_more u scheduled (t ∷ ticks) h =
    (holds-append t u scheduled h.0, backed_more u scheduled ticks h.1)

pub append-ne-nil : (us : List ℕ) (t : ℕ) → us ++ t ∷ [] ≢ []
append-ne-nil [] t = λ e. cc
append-ne-nil (u ∷ us) t = λ e. cc

pub nonempty_of_holds : (t : ℕ) (us : List ℕ) → holds t us ≡ true → us ≢ []
nonempty_of_holds t [] h = cc
nonempty_of_holds t (u ∷ us) h = λ e. cc

-- The first timers' time is `t`.
abbrev pub Starts : ℕ → Timers → Type 0
Starts t [] = ⊥
Starts t ((u, group) ∷ rest) = t ≡ u

pub IsCovered-by_first :
    (t : ℕ) (timers : Timers) (us : List ℕ) → Starts t timers → IsCovered timers (t ∷ us)
IsCovered-by_first t [] us h = absurd h
IsCovered-by_first t ((u, group) ∷ rest) us h = omega arith

pub IsCovered-already :
    (t : ℕ) (timers : Timers) (us : List ℕ)
    → Starts t timers
    → earlier_than_all t us ≡ false
    → IsCovered timers us
IsCovered-already t [] us h e = absurd h
IsCovered-already t ((v, group) ∷ rest) [] h e = cc
IsCovered-already t ((v, group) ∷ rest) (u ∷ us) h e = ground arith

pub scheduled_already :
    (t : ℕ) (scheduled us : List ℕ)
    → All (λ t. holds t scheduled ≡ true) us
    → earlier_than_all t us ≡ false
    → scheduled ≢ []
scheduled_already t scheduled [] h e = cc
scheduled_already t scheduled (u ∷ us) h e = nonempty_of_holds u scheduled h.0

pub insert_first : (t : ℕ) (us : List ℕ) → earlier_than_all t us ≡ true → insert_tick t us ≡ t ∷ us
unfolding insert_tick
insert_first t [] e = refl
insert_first t (u ∷ us) e = rw e

pub next-Starts : (t : ℕ) (c : Clock) (timers : Timers) → next c timers ≡ some t → Starts t timers
unfolding next
next-Starts t c [] e = cc
next-Starts t c ((u, group) ∷ rest) e = ground arith

pub next-reached :
    (t : ℕ) (c : Clock) (timers : Timers) → next c timers ≡ some t → c.paused ≡ true → t ≤ c.current
unfolding next
next-reached t c [] e p = absurd cc
next-reached t c ((u, group) ∷ rest) e p = ground arith

pub no_next :
    (c : Clock) (timers : Timers)
    → next c timers ≡ none
    → (c.paused ≡ false → IsCovered timers c.ticks) × (IsDue c.current timers → ⊥)
unfolding next
no_next c [] e = (λ _. tt, λ d. d)
no_next c ((u, group) ∷ rest) e = ground arith

pub schedule_at-Inv :
    (t : ℕ) (c : Clock)
    → Above 0 c.timers
    → All (λ t. holds t c.scheduled ≡ true) c.ticks
    → (c.paused ≡ true → All (λ t. t ≤ c.current) c.ticks)
    → (c.paused ≡ true → t ≤ c.current)
    → Starts t c.timers
    → Inv (schedule_at (some t) c)
schedule_at-Inv t c a b g n h =
    if_cases Inv (earlier_than_all t c.ticks)
      (λ e. record {
        sorted = a;
        backed =
            rw (insert_first t c.ticks e)
              (holds_last t c.scheduled, backed_more t c.scheduled c.ticks b);
        covered = λ _. rw (insert_first t c.ticks e) (IsCovered-by_first t c.timers c.ticks h);
        woken = λ _ _. append-ne-nil c.scheduled t;
        reached = λ p. rw (insert_first t c.ticks e) (n p, g p);
      })
      (λ e. record {
        sorted = a;
        backed = b;
        covered = λ _. IsCovered-already t c.timers c.ticks h e;
        woken = λ _ _. scheduled_already t c.scheduled c.ticks b e;
        reached = g;
      })

-- `scheduleTick` re-establishes the cover of a running clock, and wakes a paused one whose first
-- timer is due.
pub schedule_tick-Inv :
    (c : Clock)
    → Above 0 c.timers
    → All (λ t. holds t c.scheduled ≡ true) c.ticks
    → (c.paused ≡ true → All (λ t. t ≤ c.current) c.ticks)
    → Inv (schedule_tick c)
unfolding schedule_tick
schedule_tick-Inv c a b g = elim (Option-cases (next c c.timers)) [
  | inl e ↦ rw e (record {
    sorted = a;
    backed = b;
    covered = λ r. (no_next c c.timers e).0 r;
    woken = λ p d. absurd ((no_next c c.timers e).1 d);
    reached = g;
  })
  | inr (t, e) ↦
      rw e (
        schedule_at-Inv t c a b g (λ p. next-reached t c c.timers e p) (next-Starts t c c.timers e))
]
