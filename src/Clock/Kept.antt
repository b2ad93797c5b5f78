-- ===== src/Clock/Kept.antt =====
-- src/clock.cpp: every operation on the clock keeps its invariant.
use libprocess.Common.{
  ℕ, suc, ◌+◌, ◌≤◌, ◌≡◌, ◌≢◌, Bool, true, false, List, [], ◌∷◌, arith, ltb, ◌==◌, Bool-cases, inl,
  inr, All, not, ◌&&◌, if_cases,
}
use libprocess.Clock.{
  Timer, Timers, Clock, global_now, erase_tick, run_once, tick, tick_done, push_timer, add_timer,
  cancel_in, cancel, pause, resume, advance, update, is_first, none_due, put_group, remove_timer,
}
use libprocess.Clock.Groups.{Above, remaining-Above, push_timer-Above, cancel_in-Above}
use libprocess.Clock.Schedule.{holds, IsCovered, IsDue, Inv, nonempty_of_holds, schedule_tick-Inv}

pub holds-run_once :
    (t u : ℕ) (us : List ℕ) → (u == t) ≡ false → holds t us ≡ true → holds t (run_once u us) ≡ true
unfolding run_once
holds-run_once t u [] n h = cc
holds-run_once t u (v ∷ us) n h = ground (arith, holds-run_once t u us n)

-- A tick that runs is no longer recorded, so the others are still backed.
pub backed_run :
    (u : ℕ) (scheduled ticks : List ℕ)
    → All (λ t. holds t scheduled ≡ true) ticks
    → All (λ t. holds t (run_once u scheduled) ≡ true) (erase_tick u ticks)
unfolding erase_tick
backed_run u scheduled [] h = tt
backed_run u scheduled (t ∷ ticks) h = elim (Bool-cases (t == u)) [
  | inl same ↦ rw same (backed_run u scheduled ticks h.1)
  | inr other ↦
      rw other (holds-run_once t u scheduled (ground arith) h.0, backed_run u scheduled ticks h.1)
]

-- A timer that is not the first leaves the first group's time as it is.
pub pushed-IsCovered :
    (timeout id : ℕ) (timers : Timers) (ticks : List ℕ)
    → is_first timeout timers ≡ false
    → IsCovered timers ticks
    → IsCovered (push_timer (record { id = id; timeout = timeout }) timers) ticks
unfolding push_timer
pushed-IsCovered timeout id [] ticks h v = cc
pushed-IsCovered timeout id ((t, group) ∷ rest) [] h v = absurd v
pushed-IsCovered timeout id ((t, group) ∷ rest) (u ∷ us) h v = ground arith

pub pushed-IsDue :
    (timeout id now : ℕ) (timers : Timers)
    → is_first timeout timers ≡ false
    → IsDue now (push_timer (record { id = id; timeout = timeout }) timers)
    → IsDue now timers
unfolding push_timer
pushed-IsDue timeout id now [] h d = cc
pushed-IsDue timeout id now ((t, group) ∷ rest) h d = ground arith

-- Cancelling can only move the first group to a later time.
pub put_group-IsCovered :
    (t : ℕ) (group : List Timer) (rest : Timers) (u : ℕ) (us : List ℕ)
    → u ≤ t
    → Above (suc t) rest
    → IsCovered (put_group t group rest) (u ∷ us)
put_group-IsCovered t [] [] u us h a = tt
put_group-IsCovered t [] ((v, group) ∷ rest) u us h a = omega (arith, a.0)
put_group-IsCovered t (x ∷ xs) rest u us h a = h

pub put_group_due :
    (t now : ℕ) (group : List Timer) (rest : Timers)
    → Above (suc t) rest
    → IsDue now (put_group t group rest)
    → t ≤ now
put_group_due t now [] [] a d = absurd d
put_group_due t now [] ((v, group) ∷ rest) a d = omega (arith, a.0)
put_group_due t now (x ∷ xs) rest a d = d

pub cancelled-IsCovered :
    (x : Timer) (lo : ℕ) (timers : Timers) (ticks : List ℕ)
    → Above lo timers
    → IsCovered timers ticks
    → IsCovered (cancel_in x timers).0 ticks
unfolding cancel_in
cancelled-IsCovered x lo [] ticks a v = tt
cancelled-IsCovered x lo ((t, group) ∷ rest) [] a v = absurd v
cancelled-IsCovered x lo ((t, group) ∷ rest) (u ∷ us) a v =
    if_cases (λ (r : Timers × Bool). IsCovered r.0 (u ∷ us)) (t == x.timeout)
      (λ _. put_group-IsCovered t (remove_timer x.id group) rest u us v a.2) (λ _. v)

pub cancelled-IsDue :
    (x : Timer) (lo now : ℕ) (timers : Timers)
    → Above lo timers
    → IsDue now (cancel_in x timers).0
    → IsDue now timers
unfolding cancel_in
cancelled-IsDue x lo now [] a d = d
cancelled-IsDue x lo now ((t, group) ∷ rest) a d =
    if_cases (λ (r : Timers × Bool). IsDue now r.0 → t ≤ now) (t == x.timeout)
      (λ _. put_group_due t now (remove_timer x.id group) rest a.2) (λ _ h. h) d

All-erase_tick :
    (u now : ℕ) (ticks : List ℕ)
    → All (λ t. t ≤ now) ticks
    → All (λ t. t ≤ now) (erase_tick u ticks)
unfolding erase_tick
All-erase_tick u now [] h = tt
All-erase_tick u now (t ∷ ticks) h = elim (Bool-cases (t == u)) [
  | inl same ↦ rw same (All-erase_tick u now ticks h.1)
  | inr other ↦ rw other (h.0, All-erase_tick u now ticks h.1)
]

All-later :
    (now moment : ℕ) (ticks : List ℕ)
    → now ≤ moment
    → All (λ t. t ≤ now) ticks
    → All (λ t. t ≤ moment) ticks
All-later now moment [] l h = tt
All-later now moment (t ∷ ticks) l h = (omega (arith, h.0), All-later now moment ticks l h.1)

later_time : (paused : Bool) (now time : ℕ) → (paused && ltb now time) ≡ true → now ≤ time
later_time paused now time e = ground arith

pub tick-Inv : (real time : ℕ) (c : Clock) → Inv c → Inv (tick real time c).0
unfolding tick
tick-Inv real time c v =
    schedule_tick-Inv _ (remaining-Above (global_now real c) 0 c.timers v.sorted)
      (backed_run time c.scheduled c.ticks v.backed)
      (λ p. All-erase_tick time c.current c.ticks (v.reached p))

pub tick_done-Inv : (c : Clock) → Inv c → Inv (tick_done c)
unfolding tick_done
tick_done-Inv c v =
    if_cases Inv (c.paused && none_due c.current c.timers)
      (λ _. record {
        sorted = v.sorted;
        backed = v.backed;
        covered = v.covered;
        woken = v.woken;
        reached = v.reached;
      })
      (λ _. v)

pub add_timer-Inv : (timeout : ℕ) (c : Clock) → Inv c → Inv (add_timer timeout c).0
unfolding add_timer
add_timer-Inv timeout c v =
    if_cases Inv (is_first timeout c.timers) (λ _. schedule_tick-Inv _ pushed v.backed v.reached)
      λ later. record {
        sorted = pushed;
        backed = v.backed;
        covered = λ r. pushed-IsCovered timeout c.next_id c.timers c.ticks later (v.covered r);
        woken = λ p d. v.woken p (pushed-IsDue timeout c.next_id c.current c.timers later d);
        reached = v.reached;
      }
  where
    pushed : Above 0 (push_timer (record { id = c.next_id; timeout = timeout }) c.timers)
    pushed = push_timer-Above _ 0 c.timers (omega arith) v.sorted

pub cancel-Inv : (x : Timer) (c : Clock) → Inv c → Inv (cancel x c).0
unfolding cancel
cancel-Inv x c v = record {
  sorted = cancel_in-Above x 0 c.timers v.sorted;
  backed = v.backed;
  covered = λ r. cancelled-IsCovered x 0 c.timers c.ticks v.sorted (v.covered r);
  woken = λ p d. v.woken p (cancelled-IsDue x 0 c.current c.timers v.sorted d);
  reached = v.reached;
}

pub covered_scheduled :
    (now : ℕ) (timers : Timers) (scheduled ticks : List ℕ)
    → All (λ t. holds t scheduled ≡ true) ticks
    → IsCovered timers ticks
    → IsDue now timers
    → scheduled ≢ []
covered_scheduled now [] scheduled ticks b v d = absurd d
covered_scheduled now ((t, group) ∷ rest) scheduled [] b v d = absurd v
covered_scheduled now ((t, group) ∷ rest) scheduled (u ∷ us) b v d =
    nonempty_of_holds u scheduled b.0

pub not-true : (b : Bool) → not b ≡ true → b ≡ false
not-true b h = ground arith

pub pause-Inv : (real : ℕ) (c : Clock) → Inv c → Inv (pause real c)
unfolding pause
pause-Inv real c v =
    if_cases Inv (not c.paused)
      (λ r. record {
        sorted = v.sorted;
        backed = tt;
        covered = λ q. absurd (cc);
        woken = λ _ d.
            covered_scheduled (global_now real c) c.timers c.scheduled c.ticks v.backed
              (v.covered (not-true c.paused r)) d;
        reached = λ _. tt;
      })
      (λ _. v)

pub resume-Inv : (c : Clock) → Inv c → Inv (resume c)
unfolding resume
resume-Inv c v =
    if_cases Inv c.paused (λ _. schedule_tick-Inv _ v.sorted v.backed (λ p. absurd cc)) (λ _. v)

pub advance-Inv : (duration : ℕ) (c : Clock) → Inv c → Inv (advance duration c)
unfolding advance
advance-Inv duration c v =
    if_cases Inv c.paused
      (λ _.
        schedule_tick-Inv _ v.sorted v.backed
          (λ p. All-later c.current (c.current + duration) c.ticks (omega arith) (v.reached p)))
      (λ _. v)

pub update-Inv : (time : ℕ) (c : Clock) → Inv c → Inv (update time c)
unfolding update
update-Inv time c v =
    if_cases Inv (c.paused && ltb c.current time)
      (λ b. schedule_tick-Inv _ v.sorted v.backed (λ p.
        All-later c.current time c.ticks (later_time c.paused c.current time b) (v.reached p)))
      (λ _. v)
