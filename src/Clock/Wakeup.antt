-- ===== src/Clock/Wakeup.antt =====
-- src/clock.cpp: no timer is forgotten. Whatever is done to the clock, while a timer can fire the
-- event loop still has a tick to run.
use libprocess.Common.{ℕ, ◌≤◌, ◌≡◌, refl, ◌≢◌, true, false, List, [], ◌∷◌, arith, All}
use libprocess.Clock.{
  Timer, Timers, Clock, started, tick, tick_done, add_timer, cancel, pause, resume, advance, update,
}
use libprocess.Clock.Schedule.{holds, IsCovered, IsDue, Inv}
use libprocess.Clock.Kept.{
  tick-Inv, tick_done-Inv, add_timer-Inv, cancel-Inv, covered_scheduled, pause-Inv, resume-Inv,
  advance-Inv, update-Inv,
}

-- What the program and the event loop do to the clock. A tick runs for a time for which it was
-- scheduled, and may end, in its second critical section, at any later moment.
pub data Step (c : Clock) : Clock → Type 0 where
  ticks_at : (real time : ℕ) → holds time c.scheduled ≡ true → Step c (tick real time c).0
  ends_tick : Step c (tick_done c)
  adds : (timeout : ℕ) → Step c (add_timer timeout c).0
  cancels : (x : Timer) → Step c (cancel x c).0
  pauses : (real : ℕ) → Step c (pause real c)
  resumes : Step c (resume c)
  advances : (duration : ℕ) → Step c (advance duration c)
  updates : (time : ℕ) → Step c (update time c)

pub data Reach : Clock → Type 0 where
  here : Reach started
  after : {c d : Clock} → Reach c → Step c d → Reach d

Step-Inv : {c d : Clock} → Inv c → Step c d → Inv d
Step-Inv {c} v (ticks_at real time h) = tick-Inv real time c v
Step-Inv {c} v ends_tick = tick_done-Inv c v
Step-Inv {c} v (adds timeout) = add_timer-Inv timeout c v
Step-Inv {c} v (cancels x) = cancel-Inv x c v
Step-Inv {c} v (pauses real) = pause-Inv real c v
Step-Inv {c} v resumes = resume-Inv c v
Step-Inv {c} v (advances duration) = advance-Inv duration c v
Step-Inv {c} v (updates time) = update-Inv time c v

started-Inv : Inv started
unfolding started
started-Inv = record {
  sorted = tt;
  backed = tt;
  covered = λ _. tt;
  woken = λ _ d. absurd d;
  reached = λ _. tt;
}

pub Reach-Inv : {c : Clock} → Reach c → Inv c
Reach-Inv here = started-Inv
Reach-Inv (after r st) = Step-Inv (Reach-Inv r) st

running_scheduled :
    (timers : Timers) (scheduled ticks : List ℕ)
    → timers ≢ []
    → All (λ t. holds t scheduled ≡ true) ticks
    → IsCovered timers ticks
    → scheduled ≢ []
running_scheduled [] scheduled ticks n b v = absurd (n refl)
running_scheduled ((t, group) ∷ rest) scheduled ticks n b v =
    covered_scheduled t ((t, group) ∷ rest) scheduled ticks b v (omega arith)

-- No timer is forgotten: whatever was done to the clock, pausing, resuming and cancelling included,
-- the event loop has a tick to run whenever a timer waits on the running clock, and whenever a
-- timer is due on the paused one. On the running clock a recorded tick is due no later than the
-- first timer; on the paused clock ticks are recorded only for times that the clock has reached.
pub no_timer_forgotten :
    {c : Clock}
    → Reach c
    → (c.paused ≡ false → c.timers ≢ [] → (c.scheduled ≢ []) × IsCovered c.timers c.ticks)
      × (c.paused ≡ true → IsDue c.current c.timers → c.scheduled ≢ [])
      × (c.paused ≡ true → All (λ t. t ≤ c.current) c.ticks)
no_timer_forgotten {c} r =
    let v = Reach-Inv r in
    (
      λ running some_wait. (
        running_scheduled c.timers c.scheduled c.ticks some_wait v.backed (v.covered running),
        v.covered running,
      ),
      v.woken,
      v.reached,
    )
