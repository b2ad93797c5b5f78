-- ===== src/Clock/Tests.antt =====
-- A clock with a few timers (src/clock.cpp), and the theorems at it.
use libprocess.Common.{ℕ, ◌≤◌, ◌<◌, ◌≡◌, ◌≢◌, refl, true, false, [], ◌∷◌, ◌++◌, arith, All}
use libprocess.Clock.{
  Timer, Clock, started, global_now, tick, add_timer, cancel, remove_timer, pause, advance,
}
use libprocess.Clock.Groups.{Above, in_order}
use libprocess.Clock.Firing.{tick_fires_due, cancel_reports_twice}
use libprocess.Clock.Schedule.{IsCovered, IsDue}
use libprocess.Clock.Wakeup.{Reach, here, after, adds, pauses, advances, no_timer_forgotten}
use libprocess.Clock.Processes.{order, time_of, order_after_sender}

abbrev timer : ℕ → ℕ → Timer
timer id timeout = record { id = id; timeout = timeout }

-- Two timers wait for 5 and one for 9; the clock is paused at 3 and advanced by 4.
abbrev three_timers : Clock
three_timers = record {
  timers = (5, timer 1 5 ∷ timer 2 5 ∷ []) ∷ (9, timer 3 9 ∷ []) ∷ [];
  currents = [];
  initial = 3;
  current = 7;
  advanced = 4;
  paused = true;
  settling = false;
  ticks = 5 ∷ [];
  scheduled = 5 ∷ [];
  next_id = 4;
}

three_timers-Above : Above 0 three_timers.timers
three_timers-Above = omega arith

three_timers_ids : All (λ y. y.id ≡ 1 → y.timeout ≡ 5) (in_order three_timers.timers)
three_timers_ids = omega arith

tick_fires_due_example :
    ((tick 0 5 three_timers).1 ++ in_order (tick 0 5 three_timers).0.timers
      ≡ in_order three_timers.timers)
    × All (λ x. x.timeout ≤ global_now 0 three_timers) (tick 0 5 three_timers).1
    × All (λ x. global_now 0 three_timers < x.timeout) (in_order (tick 0 5 three_timers).0.timers)
tick_fires_due_example = tick_fires_due 0 5 0 three_timers three_timers-Above

cancel_reports_twice_example :
    ((cancel (timer 1 5) three_timers).1 ≡ true)
    × ((cancel (timer 1 5) (cancel (timer 1 5) three_timers).0).1 ≡ true)
    × (in_order (cancel (timer 1 5) three_timers).0.timers
        ≡ remove_timer 1 (in_order three_timers.timers))
cancel_reports_twice_example =
    cancel_reports_twice (timer 1 5) (timer 2 5) 0 three_timers three_timers-Above three_timers_ids
      (λ e. absurd (omega arith)) refl refl

abbrev paused_clock : Clock
paused_clock = advance 4 (pause 3 (add_timer 5 started).0)

paused_clock-Reach : Reach paused_clock
paused_clock-Reach = after (after (after here (adds 5)) (pauses 3)) (advances 4)

no_timer_forgotten_example :
    (paused_clock.paused ≡ false
      → paused_clock.timers ≢ []
      → (paused_clock.scheduled ≢ []) × IsCovered paused_clock.timers paused_clock.ticks)
    × (paused_clock.paused ≡ true
        → IsDue paused_clock.current paused_clock.timers
        → paused_clock.scheduled ≢ [])
    × (paused_clock.paused ≡ true → All (λ t. t ≤ paused_clock.current) paused_clock.ticks)
no_timer_forgotten_example = no_timer_forgotten paused_clock-Reach

order_after_sender_example :
    (time_of 0 1 three_timers ≤ time_of 0 2 (order 0 1 2 three_timers))
    × (time_of 0 2 three_timers ≤ time_of 0 2 (order 0 1 2 three_timers))
    × ((q : ℕ) → q ≢ 2 → time_of 0 q (order 0 1 2 three_timers) ≡ time_of 0 q three_timers)
order_after_sender_example = order_after_sender 0 1 2 three_timers refl
