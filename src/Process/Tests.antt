-- ===== src/Process/Tests.antt =====
-- A process with one delivery and two workers (src/process.cpp): the delivery comes while the first
-- worker blocks the process. The theorems stand at the end of this run.
use libprocess.Common.{◌≡◌, ◌≤◌, ◌+◌, refl, ◌⊎◌, Bool, true, false, [], ◌∷◌, ◌++◌, total}
use libprocess.EventQueue.{enqueue, dequeue, is_empty}
use libprocess.Process.{State, Event, spawned, swap_blocked, Producer, produce, Worker, resume}
use libprocess.Process.System.{
  System, delivers, produces, wakes, works, Reach, here, next, schedules_it, runs_it, has_aborted,
}
use libprocess.Process.Scheduling.{one_thread_runs, no_lost_wakeup}
use libprocess.Process.Delivery.{events_in_order}

abbrev no_filter : Event → Bool
no_filter e = false

abbrev served : System
served = record {
  process = record {
    state = State.blocked;
    termination = false;
    queue = record { events = []; comissioned = true };
    queued = 0;
  };
  producers = Producer.returns true ∷ [];
  workers = Worker.left ∷ Worker.left ∷ [];
  accepted = Event.message 7 ∷ [];
  taken = Event.message 7 ∷ [];
  deleted = [];
}

-- The first worker initializes the process and blocks it; the delivery wakes it, and the worker that
-- looks at the queue once more leaves it to the second one.
served-Reach : Reach no_filter served
unfolding spawned produce resume enqueue dequeue is_empty swap_blocked
served-Reach =
    next
      (next
        (next
          (next
            (next
              (next
                (next
                  (next
                    (next
                      (next
                        (next
                          (next
                            (next
                              (next
                                (next
                                  (next
                                    (next
                                      (next
                                        (next
                                          (next
                                            (next
                                              (next (next here (wakes 0 refl))
                                                (works [] Worker.starts [] refl))
                                              (works [] Worker.initializes [] refl))
                                            (works [] Worker.looks [] refl))
                                          (delivers (Event.message 7)))
                                        (produces [] (Producer.loads (Event.message 7)) [] refl))
                                      (works [] Worker.blocks [] refl))
                                    (produces [] (Producer.pushes State.ready (Event.message 7)) []
                                      refl))
                                  (produces [] (Producer.flags false) [] refl))
                                (produces [] Producer.checks [] refl))
                              (works [] Worker.rechecks [] refl))
                            (produces [] Producer.swaps [] refl))
                          (works [] Worker.swaps [] refl))
                        (produces [] Producer.schedules [] refl))
                      (wakes 0 refl))
                    (works (Worker.left ∷ []) Worker.starts [] refl))
                  (works (Worker.left ∷ []) Worker.looks [] refl))
                (works (Worker.left ∷ []) Worker.takes [] refl))
              (works (Worker.left ∷ []) (Worker.holds (Event.message 7)) [] refl))
            (works (Worker.left ∷ []) (Worker.serves (Event.message 7) false) [] refl))
          (works (Worker.left ∷ []) Worker.looks [] refl))
        (works (Worker.left ∷ []) Worker.blocks [] refl))
      (works (Worker.left ∷ []) Worker.rechecks [] refl)

one_thread_runs_example :
    (served.process.queued + total schedules_it served.producers + total runs_it served.workers ≤ 1)
    × (total has_aborted served.workers ≡ 0)
one_thread_runs_example = one_thread_runs no_filter (λ b. refl) served served-Reach

no_lost_wakeup_example :
    (served.process.state ≡ State.terminating)
    ⊎ ((served.process.state ≡ State.blocked) × (served.process.queue.events ≡ []))
no_lost_wakeup_example =
    no_lost_wakeup no_filter (λ b. refl) served served-Reach (tt, tt) (tt, (tt, tt)) refl

events_in_order_example :
    (served.taken ++ (served.process.queue.events ++ served.deleted) ≡ served.accepted)
    × (served.process.queue.comissioned ≡ true → served.deleted ≡ [])
events_in_order_example = events_in_order no_filter served served-Reach
