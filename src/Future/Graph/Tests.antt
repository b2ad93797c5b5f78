-- ===== src/Future/Graph/Tests.antt =====
-- A run of two associated futures (include/process/future.hpp), and the theorem at an input that
-- meets its hypotheses.
use libprocess.Common.{false, ℕ, suc, ◌≡◌, ◌≢◌, refl, true, List, [], ◌∷◌, ◌++◌, arith}
use libprocess.Future.{State, fresh, value}
use libprocess.Future.Promise.{Op, apply}
use libprocess.Future.Graph.{
  set_into, fail_into, discard_into, abandon_into, request_discard_of, Task, call, operate, System,
  perform, run_task, operation_of, registrations, associate, runs, calls, associates, Reach, here,
  next,
}
use libprocess.Future.Graph.Mirror.{completes_as_source}

abbrev source : ℕ → ℕ
source f = suc f

abbrev start : System ℕ ℕ
start = record { futures = λ _. fresh; pending = [] }

-- Future 0 is associated with future 1, the registration of its ready callback runs, the promise
-- of future 1 is set, and the callback runs.
abbrev linked : System ℕ ℕ
linked = associate 0 1 start

abbrev after_task : List (Task ℕ ℕ) → Task ℕ ℕ → List (Task ℕ ℕ) → System ℕ ℕ → System ℕ ℕ
after_task left t right s = record {
  futures = (run_task t s.futures).0;
  pending = (left ++ (run_task t s.futures).1) ++ right;
}

abbrev first_task : List (Task ℕ ℕ)
first_task = operate (Op.when_discard (request_discard_of 1)) 0 ∷ []

abbrev later_tasks : List (Task ℕ ℕ)
later_tasks =
    operate (Op.when_failed (fail_into 0)) 1
    ∷ operate (Op.when_discarded (discard_into 0)) 1
    ∷ operate (Op.when_abandoned (abandon_into 0)) 1
    ∷ []

abbrev waits_for_value : System ℕ ℕ
waits_for_value = after_task first_task (operate (Op.when_ready (set_into 0)) 1) later_tasks linked

abbrev set_source : System ℕ ℕ
set_source = record {
  futures = (perform (Op.promise_value false 5) 1 waits_for_value.futures).0;
  pending =
      waits_for_value.pending ++ (perform (Op.promise_value false 5) 1 waits_for_value.futures).1;
}

abbrev finished : System ℕ ℕ
finished = after_task (first_task ++ later_tasks) (call (set_into 0) 1) [] set_source

finished_value : (finished.futures 0).result ≡ value 5
unfolding associate registrations apply operation_of fresh
finished_value = refl

finished-Reach : Reach source finished
unfolding associate registrations apply operation_of fresh
finished-Reach =
    next
      (next
        (next (next here (associates 0 1 (λ _. refl)))
          (runs first_task (operate (Op.when_ready (set_into 0)) 1) later_tasks refl))
        (calls (Op.promise_value false 5) 1 tt refl))
      (runs (first_task ++ later_tasks) (call (set_into 0) 1) [] refl)

is_associated : (finished.futures 0).associated ≡ true
unfolding associate registrations apply operation_of fresh
is_associated = refl

has_completed : (finished.futures 0).state ≢ State.pending
unfolding associate registrations apply operation_of fresh
has_completed = ground arith

completes_as_source_example :
    ((finished.futures 0).state ≡ (finished.futures 1).state)
    × ((finished.futures 0).result ≡ (finished.futures 1).result)
completes_as_source_example =
    completes_as_source source finished finished-Reach 0 is_associated has_completed
