-- ===== src/Future/Tests.antt =====
-- Runs of a future (include/process/future.hpp), and the theorems at inputs that meet their
-- hypotheses.
use libprocess.Common.{
  false, ℕ, ◌+◌, ◌≡◌, refl, not, ◌&&◌, List, [], ◌∷◌, arith, if◌then◌else◌, ◌==◌, total,
}
use libprocess.Future.{Data, fresh, is_pending}
use libprocess.Future.Promise.{Op, apply, run, calls_of}
use libprocess.Future.Finality.{run_final, completions_once, completions, pending_count}
use libprocess.Future.Callbacks.{Event, fires, registered, callbacks_exactly_once}

-- A callback 7 waits for any completion and a callback 8 for a value; then the promise is set
-- twice.
abbrev history : List (Op ℕ ℕ ℕ)
history =
    Op.when_any 7
    ∷ Op.when_ready 8
    ∷ Op.promise_value false 5
    ∷ Op.promise_error false 6
    ∷ Op.when_any 7
    ∷ []

abbrev is_seven : ℕ → ℕ
is_seven c = if c == 7 then 1 else 0

abbrev ready_future : Data ℕ ℕ ℕ
ready_future = run (Op.promise_value false 5 ∷ []) fresh

history_calls : calls_of history fresh ≡ 8 ∷ 7 ∷ 7 ∷ []
unfolding calls_of run apply fresh
history_calls = refl

callbacks_exactly_once_example : total is_seven (calls_of history fresh) ≡ (
    if not (is_pending (run history fresh).state) && fires Event.any (run history fresh).state
    then total is_seven (registered Event.any history)
    else 0)
callbacks_exactly_once_example = callbacks_exactly_once is_seven Event.any history (omega arith)

run_final_example :
    ((run history ready_future).state ≡ ready_future.state)
    × ((run history ready_future).result ≡ ready_future.result)
unfolding run apply fresh
run_final_example = run_final history ready_future (λ e. cc)

abbrev empty_future : Data ℕ ℕ ℕ
empty_future = fresh

completions_once_example :
    completions history empty_future + pending_count (run history empty_future)
    ≡ pending_count empty_future
completions_once_example = completions_once history empty_future
