-- ===== src/Sequence/Tests.antt =====
-- A sequence (include/process/sequence.hpp) with three callbacks, of which the second is discarded, and its history.
use libprocess.Common.{ℕ, Bool, ◌≡◌, ◌≤◌, refl, [], ◌∷◌, ◌++◌, true, false, length, if◌then◌else◌}
use libprocess.Sequence.{Stage, Item, notified, completed, is_last_ready, add, finalize}
use libprocess.Sequence.System.{
  System, passed_of, start, add_callback, test_callback, invoke_callback, complete_callback,
  end_sequence, Reach, here, next, adds, tests, invokes, completes, ends,
}
use libprocess.Sequence.Shape.{Shape, invoked_of}
use libprocess.Sequence.Order.{one_callback_runs}

abbrev item : ℕ → Stage → Bool → Item
item id stage has_discard = record { id = id; stage = stage; has_discard = has_discard }

abbrev waits : ℕ → Item
waits id = item id Stage.waiting false

-- The sequence ends after the first passed the test; the first is invoked, and when it is done the second is skipped.
abbrev ended : System
ended =
    test_callback (item 0 Stage.finished true ∷ []) (item 1 Stage.woken true)
      (item 2 Stage.waiting true ∷ [])
      (complete_callback [] (item 0 Stage.running true)
        (item 1 Stage.waiting true ∷ item 2 Stage.waiting true ∷ [])
        (invoke_callback [] (item 0 Stage.passed true)
          (item 1 Stage.waiting true ∷ item 2 Stage.waiting true ∷ [])
          (end_sequence (
            test_callback [] (item 0 Stage.woken false) (waits 1 ∷ waits 2 ∷ [])
              (add_callback (add_callback (add_callback start)))))))

first_is_late : ended.late ≡ 0 ∷ []
unfolding test_callback complete_callback invoke_callback end_sequence finalize add_callback add
    completed notified is_last_ready
first_is_late = refl

ended-Reach : Reach ended
unfolding test_callback complete_callback invoke_callback end_sequence finalize add_callback add
    completed notified is_last_ready
ended-Reach =
    next
      (next
        (next
          (next
            (next (next (next (next here (adds refl)) (adds refl)) (adds refl))
              (tests [] (item 0 Stage.woken false) (waits 1 ∷ waits 2 ∷ []) refl refl))
            (ends refl))
          (invokes [] (item 0 Stage.passed true)
            (item 1 Stage.waiting true ∷ item 2 Stage.waiting true ∷ []) refl refl))
        (completes [] (item 0 Stage.running true)
          (item 1 Stage.waiting true ∷ item 2 Stage.waiting true ∷ []) refl refl))
      (tests (item 0 Stage.finished true ∷ []) (item 1 Stage.woken true)
        (item 2 Stage.waiting true ∷ []) refl refl)

one_callback_runs_example :
    Shape ended.items
    × (ended.invoked ≡ invoked_of ended.items)
    × (ended.late ++ (if ended.ended then passed_of ended.items else []) ≡ ended.passed_at_end)
    × (length ended.passed_at_end ≤ 1)
one_callback_runs_example = one_callback_runs ended-Reach
