-- ===== src/EventQueue/Tests.antt =====
-- Runs of the event queues (src/event_queue.hpp, src/mpsc_linked_queue.hpp), and the theorems at them.
use libprocess.Common.{ℕ, ◌≡◌, ◌≢◌, refl, true, false, none, some, List, [], ◌∷◌, ◌++◌}
use libprocess.EventQueue.{EventQueue, enqueue, decomission}
use libprocess.EventQueue.LockFree.{
  offer, lock_free_enqueue, lock_free_decomission, lock_free_stays_open,
}
use libprocess.EventQueue.Linked.{exchange, link, Consumer, consume}
use libprocess.EventQueue.Linked.System.{
  System, start, exchanges, links, calls, consumes, Reach, here, next, after_pop, pop,
}
use libprocess.EventQueue.Linked.Refines.{linked_refines_queue, IsPop}

abbrev do_exchange : ℕ → System ℕ → System ℕ
do_exchange e s = record s {
  list = (exchange e s.list).0;
  linking = s.linking ++ ((exchange e s.list).1, (exchange e s.list).2) ∷ [];
  waiting = s.waiting ++ e ∷ [];
  pushed = s.pushed ++ e ∷ [];
}

abbrev do_link : List (ℕ × ℕ) → ℕ → ℕ → List (ℕ × ℕ) → System ℕ → System ℕ
do_link before old new behind s = record s {
  list = link old new s.list;
  linking = before ++ behind;
}

abbrev do_call : System ℕ → System ℕ
do_call s = record s { consumer = Consumer.starts }

abbrev do_consume : System ℕ → System ℕ
do_consume s = record s {
  list = (consume s.consumer s.list).0;
  consumer = (consume s.consumer s.list).1;
  waiting = after_pop s.consumer s.waiting;
  popped = s.popped ++ pop s.consumer s.waiting;
}

-- Two producers exchange; the second links first, so the consumer spins until the first one links.
abbrev raced : System ℕ
raced = do_consume (
    do_link [] 0 1 [] (
      do_consume (
        do_consume
          (do_call (do_link ((0, 1) ∷ []) 1 2 [] (do_exchange 20 (do_exchange 10 start)))))))

raced-Reach : Reach raced
unfolding exchange link consume
raced-Reach =
    next
      (next
        (next
          (next
            (next
              (next (next (next here (exchanges 10)) (exchanges 20))
                (links ((0, 1) ∷ []) 1 2 [] refl))
              (calls none refl))
            consumes)
          consumes)
        (links [] 0 1 [] refl))
      consumes

raced_result : (do_consume (do_consume raced)).consumer ≡ Consumer.returns (some 10)
unfolding exchange link consume
raced_result = refl

linked_refines_queue_example :
    (raced.popped ++ raced.waiting ≡ raced.pushed)
    × IsPop raced.consumer raced.waiting (consume raced.consumer raced.list).1
    × (raced.list.faulted ≡ false)
    × (raced.linking ≡ []
        → raced.consumer ≡ Consumer.spins
        → (consume raced.consumer raced.list).1 ≢ Consumer.spins)
linked_refines_queue_example = linked_refines_queue raced raced-Reach

abbrev two_events : EventQueue ℕ
two_events = record { events = 1 ∷ 2 ∷ []; comissioned = true }

lock_free_stays_open_example :
    (offer enqueue (3 ∷ 4 ∷ []) (decomission two_events) ≡ [])
    × (offer lock_free_enqueue (3 ∷ 4 ∷ []) (lock_free_decomission two_events) ≡ 3 ∷ 4 ∷ [])
lock_free_stays_open_example = lock_free_stays_open (3 ∷ 4 ∷ []) two_events
