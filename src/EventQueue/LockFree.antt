-- ===== src/EventQueue/LockFree.antt =====
-- src/event_queue.hpp: the lock-free version of the event queue. The list below it is taken as the
-- queue that it stands for, and `decomission`, which the single consumer runs, as one step.
use libprocess.Common.{◌≡◌, refl, Bool, true, false, List, [], ◌∷◌, ◌++◌, arith, if◌then◌else◌}
use libprocess.EventQueue.{EventQueue, enqueue, decomission}

module _ {E : Type 0} where
  unfoldable pub lock_free_enqueue : E → EventQueue E → EventQueue E × Bool
  lock_free_enqueue e q =
      if q.comissioned then (record q { events = q.events ++ e ∷ [] }, true) else (q, false)

  -- The flag is stored as true, and the elements are removed one by one.
  unfoldable pub lock_free_decomission : EventQueue E → EventQueue E
  lock_free_decomission q = record q { comissioned = true; events = [] }

  -- The events that a queue took from a list of events, offered one by one.
  pub offer : (E → EventQueue E → EventQueue E × Bool) → List E → EventQueue E → List E
  offer put [] q = []
  offer put (e ∷ es) q =
      let (q', taken) = put e q in let rest = offer put es q' in if taken then e ∷ rest else rest

  locking_refuses :
      (es : List E) (q : EventQueue E) → q.comissioned ≡ false → offer enqueue es q ≡ []
  unfolding offer enqueue
  locking_refuses [] q h = refl
  locking_refuses (e ∷ es) q h = ground (arith, h, locking_refuses es q h)

  lock_free_takes :
      (es : List E) (q : EventQueue E) → q.comissioned ≡ true → offer lock_free_enqueue es q ≡ es
  unfolding offer lock_free_enqueue
  lock_free_takes [] q h = refl
  lock_free_takes (e ∷ es) q h =
      ground (arith, h, lock_free_takes es (record q { events = q.events ++ e ∷ [] }) h)

  -- After `decomission` the locking queue takes none of the events that are offered to it, and the
  -- lock-free queue takes them all.
  pub lock_free_stays_open :
      (es : List E) (q : EventQueue E)
      → (offer enqueue es (decomission q) ≡ [])
        × (offer lock_free_enqueue es (lock_free_decomission q) ≡ es)
  unfolding decomission lock_free_decomission
  lock_free_stays_open es q = (locking_refuses es _ refl, lock_free_takes es _ refl)
