-- ===== src/EventQueue.antt =====
-- src/event_queue.hpp: the queue of the events of one process, in its locking version. Each operation
-- is one critical section.
pub mod Linked
pub mod LockFree
mod Tests
use libprocess.Common.{
  ℕ, Bool, true, false, Option, none, some, List, [], ◌∷◌, ◌++◌, if◌then◌else◌, suc,
}

pub record EventQueue (E : Type 0) : Type 0 where
  pub events : List E
  pub comissioned : Bool

module _ {E : Type 0} where
  abbrev pub new_queue : EventQueue E
  new_queue = record { events = []; comissioned = true }

  unfoldable pub enqueue : E → EventQueue E → EventQueue E × Bool
  enqueue e q =
      if q.comissioned then (record q { events = q.events ++ e ∷ [] }, true) else (q, false)

  -- None stands for the failure of CHECK_NOTNULL.
  unfoldable pub dequeue : EventQueue E → EventQueue E × Option E
  dequeue q = elim q.events [ [] ↦ (q, none) | e ∷ es ↦ (record q { events = es }, some e) ]

  unfoldable pub is_empty : EventQueue E → Bool
  is_empty q = elim q.events [ [] ↦ true | e ∷ es ↦ false ]

  unfoldable pub decomission : EventQueue E → EventQueue E
  decomission q = record q { events = []; comissioned = false }

  unfoldable pub count : (E → Bool) → List E → ℕ
  count is_kind [] = 0
  count is_kind (e ∷ es) = let rest = count is_kind es in if is_kind e then suc rest else rest
