-- ===== src/Sync/Queue.antt =====
-- include/process/queue.hpp: `Queue<T>`. A waiting promise is a number; an operation returns,
-- beside the new state, the promise that it completes after the critical section and with what.
pub mod Fifo
mod Tests
use libprocess.Common.{
  ℕ, ◌==◌, Bool, true, false, Option, none, some, List, [], ◌∷◌, ◌++◌, if◌then◌else◌, length,
}

pub record Queue (T : Type 0) : Type 0 where
  pub promises : List ℕ
  pub elements : List T

-- The loop of the discard handler over the waiting promises.
unfoldable pub erase_promise : ℕ → List ℕ → List ℕ
erase_promise p [] = []
erase_promise p (q ∷ qs) = if q == p then qs else q ∷ erase_promise p qs

unfoldable pub waits : ℕ → List ℕ → Bool
waits p [] = false
waits p (q ∷ qs) = if q == p then true else waits p qs

module _ {T : Type 0} where
  -- `Queue::Data::Data()`
  abbrev pub empty : Queue T
  empty = record { promises = []; elements = [] }

  -- `put`: the first waiting promise gets the element, if any waits.
  unfoldable pub put : T → Queue T → Queue T × Option (ℕ × T)
  put t q = elim q.promises [
    | [] ↦ (record q { elements = q.elements ++ t ∷ [] }, none)
    | p ∷ ps ↦ (record q { promises = ps }, some (p, t))
  ]

  -- `get`, with the promise that it creates where there is no element: an element of a future
  -- that is ready, or none where the promise waits.
  unfoldable pub get : ℕ → Queue T → Queue T × Option T
  get promise q = elim q.elements [
    | [] ↦ (record q { promises = q.promises ++ promise ∷ [] }, none)
    | t ∷ ts ↦ (record q { elements = ts }, some t)
  ]

  -- The discard handler of a future that `get` returned: whether its promise was still waiting
  -- and is now discarded.
  unfoldable pub discard : ℕ → Queue T → Queue T × Bool
  unfolding erase_promise waits
  discard p q = (record q { promises = erase_promise p q.promises }, waits p q.promises)

  unfoldable pub size : Queue T → ℕ
  size q = length q.elements
