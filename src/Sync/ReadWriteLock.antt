-- ===== src/Sync/ReadWriteLock.antt =====
-- include/process/rwlock.hpp: `ReadWriteLock`. A waiter's promise is a number; the lock functions
-- are given the promise that they would create and tell whether its future is ready at once; the
-- unlock functions return the promises that they set after the critical section, or `none` where
-- a CHECK aborts the program.
pub mod System
pub mod Invariant
pub mod Exclusion
mod Tests
use libprocess.Common.{
  ℕ, ◌+◌, ◌-◌, ◌==◌, Bool, true, false, not, ◌&&◌, Option, none, some, List, [], ◌∷◌, ◌++◌,
  if◌then◌else◌, length,
}

pub data Kind : Type 0 where
  read write : Kind

pub record Waiter : Type 0 where
  pub kind : Kind
  pub promise : ℕ

pub record ReadWriteLock : Type 0 where
  pub read_locked : ℕ
  pub write_locked : Bool
  pub waiters : List Waiter

-- `ReadWriteLock::Data::Data()`
abbrev pub unlocked : ReadWriteLock
unlocked = record { read_locked = 0; write_locked = false; waiters = [] }

abbrev pub is_empty {ℓ} : {A : Type ℓ} → List A → Bool
is_empty [] = true
is_empty (x ∷ xs) = false

unfoldable pub write_lock : ℕ → ReadWriteLock → ReadWriteLock × Bool
write_lock p l =
    if not l.write_locked && l.read_locked == 0
    then (record l { write_locked = true }, true)
    else (record l { waiters = l.waiters ++ record { kind = write; promise = p } ∷ [] }, false)

unfoldable pub read_lock : ℕ → ReadWriteLock → ReadWriteLock × Bool
read_lock p l =
    if not l.write_locked && is_empty l.waiters
    then (record l { read_locked = l.read_locked + 1 }, true)
    else (record l { waiters = l.waiters ++ record { kind = read; promise = p } ∷ [] }, false)

-- The loop of `write_unlock` that dequeues the readers at the front: those it pops, and the rest.
unfoldable pub take_readers : List Waiter → List Waiter × List Waiter
take_readers [] = ([], [])
take_readers (w ∷ ws) = elim w.kind [
  | read ↦ let (group, rest) = take_readers ws in (w ∷ group, rest)
  | write ↦ ([], w ∷ ws)
]

-- The `switch` on the first waiter, with the lock already released.
unfoldable pub hand_over : ReadWriteLock → List Waiter → ReadWriteLock × List Waiter
hand_over l [] = (l, [])
hand_over l (w ∷ ws) = elim w.kind [
  | read ↦
      let (group, rest) = take_readers (w ∷ ws) in
      (record l { read_locked = length group; waiters = rest }, group)
  | write ↦ (record l { waiters = ws; write_locked = true }, w ∷ [])
]

unfoldable pub write_unlock : ReadWriteLock → Option (ReadWriteLock × List Waiter)
unfolding hand_over
write_unlock l =
    if l.write_locked && l.read_locked == 0
    then some (hand_over (record l { write_locked = false }) l.waiters)
    else none

-- The last reader to leave wakes the first waiter, which must be a writer.
unfoldable pub wake_writer : ReadWriteLock → List Waiter → Option (ReadWriteLock × List Waiter)
wake_writer l [] = some (l, [])
wake_writer l (w ∷ ws) = elim w.kind [
  | read ↦ none
  | write ↦ some (record l { waiters = ws; write_locked = true }, w ∷ [])
]

unfoldable pub read_unlock : ReadWriteLock → Option (ReadWriteLock × List Waiter)
unfolding wake_writer
read_unlock l =
    if not l.write_locked && not (l.read_locked == 0)
    then (if l.read_locked - 1 == 0 then wake_writer left l.waiters else some (left, []))
    else none
  where
    left : ReadWriteLock
    left = record l { read_locked = l.read_locked - 1 }
