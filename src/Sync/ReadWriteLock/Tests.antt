-- ===== src/Sync/ReadWriteLock/Tests.antt =====
-- A `ReadWriteLock` (include/process/rwlock.hpp) with readers and a writer, and the theorems at
-- this history.
use libprocess.Common.{ℕ, ◌+◌, ◌≤◌, ◌≡◌, refl, ◌≢◌, ◌⊎◌, some, List, [], ◌∷◌, ◌++◌, length}
use libprocess.Sync.ReadWriteLock.{read_lock, write_lock, read_unlock}
use libprocess.Sync.ReadWriteLock.System.{
  System, start, acquire_read, acquire_write, release_read, release_write, Reach, here, next,
  locks_read, locks_write,
}
use libprocess.Sync.ReadWriteLock.Exclusion.{
  exclusive_writes, reads_and_writes_in_order, unlock_succeeds,
}

-- Client 1 reads, client 2 waits to write, client 3 waits to read.
abbrev waiting : System
waiting = acquire_read 3 (acquire_write 2 (acquire_read 1 start))

waiting-Reach : Reach waiting
waiting-Reach = next (next (next here (locks_read 1)) (locks_write 2)) (locks_read 3)

-- The reader leaves, and the writer has the lock, before the later reader.
reader_leaves : (t : System) × (release_read [] [] waiting ≡ some t) × (t.writers ≡ 2 ∷ [])
unfolding acquire_read acquire_write read_lock write_lock release_read read_unlock
reader_leaves = (_, refl, refl)

exclusive_writes_example :
    (length waiting.writers ≤ 1) × ((length waiting.writers ≡ 0) ⊎ (length waiting.readers ≡ 0))
exclusive_writes_example = exclusive_writes waiting-Reach

reads_and_writes_in_order_example : waiting.granted ++ waiting.lock.waiters ≡ waiting.requested
reads_and_writes_in_order_example = reads_and_writes_in_order waiting-Reach

unlock_succeeds_example :
    ((left : List ℕ) (p : ℕ) (right : List ℕ)
      → waiting.readers ≡ left ++ p ∷ right
      → (t : System) × (release_read left right waiting ≡ some t))
    × ((left : List ℕ) (p : ℕ) (right : List ℕ)
        → waiting.writers ≡ left ++ p ∷ right
        → (t : System) × (release_write left right waiting ≡ some t))
    × (waiting.lock.waiters ≢ [] → length waiting.readers + length waiting.writers ≢ 0)
unlock_succeeds_example = unlock_succeeds waiting-Reach
