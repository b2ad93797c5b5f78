-- ===== src/Sync/Mutex/Tests.antt =====
-- A `Mutex` (include/process/mutex.hpp) that two clients want, and the theorems at this history.
use libprocess.Common.{◌≤◌, ◌≡◌, refl, ◌≢◌, [], ◌∷◌, ◌++◌, length}
use libprocess.Sync.Mutex.{lock, unlock}
use libprocess.Sync.Mutex.Exclusion.{
  System, start, acquire, release, Reach, here, next, locks, unlocks, mutual_exclusion,
}

-- Client 1 locks, client 2 waits, client 1 unlocks.
abbrev handed_over : System
handed_over = release [] [] (acquire 2 (acquire 1 start))

handed_over-Reach : Reach handed_over
unfolding acquire lock
handed_over-Reach = next (next (next here (locks 1)) (locks 2)) (unlocks [] 1 [] refl)

handed_over_holders : handed_over.holders ≡ 2 ∷ []
unfolding acquire release lock unlock
handed_over_holders = refl

mutual_exclusion_example :
    (length handed_over.holders ≤ 1)
    × (handed_over.mutex.waiters ≢ [] → length handed_over.holders ≡ 1)
    × (handed_over.granted ++ handed_over.mutex.waiters ≡ handed_over.requested)
mutual_exclusion_example = mutual_exclusion handed_over-Reach
