-- ===== src/Sync/ReadWriteLock/Exclusion.antt =====
-- What `ReadWriteLock` (include/process/rwlock.hpp) promises to clients that unlock what they hold.
use mathlib.Core.Path.{subst}
use mathlib.Core.Option.{some-injective}
use libprocess.Common.{
  ℕ, ◌+◌, ◌≤◌, ◌≡◌, sym, ◌∙◌, ◌≢◌, ◌⊎◌, some, List, [], ◌∷◌, ◌++◌, arith, length,
}
use libprocess.Sync.ReadWriteLock.System.{
  System, Step, Reach, here, next, locks_read, locks_write, unlocks_read, unlocks_write,
  release_read, release_write,
}
use libprocess.Sync.ReadWriteLock.Invariant.{
  Inv, acquire_read-Inv, acquire_write-Inv, release_read-Inv, release_write-Inv,
}

Step-Inv : {s t : System} → Inv s → Step s t → Inv t
Step-Inv {s} v (locks_read p) = acquire_read-Inv p s v
Step-Inv {s} v (locks_write p) = acquire_write-Inv p s v
Step-Inv {s} v (unlocks_read left p right e q) =
    let (t, q', i) = release_read-Inv left p right s e v in
    subst Inv (some-injective t _ (sym q' ∙ q)) i
Step-Inv {s} v (unlocks_write left p right e q) =
    let (t, q', i) = release_write-Inv left p right s e v in
    subst Inv (some-injective t _ (sym q' ∙ q)) i

Reach-Inv : {s : System} → Reach s → Inv s
Reach-Inv here = ground arith
Reach-Inv (next r st) = Step-Inv (Reach-Inv r) st

-- While clients unlock only what they hold, a writer holds the lock alone: at most one client
-- holds it for writing, and none holds it for reading while one does.
pub exclusive_writes :
    {s : System}
    → Reach s
    → (length s.writers ≤ 1) × ((length s.writers ≡ 0) ⊎ (length s.readers ≡ 0))
exclusive_writes r = let v = Reach-Inv r in ground arith

-- Reads and writes are granted in the order of their calls, so no later read passes a waiting
-- write: the grants so far, followed by the waiters, are the calls so far.
pub reads_and_writes_in_order : {s : System} → Reach s → s.granted ++ s.lock.waiters ≡ s.requested
reads_and_writes_in_order r = (Reach-Inv r).in_order

-- Whoever holds the lock for reading or for writing can unlock it: no CHECK of the unlock functions
-- fails. And whenever a call waits, some client holds the lock.
pub unlock_succeeds :
    {s : System}
    → Reach s
    → ((left : List ℕ) (p : ℕ) (right : List ℕ)
        → s.readers ≡ left ++ p ∷ right
        → (t : System) × (release_read left right s ≡ some t))
      × ((left : List ℕ) (p : ℕ) (right : List ℕ)
          → s.writers ≡ left ++ p ∷ right
          → (t : System) × (release_write left right s ≡ some t))
      × (s.lock.waiters ≢ [] → length s.readers + length s.writers ≢ 0)
unlock_succeeds {s} r =
    let v = Reach-Inv r in
    (
      λ left p right e. let (t, q, i) = release_read-Inv left p right s e v in (t, q),
      λ left p right e. let (t, q, i) = release_write-Inv left p right s e v in (t, q),
      ground arith,
    )
