-- ===== src/Sync/ReadWriteLock/System.antt =====
-- Clients of one `ReadWriteLock` (include/process/rwlock.hpp): a client holds the lock from the
-- moment its future is ready until it unlocks.
use libprocess.Common.{ℕ, ◌≡◌, Bool, true, false, Option, none, some, List, [], ◌∷◌, ◌++◌}
use libprocess.Sync.ReadWriteLock.{
  Kind, Waiter, ReadWriteLock, unlocked, write_lock, read_lock, write_unlock, read_unlock,
}

-- The lock with its history: the clients that hold it for reading and for writing, and the calls
-- of the lock functions in the order in which they were made and in which they were granted.
pub record System : Type 0 where
  pub lock : ReadWriteLock
  pub readers : List ℕ
  pub writers : List ℕ
  pub requested : List Waiter
  pub granted : List Waiter

abbrev pub start : System
start = record { lock = unlocked; readers = []; writers = []; requested = []; granted = [] }

-- The promises among some waiters that are of one kind.
abbrev pub readers_of : List Waiter → List ℕ
readers_of [] = []
readers_of (w ∷ ws) = elim w.kind [
  | Kind.read ↦ w.promise ∷ readers_of ws
  | Kind.write ↦ readers_of ws
]

abbrev pub writers_of : List Waiter → List ℕ
writers_of [] = []
writers_of (w ∷ ws) = elim w.kind [
  | Kind.read ↦ writers_of ws
  | Kind.write ↦ w.promise ∷ writers_of ws
]

abbrev pub if_ready : Waiter → Bool → List Waiter
if_ready w true = w ∷ []
if_ready w false = []

abbrev pub grant : List Waiter → System → System
grant ws s = record s {
  readers = s.readers ++ readers_of ws;
  writers = s.writers ++ writers_of ws;
  granted = s.granted ++ ws;
}

unfoldable pub acquire_read : ℕ → System → System
acquire_read p s =
    let w : Waiter = record { kind = Kind.read; promise = p } in
    let (l, ready) = read_lock p s.lock in
    grant (if_ready w ready) (record s { lock = l; requested = s.requested ++ w ∷ [] })

unfoldable pub acquire_write : ℕ → System → System
acquire_write p s =
    let w : Waiter = record { kind = Kind.write; promise = p } in
    let (l, ready) = write_lock p s.lock in
    grant (if_ready w ready) (record s { lock = l; requested = s.requested ++ w ∷ [] })

-- `left` and `right` are the readers (the writers) before and behind the one that unlocks; `none`
-- where a CHECK fails.
unfoldable pub release_read : List ℕ → List ℕ → System → Option System
release_read left right s = elim (read_unlock s.lock) [
  | none ↦ none
  | some (l, ws) ↦ some (grant ws (record s { lock = l; readers = left ++ right }))
]

unfoldable pub release_write : List ℕ → List ℕ → System → Option System
release_write left right s = elim (write_unlock s.lock) [
  | none ↦ none
  | some (l, ws) ↦ some (grant ws (record s { lock = l; writers = left ++ right }))
]

pub data Step (s : System) : System → Type 0 where
  locks_read : (p : ℕ) → Step s (acquire_read p s)
  locks_write : (p : ℕ) → Step s (acquire_write p s)
  unlocks_read :
      (left : List ℕ) (p : ℕ) (right : List ℕ) {t : System}
      → s.readers ≡ left ++ p ∷ right
      → release_read left right s ≡ some t
      → Step s t
  unlocks_write :
      (left : List ℕ) (p : ℕ) (right : List ℕ) {t : System}
      → s.writers ≡ left ++ p ∷ right
      → release_write left right s ≡ some t
      → Step s t

pub data Reach : System → Type 0 where
  here : Reach start
  next : {s t : System} → Reach s → Step s t → Reach t
