-- ===== src/Sync/ReadWriteLock/Invariant.antt =====
-- The invariant of a `ReadWriteLock` (include/process/rwlock.hpp) and its clients, kept by every call.
use native.Mathlib.Decide.{dec_lt}
use libprocess.Common.{
  ℕ, ◌+◌, ◌-◌, ◌<◌, ◌≡◌, refl, ap, ◌∙◌, true, false, some, List, [], ◌∷◌, ◌++◌, arith,
  if◌then◌else◌, length, length-append, append-nil, append_assoc,
}
use libprocess.Sync.ReadWriteLock.{
  Kind, Waiter, ReadWriteLock, write_lock, read_lock, write_unlock, read_unlock, take_readers,
  hand_over, wake_writer,
}
use libprocess.Sync.ReadWriteLock.System.{
  System, readers_of, writers_of, grant, acquire_read, acquire_write, release_read, release_write,
}

abbrev pub WriteFirst : List Waiter → Type 0
WriteFirst [] = Unit {0}
WriteFirst (w ∷ ws) = w.kind ≡ Kind.write

pub record Inv (s : System) : Type 0 where
  pub readers_counted : length s.readers ≡ s.lock.read_locked
  pub writers_counted : length s.writers ≡ (if s.lock.write_locked then 1 else 0)
  pub exclusive : s.lock.write_locked ≡ true → s.lock.read_locked ≡ 0
  pub no_idle : s.lock.write_locked ≡ false → s.lock.read_locked ≡ 0 → s.lock.waiters ≡ []
  pub write_first : s.lock.write_locked ≡ false → WriteFirst s.lock.waiters
  pub in_order : s.granted ++ s.lock.waiters ≡ s.requested

record Split (ws : List Waiter) : Type 0 where
  whole : (take_readers ws).0 ++ (take_readers ws).1 ≡ ws
  rest_first : WriteFirst (take_readers ws).1
  all_readers : length (readers_of (take_readers ws).0) ≡ length (take_readers ws).0
  no_writers : writers_of (take_readers ws).0 ≡ []

take_readers-Split : (ws : List Waiter) → Split ws
unfolding take_readers
take_readers-Split [] = ground arith
take_readers-Split (w ∷ ws) = ground (arith, take_readers-Split ws)

-- A grant at once keeps the order where nobody waits, and so does a new waiter at the end.
order_now :
    (gs ws : List Waiter) {rs : List Waiter} (w : Waiter)
    → gs ++ ws ≡ rs
    → ws ≡ []
    → (gs ++ w ∷ []) ++ ws ≡ rs ++ w ∷ []
order_now gs ws w e n = rw (← e, n, append-nil gs, append-nil (gs ++ w ∷ []))

order_later :
    (gs ws : List Waiter) {rs : List Waiter} (w : Waiter)
    → gs ++ ws ≡ rs
    → (gs ++ []) ++ (ws ++ w ∷ []) ≡ rs ++ w ∷ []
order_later gs ws w e = rw (← e, append-nil gs, append_assoc gs ws (w ∷ []))

take_readers_reader :
    (w : Waiter) (ws : List Waiter) → w.kind ≡ Kind.read → 0 < length (take_readers (w ∷ ws)).0
unfolding take_readers
take_readers_reader w ws h = ground arith

pub acquire_read-Inv : (p : ℕ) (s : System) → Inv s → Inv (acquire_read p s)
unfolding acquire_read read_lock
acquire_read-Inv p s v = ground (
  arith,
  length-append s.readers (p ∷ []),
  append-nil s.readers,
  append-nil s.writers,
  order_now s.granted s.lock.waiters (record { kind = Kind.read; promise = p }) v.in_order,
  order_later s.granted s.lock.waiters (record { kind = Kind.read; promise = p }) v.in_order,
)

pub acquire_write-Inv : (p : ℕ) (s : System) → Inv s → Inv (acquire_write p s)
unfolding acquire_write write_lock
acquire_write-Inv p s v = ground (
  arith,
  length-append s.writers (p ∷ []),
  append-nil s.readers,
  append-nil s.writers,
  order_now s.granted s.lock.waiters (record { kind = Kind.write; promise = p }) v.in_order,
  order_later s.granted s.lock.waiters (record { kind = Kind.write; promise = p }) v.in_order,
)

-- What a handover of the lock leaves, for the woken waiters `ws`.
hand_over-Inv :
    (ws : List Waiter) (s : System)
    → ws ≡ s.lock.waiters
    → s.lock.read_locked ≡ 0
    → s.granted ++ s.lock.waiters ≡ s.requested
    → length s.readers ≡ 0
    → length s.writers ≡ 0
    → let (l, woken) = hand_over (record s.lock { write_locked = false }) ws in
      Inv (grant woken (record s { lock = l }))
unfolding hand_over
hand_over-Inv [] s e r o a b =
    ground (arith, append-nil s.granted, append-nil s.readers, append-nil s.writers)
hand_over-Inv (w ∷ ws) s e r o a b = ground (
  arith,
  take_readers-Split (w ∷ ws),
  take_readers_reader w ws,
  length-append s.readers (readers_of (take_readers (w ∷ ws)).0),
  length-append s.writers (w.promise ∷ []),
  append-nil s.readers,
  append-nil s.writers,
  append_assoc s.granted (take_readers (w ∷ ws)).0 (take_readers (w ∷ ws)).1,
  append_assoc s.granted (w ∷ []) ws,
)

release_write_lem :
    (left right : List ℕ) (s : System)
    → s.lock.write_locked ≡ true
    → s.lock.read_locked ≡ 0
    → release_write left right s ≡ (
        let (l, woken) = hand_over (record s.lock { write_locked = false }) s.lock.waiters in
        some (grant woken (record s { lock = l; writers = left ++ right })))
unfolding release_write write_unlock
release_write_lem left right s w r = ground arith

pub release_write-Inv :
    (left : List ℕ) (p : ℕ) (right : List ℕ) (s : System)
    → s.writers ≡ left ++ p ∷ right
    → Inv s
    → (t : System) × (release_write left right s ≡ some t) × Inv t
unfolding release_write write_unlock
release_write-Inv left p right s e v = (
  _,
  release_write_lem left right s held idle,
  hand_over-Inv s.lock.waiters (record s { writers = left ++ right }) refl idle v.in_order
      none_reads none_writes,
)
  where
    counted : length s.writers ≡ length left + (length right + 1)
    counted = ap length e ∙ omega (arith, length-append left (p ∷ right))

    held : s.lock.write_locked ≡ true
    held = ground (arith, counted)

    idle : s.lock.read_locked ≡ 0
    idle = v.exclusive held

    none_reads : length s.readers ≡ 0
    none_reads = v.readers_counted ∙ idle

    none_writes : length (left ++ right) ≡ 0
    none_writes = ground (arith, counted, length-append left right)

-- A reader that is not the last leaves the waiters alone; the last one wakes the writer in front.
wake-Inv :
    (ws : List Waiter) (s : System)
    → ws ≡ s.lock.waiters
    → s.lock.write_locked ≡ false
    → s.lock.read_locked ≡ 0
    → WriteFirst ws
    → s.granted ++ ws ≡ s.requested
    → length s.readers ≡ 0
    → length s.writers ≡ 0
    → (l : ReadWriteLock) × (woken : List Waiter) × (wake_writer s.lock ws ≡ some (l, woken))
      × Inv (grant woken (record s { lock = l }))
unfolding wake_writer
wake-Inv [] s e f r w o a b = (
  s.lock,
  [],
  refl,
  ground (arith, append-nil s.granted, append-nil s.readers, append-nil s.writers),
)
wake-Inv (x ∷ ws) s e f r w o a b = (
  record s.lock { waiters = ws; write_locked = true },
  x ∷ [],
  ground arith,
  ground (
    arith,
    length-append s.writers (x.promise ∷ []),
    append-nil s.readers,
    append_assoc s.granted (x ∷ []) ws,
  ),
)

release_read_of :
    (left right : List ℕ) (s : System) (l : ReadWriteLock) (woken : List Waiter)
    → read_unlock s.lock ≡ some (l, woken)
    → release_read left right s
      ≡ some (grant woken (record s { lock = l; readers = left ++ right }))
unfolding release_read
release_read_of left right s l woken e = rw (e, release_read)

abbrev one_less : ReadWriteLock → ReadWriteLock
one_less l = record l { read_locked = l.read_locked - 1 }

read_unlock_last :
    (l : ReadWriteLock)
    → l.write_locked ≡ false
    → l.read_locked ≡ 1
    → read_unlock l ≡ wake_writer (one_less l) l.waiters
unfolding read_unlock
read_unlock_last l w r = ground arith

read_unlock_more :
    (l : ReadWriteLock)
    → l.write_locked ≡ false
    → 1 < l.read_locked
    → read_unlock l ≡ some (one_less l, [])
unfolding read_unlock
read_unlock_more l w r = ground arith

-- A client that holds the lock for reading can leave, and no CHECK fails.
pub release_read-Inv :
    (left : List ℕ) (p : ℕ) (right : List ℕ) (s : System)
    → s.readers ≡ left ++ p ∷ right
    → Inv s
    → (t : System) × (release_read left right s ≡ some t) × Inv t
release_read-Inv left p right s e v = elim (dec_lt 1 s.lock.read_locked) [
  | yes more ↦ (
    _,
    release_read_of left right s (one_less s.lock) [] (read_unlock_more s.lock shared more),
    ground (
      arith,
      counted,
      rest,
      append-nil (left ++ right),
      append-nil s.writers,
      append-nil s.granted,
    ),
  )
  | no none_left ↦
      let last : s.lock.read_locked ≡ 1 = omega (arith, counted, v.readers_counted) in
      let (l, woken, q, i) =
        wake-Inv s.lock.waiters (record s { lock = one_less s.lock; readers = left ++ right }) refl
          shared (omega arith) (v.write_first shared) v.in_order
          (omega (arith, rest, counted, v.readers_counted)) (rw shared at v.writers_counted) in
      (_, release_read_of left right s l woken (read_unlock_last s.lock shared last ∙ q), i)
]
  where
    counted : length s.readers ≡ length left + (length right + 1)
    counted = ap length e ∙ omega (arith, length-append left (p ∷ right))

    rest : length (left ++ right) ≡ length left + length right
    rest = length-append left right

    shared : s.lock.write_locked ≡ false
    shared = ground (arith, counted)
