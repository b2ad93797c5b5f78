-- ===== src/Sync/Mutex.antt =====
-- include/process/mutex.hpp: `Mutex`. A waiter's promise is a number; `lock` is given the promise
-- that it would create, and tells whether its future is ready at once; `unlock` returns the
-- promise that it sets after leaving the critical section.
pub mod Exclusion
mod Tests
use libprocess.Common.{ℕ, Bool, true, false, Option, none, some, List, [], ◌∷◌, ◌++◌, if◌then◌else◌}

pub record Mutex : Type 0 where
  pub locked : Bool
  pub waiters : List ℕ

-- `Mutex::Data::Data()`
abbrev pub unlocked : Mutex
unlocked = record { locked = false; waiters = [] }

unfoldable pub lock : ℕ → Mutex → Mutex × Bool
lock promise m =
    if m.locked
    then (record m { waiters = m.waiters ++ promise ∷ [] }, false)
    else (record m { locked = true }, true)

unfoldable pub unlock : Mutex → Mutex × Option ℕ
unlock m = elim m.waiters [
  | [] ↦ (record m { locked = false }, none)
  | w ∷ ws ↦ (record m { waiters = ws }, some w)
]
