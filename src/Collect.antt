-- ===== src/Collect.antt =====
-- include/process/collect.hpp: `collect`, a future of the values of a list of futures, and its
-- process. A future in the list is given by what it completes with; the process gets one message for
-- each, in any order. `waiting` stands for the messages that have not been handled.
pub mod Order
pub mod Await
mod Tests
use libprocess.Common.{
  ℕ, suc, Bool, true, false, Option, none, some, List, [], ◌∷◌, if◌then◌else◌, ◌==◌, length,
}

pub data Completion (T E : Type 0) : Type 0 where
  ready : T → Completion T E
  failed : E → Completion T E
  discarded : Completion T E

-- "Collect failed: " and the failure of a future, or "future discarded".
pub data Reason (E : Type 0) : Type 0 where
  failure : E → Reason E
  future_discarded : Reason E

-- The promise of the result. `aborts` is `get` on a future that is not ready.
pub data Fate (T E : Type 0) : Type 0 where
  pending discarded abandoned aborts : Fate T E
  set_to : List T → Fate T E
  failed_with : Reason E → Fate T E

pub record Collecting (T E : Type 0) : Type 0 where
  pub futures : List (Completion T E)
  pub promise : Fate T E
  pub ready : ℕ
  pub terminated : Bool
  pub waiting : List (Completion T E)

module _ {T E : Type 0} where
  abbrev pub cons_value : Completion T E → Option (List T) → Option (List T)
  cons_value (Completion.ready t) (some ts) = some (t ∷ ts)
  cons_value _ _ = none

  -- The values of the futures, none if one has no value.
  unfoldable pub values : List (Completion T E) → Option (List T)
  values [] = some []
  values (c ∷ cs) = cons_value c (values cs)

  abbrev pub fate_of : Option (List T) → Fate T E
  fate_of none = Fate.aborts
  fate_of (some ts) = Fate.set_to ts

  -- `collect`, which spawns no process for an empty list.
  unfoldable pub collect : List (Completion T E) → Collecting T E
  collect [] = record {
    futures = [];
    promise = Fate.set_to [];
    ready = 0;
    terminated = true;
    waiting = [];
  }
  collect (c ∷ cs) = record {
    futures = c ∷ cs;
    promise = Fate.pending;
    ready = 0;
    terminated = false;
    waiting = c ∷ cs;
  }

  abbrev pub finish : Fate T E → Collecting T E → Collecting T E
  finish f p = record p { promise = f; terminated = true }

  abbrev pub handle : Completion T E → Collecting T E → Collecting T E
  handle (Completion.failed e) p = finish (Fate.failed_with (failure e)) p
  handle Completion.discarded p = finish (Fate.failed_with future_discarded) p
  handle (Completion.ready t) p =
      if suc p.ready == length p.futures
      then finish (fate_of (values p.futures)) (record p { ready = suc p.ready })
      else record p { ready = suc p.ready }

  -- `CollectProcess::waited`; a process that has terminated drops its messages.
  unfoldable pub waited : Completion T E → Collecting T E → Collecting T E
  waited c p = if p.terminated then p else handle c p

  -- `CollectProcess::discarded` and `CollectProcess::abandoned`.
  unfoldable pub discard_all : Collecting T E → Collecting T E
  discard_all p = if p.terminated then p else finish Fate.discarded p

  unfoldable pub abandon_all : Collecting T E → Collecting T E
  abandon_all p = if p.terminated then p else finish Fate.abandoned p
