-- ===== src/Sequence.antt =====
-- include/process/sequence.hpp: `SequenceProcess`. The callbacks of a sequence in the order in which they were added, each
-- with the future that `add` returned for it; its notifier is ready exactly when that future is done.
pub mod System
pub mod Shape
pub mod Discards
pub mod Order
mod Tests
use libprocess.Common.{ℕ, ◌+◌, Bool, true, false, ◌&&◌, List, [], ◌∷◌, ◌++◌, if◌then◌else◌, length}

-- A callback waits for its notification; then `notified` tests whether its future was discarded, and afterwards, if it was
-- not, invokes it: no lock joins the two.
pub data Stage : Type 0 where
  waiting woken passed running finished skipped : Stage

pub record Item : Type 0 where
  pub id : ℕ
  pub stage : Stage
  pub has_discard : Bool

abbrev pub waits_or_runs : Stage → Bool
waits_or_runs Stage.finished = false
waits_or_runs Stage.skipped = false
waits_or_runs _ = true

-- A notifier is set, and the callback behind it is notified.
abbrev pub set_notifier : List Item → List Item
set_notifier [] = []
set_notifier (x ∷ xs) = record x { stage = Stage.woken } ∷ xs

-- The test of `notified`, for a callback and those behind it: a promise that is discarded sets its notifier.
unfoldable pub notified : Item → List Item → List Item
notified x later =
    if x.has_discard
    then record x { stage = Stage.skipped } ∷ set_notifier later
    else record x { stage = Stage.passed } ∷ later

-- The rest of `notified`.
abbrev pub invoke : Item → Item
invoke x = record x { stage = Stage.running }

-- The future of a callback is done, and `completed` sets its notifier.
unfoldable pub completed : Item → List Item → List Item
completed x later = record x { stage = Stage.finished } ∷ set_notifier later

-- Whether the notifier `last` is ready.
unfoldable pub is_last_ready : List Item → Bool
is_last_ready [] = true
is_last_ready (x ∷ []) = if waits_or_runs x.stage then false else true
is_last_ready (x ∷ y ∷ xs) = is_last_ready (y ∷ xs)

unfoldable pub add : List Item → List Item
unfolding is_last_ready
add xs =
    xs
    ++ record {
      id = length xs;
      stage = if is_last_ready xs then Stage.woken else Stage.waiting;
      has_discard = false;
    }
      ∷ []

-- `discard` on the future of a callback: nothing once it is done.
abbrev pub discard : Item → Item
discard x = if waits_or_runs x.stage then record x { has_discard = true } else x

abbrev pub are_pending : List Item → Bool
are_pending [] = true
are_pending (x ∷ xs) = waits_or_runs x.stage && are_pending xs

-- `finalize`: a discarded notifier that is pending discards the future of its callback and the notifier before
-- it, so the discard of the last one reaches a callback if all after it are pending.
unfoldable pub finalize : List Item → List Item
finalize [] = []
finalize (x ∷ xs) = (if are_pending xs then discard x else x) ∷ finalize xs
