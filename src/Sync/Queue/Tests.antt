-- ===== src/Sync/Queue/Tests.antt =====
-- A `Queue` (include/process/queue.hpp) at work, and the theorems at this history.
use libprocess.Common.{ℕ, ◌≡◌, refl, ◌⊎◌, List, [], ◌∷◌, ◌++◌}
use libprocess.Sync.Queue.{put, get, discard}
use libprocess.Sync.Queue.Fifo.{
  Call, puts, gets, discards, start, run, step, values, requests, first_in_first_out,
}

-- Three requests wait, the second is discarded, and three elements come.
abbrev calls : List (Call ℕ)
calls = gets ∷ gets ∷ gets ∷ discards 1 ∷ puts 10 ∷ puts 20 ∷ puts 30 ∷ []

calls_delivered : (run calls start).delivered ≡ (0, 10) ∷ (2, 20) ∷ []
unfolding run step put get discard
calls_delivered = refl

first_in_first_out_example :
    (values (run calls start).delivered ++ (run calls start).queue.elements
      ≡ (run calls start).offered)
    × (requests (run calls start).delivered ++ (run calls start).queue.promises
        ≡ (run calls start).asked)
    × (((run calls start).queue.promises ≡ []) ⊎ ((run calls start).queue.elements ≡ []))
first_in_first_out_example = first_in_first_out calls
