-- ===== src/Collect/Tests.antt =====
-- A `collect` of two futures (include/process/collect.hpp) that complete in the opposite order, and
-- the theorem at it.
use libprocess.Common.{ℕ, ◌≡◌, ◌≢◌, refl, [], ◌∷◌, List}
use libprocess.Collect.{Completion, Fate, Collecting, collect, waited, values}
use libprocess.Collect.Await
use libprocess.Collect.Await.{Awaiting, Result, await, await_waited, IsWaited, await_settles}
use libprocess.Collect.Order.{Reach, here, next, delivers, IsRight, collect_settles}

abbrev two : List (Completion ℕ ℕ)
two = Completion.ready 5 ∷ Completion.ready 6 ∷ []

abbrev one_left : Collecting ℕ ℕ
one_left = waited (Completion.ready 6) (record (collect two) { waiting = Completion.ready 5 ∷ [] })

abbrev none_left : Collecting ℕ ℕ
none_left = waited (Completion.ready 5) (record one_left { waiting = [] })

two_collected : none_left.promise ≡ Fate.set_to (5 ∷ 6 ∷ [])
unfolding waited collect values
two_collected = refl

two-Reach : Reach two none_left
unfolding waited collect
two-Reach =
    next (next here (delivers (Completion.ready 5 ∷ []) (Completion.ready 6) [] refl))
      (delivers [] (Completion.ready 5) [] refl)

collect_settles_example :
    IsRight two none_left.promise × (none_left.waiting ≡ [] → none_left.promise ≢ Fate.pending)
collect_settles_example = collect_settles two none_left two-Reach

abbrev all_waited : Awaiting ℕ
all_waited =
    await_waited
      (record (await_waited (record (await (5 ∷ 6 ∷ [])) { waiting = 1 })) { waiting = 0 })

all_waited-Reach : Await.Reach (5 ∷ 6 ∷ []) all_waited
unfolding await await_waited
all_waited-Reach =
    Await.next (Await.next Await.here (Await.delivers 1 refl)) (Await.delivers 0 refl)

await_settles_example :
    IsWaited (5 ∷ 6 ∷ []) all_waited.waiting all_waited.promise
    × (all_waited.waiting ≡ 0 → all_waited.promise ≢ Result.pending)
await_settles_example = await_settles (5 ∷ 6 ∷ []) all_waited all_waited-Reach
