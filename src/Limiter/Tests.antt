-- ===== src/Limiter/Tests.antt =====
-- include/process/limiter.hpp: three requests, of which the second is discarded, at an interval of ten.
use libprocess.Common.{ℕ, at, ◌≡◌, refl, Bool, true, false, All, [], ◌∷◌, ◌++◌, arith}
use libprocess.Limiter.{Answer, acquire, discard, next_permit, on_delay}
use libprocess.Limiter.System.{
  System, promises_of, permitted, refused, asks, discards, comes, Reach, here, next,
}
use libprocess.Limiter.Rate.{Apart, Ends, due, IsRefused, permits_spaced, permits_in_order}

abbrev answer : ℕ → Bool → Answer
answer p permit = record { promise = p; permit = permit }

abbrev served : System
served = record {
  limiter = record { promises = []; discarded = at (λ p. false) 2 true; timeout = 23; delays = [] };
  now = 13;
  asked = 1 ∷ 2 ∷ 3 ∷ [];
  left = answer 1 true ∷ answer 2 false ∷ answer 3 true ∷ [];
  done = answer 1 true ∷ answer 2 false ∷ answer 3 true ∷ [];
  permits = 13 ∷ 3 ∷ [];
  aborted = false;
}

served-Reach : Reach 10 3 served
unfolding acquire discard next_permit on_delay
served-Reach =
    next
      (next
        (next (next (next here (asks 1 3 (omega arith))) (asks 2 5 (omega arith)))
          (asks 3 6 (omega arith)))
        (discards 2 7 (omega arith)))
      (comes [] 13 [] 13 refl (omega arith) (omega arith))

permits_spaced_example : Apart 10 (13 ∷ 3 ∷ []) × Ends 10 23 (13 ∷ 3 ∷ [])
permits_spaced_example = permits_spaced 10 3 served served-Reach

permits_in_order_example :
    (promises_of served.left ++ served.limiter.promises ≡ served.asked)
    × (permitted served.left ≡ permitted served.done)
    × All (IsRefused 10 (refused served.done)) served.left
    × (served.limiter.delays ≡ due 10 served.limiter.promises served.limiter.timeout)
    × (served.aborted ≡ false)
permits_in_order_example = permits_in_order 10 3 served served-Reach
