-- ===== src/Limiter.antt =====
-- include/process/limiter.hpp: `RateLimiterProcess`. A promise and a time are numbers; the interval is
-- what `Seconds(1) / permitsPerSecond` rounds to. A call of `delay` adds the time when it is due.
pub mod System
pub mod Rate
mod Tests
use libprocess.Common.{
  ℕ, at, ◌+◌, ◌-◌, Bool, true, false, Option, none, some, List, [], ◌∷◌, ◌++◌, if◌then◌else◌, ◌==◌,
  ltb,
}

pub record Limiter : Type 0 where
  pub promises : List ℕ
  pub discarded : ℕ → Bool
  pub timeout : ℕ
  pub delays : List ℕ

abbrev pub new_limiter : ℕ → Limiter
new_limiter now = record { promises = []; discarded = λ p. false; timeout = now; delays = [] }

-- A promise that is done or that is taken off the queue, with a permit or without one.
pub record Answer : Type 0 where
  pub promise : ℕ
  pub permit : Bool

-- `Timeout::remaining`
abbrev pub time_left : ℕ → ℕ → ℕ
time_left timeout now = timeout - now

abbrev pub delay : ℕ → Limiter → Limiter
delay now l = record l { delays = l.delays ++ (now + time_left l.timeout now) ∷ [] }

abbrev pub is_in : ℕ → List ℕ → Bool
is_in p [] = false
is_in p (q ∷ qs) = if q == p then true else is_in p qs

-- `RateLimiterProcess::discard`
-- A promise that waits is done at once, and stays in the queue until a call of `_acquire` takes it off.
unfoldable pub discard : ℕ → Limiter → Limiter × List Answer
discard p l =
    if is_in p l.promises
    then (
      record l { discarded = at l.discarded p true },
      if l.discarded p then [] else record { promise = p; permit = false } ∷ [],
    )
    else (l, [])

module _ (interval : ℕ) where
  -- `RateLimiterProcess::acquire`
  abbrev pub acquire_behind : List ℕ → ℕ → ℕ → Limiter → Limiter × List Answer
  acquire_behind (q ∷ qs) p now l = (record l { promises = l.promises ++ p ∷ [] }, [])
  acquire_behind [] p now l =
      if ltb 0 (time_left l.timeout now)
      then (delay now (record l { promises = l.promises ++ p ∷ [] }), [])
      else (record l { timeout = now + interval }, record { promise = p; permit = true } ∷ [])

  unfoldable pub acquire : ℕ → ℕ → Limiter → Limiter × List Answer
  acquire p now l = acquire_behind l.promises p now l

  -- The loop of `RateLimiterProcess::_acquire`, and the call.
  unfoldable pub next_permit : ℕ → List ℕ → Limiter → Limiter × List Answer
  next_permit now [] l = (record l { promises = [] }, [])
  next_permit now (p ∷ ps) l =
      let (l', answers) = next_permit now ps l in
      if l.discarded p then (l', record { promise = p; permit = false } ∷ answers) else (
        record l { promises = ps; timeout = now + interval },
        record { promise = p; permit = true } ∷ [],
      )

  abbrev pub repeat : ℕ → List ℕ → Limiter → Limiter
  repeat now [] l = l
  repeat now (p ∷ ps) l = delay now l

  abbrev pub acquire_next : ℕ → List ℕ → Limiter → Option (Limiter × List Answer)
  acquire_next now [] l = none
  acquire_next now (p ∷ ps) l =
      let (l', answers) = next_permit now (p ∷ ps) l in some (repeat now l'.promises l', answers)

  unfoldable pub on_delay : ℕ → Limiter → Option (Limiter × List Answer)
  unfolding next_permit
  on_delay now l = acquire_next now l.promises l
