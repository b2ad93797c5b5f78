-- ===== src/Collect/Await.antt =====
-- include/process/collect.hpp: `await` and `AwaitProcess`, which wait for every future of a list,
-- whatever it completes with. The process counts its messages; `waiting` is how many of them have not
-- been handled.
use libprocess.Common.{
  ℕ, suc, ◌+◌, ◌≡◌, ◌≢◌, Bool, true, false, List, [], ◌∷◌, arith, if◌then◌else◌, ◌==◌, length,
}

-- The promise of the result.
pub data Result (F : Type 0) : Type 0 where
  pending discarded abandoned : Result F
  set_to : List F → Result F

pub record Awaiting (F : Type 0) : Type 0 where
  pub futures : List F
  pub promise : Result F
  pub ready : ℕ
  pub terminated : Bool
  pub waiting : ℕ

module _ {F : Type 0} where
  -- `await`, which spawns no process for an empty list.
  unfoldable pub await : List F → Awaiting F
  await [] = record {
    futures = [];
    promise = Result.set_to [];
    ready = 0;
    terminated = true;
    waiting = 0;
  }
  await (f ∷ fs) = record {
    futures = f ∷ fs;
    promise = Result.pending;
    ready = 0;
    terminated = false;
    waiting = length (f ∷ fs);
  }

  abbrev pub end_with : Result F → Awaiting F → Awaiting F
  end_with r p = record p { promise = r; terminated = true }

  -- `AwaitProcess::waited`; a process that has terminated drops its messages.
  unfoldable pub await_waited : Awaiting F → Awaiting F
  await_waited p =
      if p.terminated
      then p
      else if suc p.ready == length p.futures
      then end_with (Result.set_to p.futures) (record p { ready = suc p.ready })
      else record p { ready = suc p.ready }

  -- `AwaitProcess::discarded` and `AwaitProcess::abandoned`.
  unfoldable pub await_discarded : Awaiting F → Awaiting F
  await_discarded p = if p.terminated then p else end_with Result.discarded p

  unfoldable pub await_abandoned : Awaiting F → Awaiting F
  await_abandoned p = if p.terminated then p else end_with Result.abandoned p

  pub data Step (p : Awaiting F) : Awaiting F → Type 0 where
    delivers : (n : ℕ) → p.waiting ≡ suc n → Step p (await_waited (record p { waiting = n }))
    discards : Step p (await_discarded p)
    abandons : Step p (await_abandoned p)

  pub data Reach (futures : List F) : Awaiting F → Type 0 where
    here : Reach futures (await futures)
    next : {p q : Awaiting F} → Reach futures p → Step p q → Reach futures q

  -- The result is set to the list itself, after all of its futures have completed.
  abbrev pub IsWaited : List F → ℕ → Result F → Type 0
  IsWaited fs n (Result.set_to gs) = (gs ≡ fs) × (n ≡ 0)
  IsWaited fs n _ = Unit

  record Inv (fs : List F) (p : Awaiting F) : Type 0 where
    same : p.futures ≡ fs
    right : IsWaited p.futures p.waiting p.promise
    counted : p.terminated ≡ false → p.ready + p.waiting ≡ length p.futures
    open_end : p.terminated ≡ false → p.waiting ≢ 0
    settled : p.terminated ≡ true → p.promise ≢ Result.pending

  await-Inv : (fs : List F) → Inv fs (await fs)
  unfolding await
  await-Inv [] = ground arith
  await-Inv (f ∷ fs) = ground arith

  step-Inv : (fs : List F) (p q : Awaiting F) → Step p q → Inv fs p → Inv fs q
  unfolding await_waited await_discarded await_abandoned
  step-Inv fs p _ (delivers n e) v = ground (arith, e)
  step-Inv fs p _ discards v = ground arith
  step-Inv fs p _ abandons v = ground arith

  reach-Inv : (fs : List F) (p : Awaiting F) → Reach fs p → Inv fs p
  reach-Inv fs _ here = await-Inv fs
  reach-Inv fs _ (next {p = p} {q = q} r e) = step-Inv fs p q e (reach-Inv fs p r)

  settles : (fs : List F) (p : Awaiting F) → Inv fs p → p.waiting ≡ 0 → p.promise ≢ Result.pending
  settles fs p v e = ground (arith, v.open_end, v.settled)

  -- Whatever the consumer discards and whichever future is abandoned: if the result is set, it is the
  -- list of futures itself and every future has completed; and the result is not pending once every
  -- message has been handled.
  pub await_settles :
      (fs : List F) (p : Awaiting F)
      → Reach fs p
      → IsWaited fs p.waiting p.promise × (p.waiting ≡ 0 → p.promise ≢ Result.pending)
  await_settles fs p r =
      let v = reach-Inv fs p r in
      (coe 0 1 (i. IsWaited (v.same i) p.waiting p.promise) v.right, settles fs p v)
