-- ===== src/Future/Promise.antt =====
-- include/process/future.hpp: the operations of `Promise<T>` on its future, and a history of
-- operations on one future by any number of producers and consumers.
use libprocess.Common.{Bool, true, false, not, ◌&&◌, List, [], ◌∷◌, ◌++◌, if◌then◌else◌}
use libprocess.Future.{
  Data, Effect, is_pending, unchanged, set, fail, complete_discarded, discard, abandon,
  add_on_abandoned, add_on_discard, add_on_ready, add_on_failed, add_on_discarded, add_on_any,
}

module _ {T E C : Type 0} where
  -- `Promise<T>::_set`, `Promise<T>::fail` and `Promise<T>::discard` do nothing where they read that the promise is
  -- associated. They read it before, and without the lock: `read` is what they read.
  unfoldable pub promise_set : Bool → T → Data T E C → Effect T E C
  unfolding set
  promise_set read t d = if not read then set t d else unchanged d

  unfoldable pub promise_fail : Bool → E → Data T E C → Effect T E C
  unfolding fail
  promise_fail read message d = if not read then fail message d else unchanged d

  unfoldable pub promise_discard : Bool → Data T E C → Effect T E C
  unfolding complete_discarded
  promise_discard read d = if not read then complete_discarded d else unchanged d

  -- The locked part of `Promise<T>::associate`, which decides whether the promise associates.
  unfoldable pub mark_associated : Data T E C → Effect T E C
  mark_associated d =
      if is_pending d.state && not d.associated
      then record { after = record d { associated = true }; result = true; calls = [] }
      else unchanged d

  -- `promise->f.data->discard = false` in `Future<T>::recover`
  unfoldable pub reset_discard : Data T E C → Effect T E C
  reset_discard d = unchanged (record d { discard_flag = false })

-- One atomic operation on a future. `set_value`, `fail_with` and `finish_discarded` are what an
-- associated future's source runs; those with `promise` in their names belong to its own promise.
pub data Op (T E C : Type 0) : Type 0 where
  set_value : T → Op T E C
  fail_with : E → Op T E C
  promise_value : (read : Bool) → T → Op T E C
  promise_error : (read : Bool) → E → Op T E C
  promise_discarded : (read : Bool) → Op T E C
  finish_discarded request_discard associate forget_discard : Op T E C
  abandon_future : (propagating : Bool) → Op T E C
  when_abandoned when_discard when_ready when_failed when_discarded when_any : C → Op T E C

module _ {T E C : Type 0} where
  unfoldable pub apply : Op T E C → Data T E C → Effect T E C
  unfolding promise_set promise_fail promise_discard mark_associated reset_discard set fail
      complete_discarded discard abandon add_on_abandoned add_on_discard add_on_ready add_on_failed
      add_on_discarded add_on_any
  apply (Op.set_value t) d = set t d
  apply (Op.promise_value read t) d = promise_set read t d
  apply (Op.fail_with e) d = fail e d
  apply (Op.promise_error read e) d = promise_fail read e d
  apply Op.finish_discarded d = complete_discarded d
  apply (Op.promise_discarded read) d = promise_discard read d
  apply Op.request_discard d = discard d
  apply Op.associate d = mark_associated d
  apply Op.forget_discard d = reset_discard d
  apply (Op.abandon_future b) d = abandon b d
  apply (Op.when_abandoned c) d = add_on_abandoned c d
  apply (Op.when_discard c) d = add_on_discard c d
  apply (Op.when_ready c) d = add_on_ready c d
  apply (Op.when_failed c) d = add_on_failed c d
  apply (Op.when_discarded c) d = add_on_discarded c d
  apply (Op.when_any c) d = add_on_any c d

  -- The state after a history, and every callback that it invoked, in order.
  unfoldable pub run : List (Op T E C) → Data T E C → Data T E C
  run [] d = d
  run (o ∷ os) d = run os (apply o d).after

  unfoldable pub calls_of : List (Op T E C) → Data T E C → List C
  calls_of [] d = []
  calls_of (o ∷ os) d = (apply o d).calls ++ calls_of os (apply o d).after
