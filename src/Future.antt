-- ===== src/Future.antt =====
-- include/process/future.hpp: the shared state of one future (`Future<T>::Data`), and the
-- operations on it. A callback is a value of a type `C`; an operation that invokes callbacks
-- returns them, in the order of their invocation, beside the new state and its own result.
pub mod Promise
pub mod Finality
pub mod Callbacks
pub mod Graph
mod Tests
use libprocess.Common.{Bool, true, false, not, ◌&&◌, ◌||◌, List, [], ◌∷◌, ◌++◌, if◌then◌else◌}

pub data State : Type 0 where
  pending ready failed discarded : State

-- `Result<T>`: none, a value, or the message of an error.
pub data Outcome (T E : Type 0) : Type 0 where
  nothing : Outcome T E
  value : T → Outcome T E
  error : E → Outcome T E

pub record Data (T E C : Type 0) : Type 0 where
  pub state : State
  pub discard_flag : Bool
  pub associated : Bool
  pub abandoned : Bool
  pub result : Outcome T E
  pub on_abandoned : List C
  pub on_discard : List C
  pub on_ready : List C
  pub on_failed : List C
  pub on_discarded : List C
  pub on_any : List C

abbrev pub is_pending : State → Bool
is_pending State.pending = true
is_pending _ = false

abbrev pub is_ready : State → Bool
is_ready State.ready = true
is_ready _ = false

abbrev pub is_failed : State → Bool
is_failed State.failed = true
is_failed _ = false

abbrev pub is_discarded : State → Bool
is_discarded State.discarded = true
is_discarded _ = false

-- What an operation gives: the new state, its result, and the callbacks that it invokes.
pub record Effect (T E C : Type 0) : Type 0 where
  pub after : Data T E C
  pub result : Bool
  pub calls : List C

module _ {T E C : Type 0} where
  -- `Data::Data()`
  unfoldable pub fresh : Data T E C
  fresh = record {
    state = State.pending;
    discard_flag = false;
    associated = false;
    abandoned = false;
    result = nothing;
    on_abandoned = [];
    on_discard = [];
    on_ready = [];
    on_failed = [];
    on_discarded = [];
    on_any = [];
  }

  unfoldable pub clear_all_callbacks : Data T E C → Data T E C
  clear_all_callbacks d = record d {
    on_abandoned = [];
    on_any = [];
    on_discard = [];
    on_discarded = [];
    on_failed = [];
    on_ready = [];
  }

  abbrev pub unchanged : Data T E C → Effect T E C
  unchanged d = record { after = d; result = false; calls = [] }

  -- `Future<T>::_set`
  unfoldable pub set : T → Data T E C → Effect T E C
  unfolding clear_all_callbacks
  set t d =
      if is_pending d.state
      then record {
        after = clear_all_callbacks (record d { result = value t; state = State.ready });
        result = true;
        calls = d.on_ready ++ d.on_any;
      }
      else unchanged d

  -- `Future<T>::fail`
  unfoldable pub fail : E → Data T E C → Effect T E C
  unfolding clear_all_callbacks
  fail message d =
      if is_pending d.state
      then record {
        after = clear_all_callbacks (record d { result = error message; state = State.failed });
        result = true;
        calls = d.on_failed ++ d.on_any;
      }
      else unchanged d

  -- The static `Promise<T>::discard(Future<T>)`, which completes the future.
  unfoldable pub complete_discarded : Data T E C → Effect T E C
  unfolding clear_all_callbacks
  complete_discarded d =
      if is_pending d.state
      then record {
        after = clear_all_callbacks (record d { state = State.discarded });
        result = true;
        calls = d.on_discarded ++ d.on_any;
      }
      else unchanged d

  -- `Future<T>::discard`, the request of a consumer.
  unfoldable pub discard : Data T E C → Effect T E C
  discard d =
      if not d.discard_flag && is_pending d.state
      then record {
        after = record d { discard_flag = true; on_discard = [] };
        result = true;
        calls = d.on_discard;
      }
      else unchanged d

  -- `Future<T>::abandon`
  unfoldable pub abandon : Bool → Data T E C → Effect T E C
  abandon propagating d =
      if not d.abandoned && is_pending d.state && (not d.associated || propagating)
      then record {
        after = record d { abandoned = true; on_abandoned = [] };
        result = true;
        calls = d.on_abandoned;
      }
      else unchanged d

  -- `onAbandoned`, `onDiscard`, `onReady`, `onFailed`, `onDiscarded` and `onAny`: a callback runs
  -- at once, waits for its event, or is dropped because the event can no longer happen.
  unfoldable pub add_on_abandoned : C → Data T E C → Effect T E C
  add_on_abandoned c d =
      if d.abandoned
      then record { after = d; result = true; calls = c ∷ [] }
      else if is_pending d.state
      then unchanged (record d { on_abandoned = d.on_abandoned ++ c ∷ [] })
      else unchanged d

  unfoldable pub add_on_discard : C → Data T E C → Effect T E C
  add_on_discard c d =
      if d.discard_flag
      then record { after = d; result = true; calls = c ∷ [] }
      else if is_pending d.state
      then unchanged (record d { on_discard = d.on_discard ++ c ∷ [] })
      else unchanged d

  unfoldable pub add_on_ready : C → Data T E C → Effect T E C
  add_on_ready c d =
      if is_ready d.state
      then record { after = d; result = true; calls = c ∷ [] }
      else if is_pending d.state
      then unchanged (record d { on_ready = d.on_ready ++ c ∷ [] })
      else unchanged d

  unfoldable pub add_on_failed : C → Data T E C → Effect T E C
  add_on_failed c d =
      if is_failed d.state
      then record { after = d; result = true; calls = c ∷ [] }
      else if is_pending d.state
      then unchanged (record d { on_failed = d.on_failed ++ c ∷ [] })
      else unchanged d

  unfoldable pub add_on_discarded : C → Data T E C → Effect T E C
  add_on_discarded c d =
      if is_discarded d.state
      then record { after = d; result = true; calls = c ∷ [] }
      else if is_pending d.state
      then unchanged (record d { on_discarded = d.on_discarded ++ c ∷ [] })
      else unchanged d

  unfoldable pub add_on_any : C → Data T E C → Effect T E C
  add_on_any c d =
      if is_pending d.state
      then unchanged (record d { on_any = d.on_any ++ c ∷ [] })
      else record { after = d; result = true; calls = c ∷ [] }
