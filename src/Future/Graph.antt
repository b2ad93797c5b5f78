-- ===== src/Future/Graph.antt =====
-- include/process/future.hpp: futures that are associated with each other. The futures are numbered,
-- a callback is a user's or one that `Promise<T>::associate` installs, and what a thread has still to
-- run is a pending task. Any pending task may run next, so every interleaving of threads is a
-- sequence of steps. A future that is referred to weakly is taken to exist still.
pub mod Waiting
pub mod Calls
pub mod Sound
pub mod Mirror
mod Tests
use libprocess.Common.{
  ℕ, ◌≡◌, Option, none, some, Bool, true, false, not, ◌&&◌, List, [], ◌∷◌, ◌++◌, map, if◌then◌else◌,
  ◌==◌,
}
use libprocess.Future.{Outcome, Data, Effect, is_pending, nothing, value, error, fresh}
use libprocess.Future.Promise.{Op, apply}

pub data Callback : Type 0 where
  user : ℕ → Callback
  set_into fail_into discard_into abandon_into request_discard_of : ℕ → Callback

-- A callback to invoke for the future that it waited on, or an operation on a future.
pub data Task (T E : Type 0) : Type 0 where
  call : Callback → ℕ → Task T E
  operate : Op T E Callback → ℕ → Task T E

pub record System (T E : Type 0) : Type 0 where
  pub futures : ℕ → Data T E Callback
  pub pending : List (Task T E)

module _ {T E : Type 0} where
  abbrev pub update : (ℕ → Data T E Callback) → ℕ → Data T E Callback → ℕ → Data T E Callback
  update fs f d g = if f == g then d else fs g

  -- One operation on the future `f`; the callbacks that it invokes become tasks.
  abbrev pub perform :
      Op T E Callback → ℕ → (ℕ → Data T E Callback) → (ℕ → Data T E Callback) × List (Task T E)
  perform o f fs = (update fs f (apply o (fs f)).after, map (λ c. call c f) (apply o (fs f)).calls)

  -- The operation that a callback is, for the result of the future that it waited on.
  unfoldable pub operation_of : Callback → Outcome T E → Option (Op T E Callback × ℕ)
  operation_of (user n) r = none
  operation_of (set_into f) (value t) = some (Op.set_value t, f)
  operation_of (set_into f) _ = none
  operation_of (fail_into f) (error e) = some (Op.fail_with e, f)
  operation_of (fail_into f) _ = none
  operation_of (discard_into f) r = some (Op.finish_discarded, f)
  operation_of (abandon_into f) r = some (Op.abandon_future true, f)
  operation_of (request_discard_of f) r = some (Op.request_discard, f)

  abbrev pub perform_some :
      Option (Op T E Callback × ℕ)
      → (ℕ → Data T E Callback)
      → (ℕ → Data T E Callback) × List (Task T E)
  perform_some none fs = (fs, [])
  perform_some (some (o, f)) fs = perform o f fs

  abbrev pub run_task :
      Task T E → (ℕ → Data T E Callback) → (ℕ → Data T E Callback) × List (Task T E)
  run_task (call c g) fs = perform_some (operation_of c (fs g).result) fs
  run_task (operate o f) fs = perform o f fs

  -- The registrations of `Promise<T>::associate`, made one by one after the promise is marked.
  unfoldable pub registrations : ℕ → ℕ → List (Task T E)
  registrations f g =
      operate (Op.when_discard (request_discard_of g)) f
      ∷ operate (Op.when_ready (set_into f)) g
      ∷ operate (Op.when_failed (fail_into f)) g
      ∷ operate (Op.when_discarded (discard_into f)) g
      ∷ operate (Op.when_abandoned (abandon_into f)) g
      ∷ []

  -- `Promise<T>::associate` of the promise of `f` with the future `g`.
  unfoldable pub associate : ℕ → ℕ → System T E → System T E
  associate f g s = record {
    futures = update s.futures f (apply Op.associate (s.futures f)).after;
    pending =
        s.pending ++ (if (apply Op.associate (s.futures f)).result then registrations f g else []);
  }

abbrev pub IsUser : Callback → Type 0
IsUser (user n) = Unit {0}
IsUser _ = ⊥

-- The operations that a program can call: those of the promise, and those that the public part of
-- a future has. Callbacks that it installs are its own.
abbrev pub IsPublic : {T E : Type 0} → Op T E Callback → Type 0
IsPublic (Op.set_value t) = ⊥
IsPublic (Op.fail_with e) = ⊥
IsPublic Op.finish_discarded = ⊥
IsPublic Op.associate = ⊥
IsPublic (Op.abandon_future propagating) = propagating ≡ false
IsPublic (Op.when_abandoned c) = IsUser c
IsPublic (Op.when_discard c) = IsUser c
IsPublic (Op.when_ready c) = IsUser c
IsPublic (Op.when_failed c) = IsUser c
IsPublic (Op.when_discarded c) = IsUser c
IsPublic (Op.when_any c) = IsUser c
IsPublic _ = Unit {0}

-- A call on a promise goes by whether the promise is associated now: none takes effect in between.
abbrev pub IsCurrent : {T E : Type 0} → Op T E Callback → Data T E Callback → Type 0
IsCurrent (Op.promise_value read t) d = read ≡ d.associated
IsCurrent (Op.promise_error read e) d = read ≡ d.associated
IsCurrent (Op.promise_discarded read) d = read ≡ d.associated
IsCurrent _ d = Unit {0}

-- One step of some thread. `source` says with which future a promise's future is associated, in the
-- one call of `associate` that takes effect.
module _ {T E : Type 0} (source : ℕ → ℕ) where
  pub data Step (s : System T E) : System T E → Type 0 where
    runs :
        (left : List (Task T E)) (t : Task T E) (right : List (Task T E))
        → s.pending ≡ left ++ t ∷ right
        → Step s (record {
          futures = (run_task t s.futures).0;
          pending = (left ++ (run_task t s.futures).1) ++ right;
        })
    calls :
        (o : Op T E Callback) (f : ℕ)
        → IsPublic o
        → IsCurrent o (s.futures f)
        → Step s (record {
          futures = (perform o f s.futures).0;
          pending = s.pending ++ (perform o f s.futures).1;
        })
    associates :
        (f g : ℕ)
        → ((apply Op.associate (s.futures f)).result ≡ true → source f ≡ g)
        → Step s (associate f g s)

  -- At the start every future is new and nothing is pending.
  pub data Reach : System T E → Type 0 where
    here : Reach (record { futures = λ _. fresh; pending = [] })
    next : {s t : System T E} → Reach s → Step s t → Reach t
