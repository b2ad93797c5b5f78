-- ===== src/Future/Finality.antt =====
-- include/process/future.hpp: what every operation keeps of a future's shared state, and that a
-- future completes once and for good.
use libprocess.Common.{
  ℕ, ◌+◌, ◌≡◌, refl, sym, ◌∙◌, ◌≢◌, Bool, true, false, ◌&&◌, List, [], ◌∷◌, arith, if◌then◌else◌,
}
use libprocess.Future.{State, Outcome, nothing, value, error, Data, is_pending, fresh}
use libprocess.Future.Promise.{Op, apply, run}

-- The result that belongs to a state.
abbrev pub Agrees : {T E : Type 0} → State → Outcome T E → Type 0
Agrees {T} State.ready o = (t : T) × (o ≡ value t)
Agrees {E} State.failed o = (e : E) × (o ≡ error e)
Agrees _ o = o ≡ nothing

module _ {T E C : Type 0} where
  pub record IsWellFormed (d : Data T E C) : Type 0 where
    pub agrees : Agrees d.state d.result
    pub abandon_ran : d.abandoned ≡ true → d.on_abandoned ≡ []
    pub cleared_abandoned : d.state ≢ State.pending → d.on_abandoned ≡ []
    pub cleared_discard : d.state ≢ State.pending → d.on_discard ≡ []
    pub cleared_ready : d.state ≢ State.pending → d.on_ready ≡ []
    pub cleared_failed : d.state ≢ State.pending → d.on_failed ≡ []
    pub cleared_discarded : d.state ≢ State.pending → d.on_discarded ≡ []
    pub cleared_any : d.state ≢ State.pending → d.on_any ≡ []

  pub fresh-IsWellFormed : IsWellFormed (fresh {T = T} {E = E} {C = C})
  unfolding fresh
  fresh-IsWellFormed = ground arith

  pub apply-IsWellFormed :
      (o : Op T E C) (d : Data T E C) → IsWellFormed d → IsWellFormed (apply o d).after
  unfolding apply
  apply-IsWellFormed (Op.set_value t) d w = ground arith
  apply-IsWellFormed _ d w = ground arith

  -- No operation changes the state or the result of a future that has completed.
  pub apply_final :
      (o : Op T E C) (d : Data T E C)
      → d.state ≢ State.pending
      → ((apply o d).after.state ≡ d.state) × ((apply o d).after.result ≡ d.result)
  unfolding apply
  apply_final (Op.set_value t) d h = ground arith
  apply_final _ d h = ground arith

  -- A completed future keeps its state and its result through every history.
  pub run_final :
      (os : List (Op T E C)) (d : Data T E C)
      → d.state ≢ State.pending
      → ((run os d).state ≡ d.state) × ((run os d).result ≡ d.result)
  unfolding run
  run_final [] d h = (refl, refl)
  run_final (o ∷ os) d h =
      let s = apply_final o d h in
      let r = run_final os (apply o d).after (λ e. h (sym s.0 ∙ e)) in (r.0 ∙ s.0, r.1 ∙ s.1)

  pub run-IsWellFormed :
      (os : List (Op T E C)) (d : Data T E C) → IsWellFormed d → IsWellFormed (run os d)
  unfolding run
  run-IsWellFormed [] d w = w
  run-IsWellFormed (o ∷ os) d w = run-IsWellFormed os _ (apply-IsWellFormed o d w)

  -- The operations that complete a future and report whether they did.
  abbrev pub completes : Op T E C → Bool
  completes (Op.set_value _) = true
  completes (Op.promise_value _ _) = true
  completes (Op.fail_with _) = true
  completes (Op.promise_error _ _) = true
  completes Op.finish_discarded = true
  completes (Op.promise_discarded _) = true
  completes _ = false

  -- How many operations of a history reported that they completed the future.
  pub completions : List (Op T E C) → Data T E C → ℕ
  completions [] d = 0
  completions (o ∷ os) d =
      (if completes o && (apply o d).result then 1 else 0) + completions os (apply o d).after

  abbrev pub pending_count : Data T E C → ℕ
  pending_count d = if is_pending d.state then 1 else 0

  completion_step :
      (o : Op T E C) (d : Data T E C)
      → (if completes o && (apply o d).result then 1 else 0) + pending_count (apply o d).after
        ≡ pending_count d
  unfolding apply
  completion_step (Op.set_value t) d = ground arith
  completion_step _ d = ground arith

  -- Of all the operations of a history at most one reports that it completed the future: exactly
  -- one if the future was pending before and is not after, and none otherwise.
  pub completions_once :
      (os : List (Op T E C)) (d : Data T E C)
      → completions os d + pending_count (run os d) ≡ pending_count d
  unfolding completions run
  completions_once [] d = omega arith
  completions_once (o ∷ os) d =
      omega (arith, completion_step o d, completions_once os (apply o d).after)
