-- ===== src/Future/Graph/Waiting.antt =====
-- include/process/future.hpp: which callbacks an operation that completes, discards or abandons a
-- future invokes, and which it leaves waiting.
use libprocess.Common.{
  ◌≡◌, refl, Bool, true, not, ◌&&◌, ◌||◌, List, [], ◌∷◌, ◌++◌, arith, if_cases, All, All-append,
}
use libprocess.Future.{
  value, error, clear_all_callbacks, State, Data, Effect, is_pending, is_ready, is_failed,
  is_discarded, set, fail, complete_discarded, discard, abandon, unchanged,
}
use libprocess.Future.Promise.{Op}

-- The lists of callbacks.
pub data When : Type 0 where
  abandoned discard_requested ready failed discarded any : When

-- What is known of the state when a callback of a list is invoked.
abbrev pub Fired : When → State → Type 0
Fired When.ready s = s ≡ State.ready
Fired When.failed s = s ≡ State.failed
Fired When.discarded s = s ≡ State.discarded
Fired _ s = Unit {0}

pub All-imp {ℓ κ λ'} :
    {A : Type λ'} {P : A → Type ℓ} {Q : A → Type κ} (f : (x : A) → P x → Q x) (xs : List A)
    → All P xs
    → All Q xs
All-imp f [] h = tt
All-imp f (x ∷ xs) h = (f x h.0, All-imp f xs h.1)

pub ready_of : (s : State) → is_ready s ≡ true → s ≡ State.ready
ready_of s h = ground arith

pub failed_of : (s : State) → is_failed s ≡ true → s ≡ State.failed
failed_of s h = ground arith

pub discarded_of : (s : State) → is_discarded s ≡ true → s ≡ State.discarded
discarded_of s h = ground arith

module _ {C : Type 0} (P : When → C → Type 0) where
  abbrev pub Called : State → C → Type 0
  Called s c = (e : When) × P e c × Fired e s

  pub as-Called :
      (s : State) (e : When) → Fired e s → (cs : List C) → All (P e) cs → All (Called s) cs
  as-Called s e f cs h = All-imp (λ c p. (e, p, f)) cs h

  pub both-Called :
      (s : State) (e e' : When)
      → Fired e s
      → Fired e' s
      → (cs cs' : List C) → All (P e) cs
      → All (P e') cs'
      → All (Called s) (cs ++ cs')
  both-Called s e e' f f' cs cs' h h' =
      All-append (Called s) cs cs' (as-Called s e f cs h) (as-Called s e' f' cs' h')

module _ {T E C : Type 0} (P : When → C → Type 0) where
  -- Every waiting callback of a future has the property for the list that it is in.
  pub record Waiting (d : Data T E C) : Type 0 where
    pub of_abandoned : All (P When.abandoned) d.on_abandoned
    pub of_discard : All (P When.discard_requested) d.on_discard
    pub of_ready : All (P When.ready) d.on_ready
    pub of_failed : All (P When.failed) d.on_failed
    pub of_discarded : All (P When.discarded) d.on_discarded
    pub of_any : All (P When.any) d.on_any

  abbrev pub Registers : Op T E C → Type 0
  Registers (Op.when_abandoned c) = P When.abandoned c
  Registers (Op.when_discard c) = P When.discard_requested c
  Registers (Op.when_ready c) = P When.ready c
  Registers (Op.when_failed c) = P When.failed c
  Registers (Op.when_discarded c) = P When.discarded c
  Registers (Op.when_any c) = P When.any c
  Registers _ = Unit

  pub record Kept (r : Effect T E C) : Type 0 where
    pub waiting : Waiting r.after
    pub called : All (Called P r.after.state) r.calls

  pub unchanged-Kept : (d : Data T E C) → Waiting d → Kept (unchanged d)
  unchanged-Kept d w = record { waiting = w; called = tt }

  pub cleared : (d : Data T E C) → Waiting (clear_all_callbacks d)
  unfolding clear_all_callbacks
  cleared d = record {
    of_abandoned = tt;
    of_discard = tt;
    of_ready = tt;
    of_failed = tt;
    of_discarded = tt;
    of_any = tt;
  }

  pub same_lists :
      (d : Data T E C) (s a : Bool)
      → Waiting d
      → Waiting (record d { discard_flag = s; associated = a })
  same_lists d s a w = record {
    of_abandoned = w.of_abandoned;
    of_discard = w.of_discard;
    of_ready = w.of_ready;
    of_failed = w.of_failed;
    of_discarded = w.of_discarded;
    of_any = w.of_any;
  }

  pub set-Kept : (t : T) (d : Data T E C) → Waiting d → Kept (set t d)
  unfolding set
  set-Kept t d w =
      if_cases Kept (is_pending d.state)
        (λ _. record {
          waiting = cleared (record d { result = value t; state = State.ready });
          called =
              both-Called P State.ready When.ready When.any refl tt d.on_ready d.on_any w.of_ready
                w.of_any;
        })
        (λ _. unchanged-Kept d w)

  pub fail-Kept : (e : E) (d : Data T E C) → Waiting d → Kept (fail e d)
  unfolding fail
  fail-Kept e d w =
      if_cases Kept (is_pending d.state)
        (λ _. record {
          waiting = cleared (record d { result = error e; state = State.failed });
          called =
              both-Called P State.failed When.failed When.any refl tt d.on_failed d.on_any
                w.of_failed w.of_any;
        })
        (λ _. unchanged-Kept d w)

  pub discarded-Kept : (d : Data T E C) → Waiting d → Kept (complete_discarded d)
  unfolding complete_discarded
  discarded-Kept d w =
      if_cases Kept (is_pending d.state)
        (λ _. record {
          waiting = cleared (record d { state = State.discarded });
          called =
              both-Called P State.discarded When.discarded When.any refl tt d.on_discarded d.on_any
                w.of_discarded w.of_any;
        })
        (λ _. unchanged-Kept d w)

  pub discard-Kept : (d : Data T E C) → Waiting d → Kept (discard d)
  unfolding discard
  discard-Kept d w =
      if_cases Kept (not d.discard_flag && is_pending d.state)
        (λ _. record {
          waiting = record {
            of_abandoned = w.of_abandoned;
            of_discard = tt;
            of_ready = w.of_ready;
            of_failed = w.of_failed;
            of_discarded = w.of_discarded;
            of_any = w.of_any;
          };
          called = as-Called P d.state When.discard_requested tt d.on_discard w.of_discard;
        })
        (λ _. unchanged-Kept d w)

  pub abandon-Kept : (b : Bool) (d : Data T E C) → Waiting d → Kept (abandon b d)
  unfolding abandon
  abandon-Kept b d w =
      if_cases Kept (not d.abandoned && is_pending d.state && (not d.associated || b))
        (λ _. record {
          waiting = record {
            of_abandoned = tt;
            of_discard = w.of_discard;
            of_ready = w.of_ready;
            of_failed = w.of_failed;
            of_discarded = w.of_discarded;
            of_any = w.of_any;
          };
          called = as-Called P d.state When.abandoned tt d.on_abandoned w.of_abandoned;
        })
        (λ _. unchanged-Kept d w)
