-- ===== src/Future/Callbacks.antt =====
-- include/process/future.hpp: which callbacks a history of one future invokes, and how often.
use libprocess.Common.{
  ℕ, ◌+◌, ◌≡◌, refl, sym, ap, ◌∙◌, Bool, true, false, not, ◌&&◌, ◌++◌, List, [], ◌∷◌, arith,
  if◌then◌else◌, total, total-append, inl, inr, Bool-cases,
}
use libprocess.Future.{State, Data, is_ready, is_failed, is_discarded, is_pending, fresh}
use libprocess.Future.Promise.{Op, apply, run, calls_of}
use libprocess.Future.Finality.{IsWellFormed, apply-IsWellFormed, fresh-IsWellFormed}

-- The events of completion.
pub data Event : Type 0 where
  ready failed discarded any : Event

-- Whether a completion with this state is the event.
abbrev pub fires : Event → State → Bool
fires Event.ready s = is_ready s
fires Event.failed s = is_failed s
fires Event.discarded s = is_discarded s
fires Event.any s = true

module _ {T E C : Type 0} where
  -- The callbacks that wait for an event, and those that wait for anything else.
  abbrev pub waiting : Event → Data T E C → List C
  waiting Event.ready d = d.on_ready
  waiting Event.failed d = d.on_failed
  waiting Event.discarded d = d.on_discarded
  waiting Event.any d = d.on_any

  abbrev pub registers : Event → Op T E C → List C
  registers Event.ready (Op.when_ready c) = c ∷ []
  registers Event.failed (Op.when_failed c) = c ∷ []
  registers Event.discarded (Op.when_discarded c) = c ∷ []
  registers Event.any (Op.when_any c) = c ∷ []
  registers _ _ = []

  -- Every callback that an operation registers.
  abbrev pub registers_some : Op T E C → List C
  registers_some (Op.when_abandoned c) = c ∷ []
  registers_some (Op.when_discard c) = c ∷ []
  registers_some (Op.when_ready c) = c ∷ []
  registers_some (Op.when_failed c) = c ∷ []
  registers_some (Op.when_discarded c) = c ∷ []
  registers_some (Op.when_any c) = c ∷ []
  registers_some _ = []

  abbrev pub registered : Event → List (Op T E C) → List C
  registered e [] = []
  registered e (o ∷ os) = registers e o ++ registered e os

  module _ (w : C → ℕ) where
    abbrev waiting_all : Data T E C → ℕ
    waiting_all d =
        total w d.on_abandoned
        + total w d.on_discard
        + total w d.on_ready
        + total w d.on_failed
        + total w d.on_discarded
        + total w d.on_any

    -- The weighed callbacks are registered for `e` and for nothing else.
    abbrev pub OnlyFor : Event → List (Op T E C) → Type 0
    OnlyFor e [] = Unit
    OnlyFor e (o ∷ os) = (total w (registers_some o) ≡ total w (registers e o)) × OnlyFor e os

    record Step (e : Event) (o : Op T E C) (d : Data T E C) : Type 0 where
      alone : waiting_all (apply o d).after ≡ total w (waiting e (apply o d).after)
      stays :
          is_pending d.state ≡ false
          → ((apply o d).after.state ≡ d.state) × (total w (waiting e d) ≡ 0)
      waits :
          is_pending (apply o d).after.state ≡ true
          → (total w (apply o d).calls ≡ 0)
            × (total w (waiting e (apply o d).after)
                ≡ total w (waiting e d) + total w (registers e o))
      completes :
          is_pending (apply o d).after.state ≡ false
          → total w (apply o d).calls ≡ (
              if fires e (apply o d).after.state
              then total w (waiting e d) + total w (registers e o)
              else 0)

    step :
        (e : Event) (o : Op T E C) (d : Data T E C)
        → IsWellFormed d
        → waiting_all d ≡ total w (waiting e d)
        → total w (registers_some o) ≡ total w (registers e o)
        → Step e o d
    unfolding apply
    step Event.any (Op.set_value t) d v a h = grind (arith, total-append)
    step Event.any _ d v a h = grind (arith, total-append)
    step Event.ready (Op.set_value t) d v a h = grind (arith, total-append)
    step Event.ready _ d v a h = grind (arith, total-append)
    step _ (Op.set_value t) d v a h = grind (arith, total-append)
    step _ _ d v a h = grind (arith, total-append)

    -- The total of what a history invokes for one event, from a future that is still pending and
    -- from one that has completed.
    record Ledger (e : Event) (os : List (Op T E C)) (d : Data T E C) : Type 0 where
      last : is_pending d.state ≡ false → (run os d).state ≡ d.state
      settled :
          is_pending d.state ≡ false
          → total w (calls_of os d) ≡ (if fires e d.state then total w (registered e os) else 0)
      fired :
          is_pending d.state ≡ true
          → is_pending (run os d).state ≡ false
          → total w (calls_of os d) ≡ (
              if fires e (run os d).state
              then total w (waiting e d) + total w (registered e os)
              else 0)
      unfired : is_pending (run os d).state ≡ true → total w (calls_of os d) ≡ 0

    ledger :
        (e : Event) (os : List (Op T E C)) (d : Data T E C)
        → IsWellFormed d
        → waiting_all d ≡ total w (waiting e d)
        → OnlyFor e os
        → Ledger e os d
    unfolding run calls_of
    ledger e [] d v a h = ground arith
    ledger e (o ∷ os) d v a h =
        let s = step e o d v a h.0 in
        let r = ledger e os (apply o d).after (apply-IsWellFormed o d v) s.alone h.1 in
        let c = total-append w (apply o d).calls (calls_of os (apply o d).after) in
        let g = total-append w (registers e o) (registered e os) in
        record {
          last = ground arith;
          settled = ground arith;
          fired = λ p q. elim (Bool-cases (is_pending (apply o d).after.state)) [
            | inl b ↦ elim (Bool-cases (fires e (run os (apply o d).after).state)) [
              | inl f ↦ rw f (omega (arith, s.waits b, rw f at (r.fired b q)))
              | inr f ↦ rw f (omega (arith, s.waits b, rw f at (r.fired b q)))
            ]
            | inr b ↦ rw (r.last b) (elim (Bool-cases (fires e (apply o d).after.state)) [
              | inl f ↦ rw f (omega (arith, rw f at (s.completes b), rw f at (r.settled b)))
              | inr f ↦ rw f (omega (arith, rw f at (s.completes b), rw f at (r.settled b)))
            ])
          ];
          unfired = ground arith;
        }

    -- Weigh the callbacks that a history registers for one event and for nothing else. Once the
    -- future has completed, those callbacks have run exactly as often as they were registered if
    -- the completion is that event, and never if it is not; while it is pending none has run.
    pub callbacks_exactly_once :
        (e : Event) (os : List (Op T E C))
        → OnlyFor e os
        → total w (calls_of os fresh) ≡ (
            if not (is_pending (run os fresh).state) && fires e (run os fresh).state
            then total w (registered e os)
            else 0)
    unfolding fresh
    callbacks_exactly_once e os h = elim (Bool-cases (is_pending (run os fresh).state)) [
      | inl b ↦ rw b ((l.unfired b))
      | inr b ↦ rw b (l.fired refl b ∙ ap (λ n. if f then n else 0) none_waiting)
    ]
      where
        z : total w (waiting e (fresh {T = T} {E = E} {C = C})) ≡ 0
        z = ground arith

        none_waiting :
            total w (waiting e (fresh {T = T} {E = E} {C = C})) + total w (registered e os)
            ≡ total w (registered e os)
        none_waiting = omega (arith, z)

        l : Ledger e os fresh
        l = ledger e os fresh fresh-IsWellFormed (sym z) h

        f : Bool
        f = fires e (run os fresh).state
