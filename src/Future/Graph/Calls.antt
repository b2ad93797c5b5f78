-- ===== src/Future/Graph/Calls.antt =====
-- include/process/future.hpp: which callbacks an operation invokes and which it leaves waiting.
use libprocess.Common.{
  ◌≡◌, Bool, true, false, not, ◌&&◌, [], ◌∷◌, ◌++◌, if◌then◌else◌, if_cases, All-append,
}
use libprocess.Future.{
  Data, Effect, is_pending, is_ready, is_failed, is_discarded, add_on_ready, add_on_any,
  add_on_failed, add_on_discarded, add_on_discard, add_on_abandoned, unchanged,
}
use libprocess.Future.Promise.{Op, apply}
use libprocess.Future.Graph.Waiting.{
  Waiting, Registers, Kept, unchanged-Kept, same_lists, set-Kept, fail-Kept, discarded-Kept,
  discard-Kept, abandon-Kept, When, Fired, ready_of, failed_of, discarded_of,
}

module _ {T E C : Type 0} (P : When → C → Type 0) where
  -- A registration runs the callback, keeps it waiting or drops it.
  registered-Kept :
      (e : When) (c : C) (d d' : Data T E C) (now waits : Bool)
      → Waiting P d
      → Waiting P d'
      → P e c
      → (now ≡ true → Fired e d.state)
      → Kept P (
          if now
          then record { after = d; result = true; calls = c ∷ [] }
          else if waits
          then unchanged d'
          else unchanged d)
  registered-Kept e c d d' now waits w w' p f =
      if_cases (Kept P) now (λ n. record { waiting = w; called = ((e, p, f n), tt) })
        (λ _. if_cases (Kept P) waits (λ _. unchanged-Kept P d' w') (λ _. unchanged-Kept P d w))

  added_on_abandoned-Kept :
      (c : C) (d : Data T E C) → Waiting P d → P When.abandoned c → Kept P (add_on_abandoned c d)
  unfolding add_on_abandoned
  added_on_abandoned-Kept c d w p =
      registered-Kept When.abandoned c d _ d.abandoned (is_pending d.state) w
        (record {
          of_abandoned = All-append _ d.on_abandoned (c ∷ []) w.of_abandoned (p, tt);
          of_discard = w.of_discard;
          of_ready = w.of_ready;
          of_failed = w.of_failed;
          of_discarded = w.of_discarded;
          of_any = w.of_any;
        })
        p (λ _. tt)

  added_on_discard-Kept :
      (c : C) (d : Data T E C)
      → Waiting P d
      → P When.discard_requested c
      → Kept P (add_on_discard c d)
  unfolding add_on_discard
  added_on_discard-Kept c d w p =
      registered-Kept When.discard_requested c d _ d.discard_flag (is_pending d.state) w
        (record {
          of_abandoned = w.of_abandoned;
          of_discard = All-append _ d.on_discard (c ∷ []) w.of_discard (p, tt);
          of_ready = w.of_ready;
          of_failed = w.of_failed;
          of_discarded = w.of_discarded;
          of_any = w.of_any;
        })
        p (λ _. tt)

  added_on_ready-Kept :
      (c : C) (d : Data T E C) → Waiting P d → P When.ready c → Kept P (add_on_ready c d)
  unfolding add_on_ready
  added_on_ready-Kept c d w p =
      registered-Kept When.ready c d _ (is_ready d.state) (is_pending d.state) w
        (record {
          of_abandoned = w.of_abandoned;
          of_discard = w.of_discard;
          of_ready = All-append _ d.on_ready (c ∷ []) w.of_ready (p, tt);
          of_failed = w.of_failed;
          of_discarded = w.of_discarded;
          of_any = w.of_any;
        })
        p (λ e. ready_of d.state e)

  added_on_failed-Kept :
      (c : C) (d : Data T E C) → Waiting P d → P When.failed c → Kept P (add_on_failed c d)
  unfolding add_on_failed
  added_on_failed-Kept c d w p =
      registered-Kept When.failed c d _ (is_failed d.state) (is_pending d.state) w
        (record {
          of_abandoned = w.of_abandoned;
          of_discard = w.of_discard;
          of_ready = w.of_ready;
          of_failed = All-append _ d.on_failed (c ∷ []) w.of_failed (p, tt);
          of_discarded = w.of_discarded;
          of_any = w.of_any;
        })
        p (λ e. failed_of d.state e)

  added_on_discarded-Kept :
      (c : C) (d : Data T E C) → Waiting P d → P When.discarded c → Kept P (add_on_discarded c d)
  unfolding add_on_discarded
  added_on_discarded-Kept c d w p =
      registered-Kept When.discarded c d _ (is_discarded d.state) (is_pending d.state) w
        (record {
          of_abandoned = w.of_abandoned;
          of_discard = w.of_discard;
          of_ready = w.of_ready;
          of_failed = w.of_failed;
          of_discarded = All-append _ d.on_discarded (c ∷ []) w.of_discarded (p, tt);
          of_any = w.of_any;
        })
        p (λ e. discarded_of d.state e)

  added_on_any-Kept :
      (c : C) (d : Data T E C) → Waiting P d → P When.any c → Kept P (add_on_any c d)
  unfolding add_on_any
  added_on_any-Kept c d w p =
      if_cases (Kept P) (is_pending d.state)
        (λ _.
          unchanged-Kept P (record d { on_any = d.on_any ++ c ∷ [] })
            (record {
              of_abandoned = w.of_abandoned;
              of_discard = w.of_discard;
              of_ready = w.of_ready;
              of_failed = w.of_failed;
              of_discarded = w.of_discarded;
              of_any = All-append _ d.on_any (c ∷ []) w.of_any (p, tt);
            }))
        (λ _. record { waiting = w; called = ((When.any, p, tt), tt) })

  guarded : (b : Bool) (r r' : Effect T E C) → Kept P r → Kept P r' → Kept P (if b then r else r')
  guarded b r r' k k' = if_cases (Kept P) b (λ _. k) (λ _. k')

  -- An operation invokes only callbacks whose event has happened, and leaves the others waiting.
  pub apply-Kept :
      (o : Op T E C) (d : Data T E C) → Waiting P d → Registers P o → Kept P (apply o d)
  unfolding apply
  apply-Kept (Op.set_value t) d w h = set-Kept P t d w
  apply-Kept (Op.promise_value read t) d w h =
      guarded (not read) _ _ (set-Kept P t d w) (unchanged-Kept P d w)
  apply-Kept (Op.fail_with e) d w h = fail-Kept P e d w
  apply-Kept (Op.promise_error read e) d w h =
      guarded (not read) _ _ (fail-Kept P e d w) (unchanged-Kept P d w)
  apply-Kept Op.finish_discarded d w h = discarded-Kept P d w
  apply-Kept (Op.promise_discarded read) d w h =
      guarded (not read) _ _ (discarded-Kept P d w) (unchanged-Kept P d w)
  apply-Kept Op.request_discard d w h = discard-Kept P d w
  apply-Kept Op.associate d w h =
      guarded (is_pending d.state && not d.associated) _ _
        (record { waiting = same_lists P d d.discard_flag true w; called = tt })
        (unchanged-Kept P d w)
  apply-Kept Op.forget_discard d w h =
      unchanged-Kept P (record d { discard_flag = false }) (same_lists P d false d.associated w)
  apply-Kept (Op.abandon_future b) d w h = abandon-Kept P b d w
  apply-Kept (Op.when_abandoned c) d w h = added_on_abandoned-Kept c d w h
  apply-Kept (Op.when_discard c) d w h = added_on_discard-Kept c d w h
  apply-Kept (Op.when_ready c) d w h = added_on_ready-Kept c d w h
  apply-Kept (Op.when_failed c) d w h = added_on_failed-Kept c d w h
  apply-Kept (Op.when_discarded c) d w h = added_on_discarded-Kept c d w h
  apply-Kept (Op.when_any c) d w h = added_on_any-Kept c d w h
