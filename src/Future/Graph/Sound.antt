-- ===== src/Future/Graph/Sound.antt =====
-- include/process/future.hpp: what every operation keeps in a set of associated futures: which
-- callbacks wait where, and that an associated future shows what its source does.
use libprocess.Common.{ℕ, ◌≡◌, ◌≢◌, true, List, [], ◌∷◌, map, arith, if_cases, ◌==◌, ==_iff, All}
use libprocess.Future.{State, Outcome, Data, nothing, value, error}
use libprocess.Future.Promise.{Op, apply}
use libprocess.Future.Finality.{IsWellFormed, apply-IsWellFormed, apply_final}
use libprocess.Future.Graph.{
  Callback, user, set_into, fail_into, discard_into, abandon_into, request_discard_of, Task, call,
  operate, update, perform, IsUser, IsPublic, IsCurrent,
}
use libprocess.Future.Graph.Waiting.{When, Fired, Called, Waiting, Registers, All-imp}
use libprocess.Future.Graph.Calls.{apply-Kept}

pub All-map {ℓ κ μ} :
    {A : Type ℓ} {B : Type κ} (P : B → Type μ) (f : A → B) (xs : List A)
    → All (λ x. P (f x)) xs
    → All P (map f xs)
All-map P f [] h = tt
All-map P f (x ∷ xs) h = (h.0, All-map P f xs h.1)

module _ {T E : Type 0} where
  -- The operation completes a future as one in the given state, with the given result.
  abbrev pub CompletesAs : State → Outcome T E → Op T E Callback → Type 0
  CompletesAs s r (Op.set_value t) = (s ≡ State.ready) × (r ≡ value t)
  CompletesAs s r (Op.fail_with e) = (s ≡ State.failed) × (r ≡ error e)
  CompletesAs s r Op.finish_discarded = (s ≡ State.discarded) × (r ≡ nothing)
  CompletesAs s r _ = Unit

  -- What an associated future shows of its source.
  abbrev pub Shows : State → Outcome T E → Data T E Callback → Type 0
  Shows s r d = d.associated ≡ true → d.state ≢ State.pending → (d.state ≡ s) × (d.result ≡ r)

  apply-Shows :
      (s : State) (r : Outcome T E) (o : Op T E Callback) (d : Data T E Callback)
      → IsWellFormed d
      → Shows s r d
      → CompletesAs s r o
      → IsCurrent o d
      → Shows s r (apply o d).after
  unfolding apply
  apply-Shows s r (Op.set_value t) d w h c k = ground arith
  apply-Shows s r (Op.promise_value read t) d w h c k = ground arith
  apply-Shows s r (Op.fail_with e) d w h c k = ground arith
  apply-Shows s r Op.finish_discarded d w h c k = let a = w.agrees in ground arith
  apply-Shows s r _ d w h c k = ground arith

  pub record Grows (d d' : Data T E Callback) : Type 0 where
    pub same_state : d.state ≢ State.pending → d'.state ≡ d.state
    pub same_result : d.state ≢ State.pending → d'.result ≡ d.result

  pub apply-Grows : (o : Op T E Callback) (d : Data T E Callback) → Grows d (apply o d).after
  apply-Grows o d = record {
    same_state = λ h. (apply_final o d h).0;
    same_result = λ h. (apply_final o d h).1;
  }

  pub Fired-Grows :
      (e : When) (d d' : Data T E Callback) → Grows d d' → Fired e d.state → Fired e d'.state
  Fired-Grows When.ready d d' g f = ground (arith, g.same_state)
  Fired-Grows When.failed d d' g f = ground (arith, g.same_state)
  Fired-Grows When.discarded d d' g f = ground (arith, g.same_state)
  Fired-Grows When.abandoned d d' g f = tt
  Fired-Grows When.discard_requested d d' g f = tt
  Fired-Grows When.any d d' g f = tt

  pub update_cases :
      (P : ℕ → Data T E Callback → Type 0) (fs : ℕ → Data T E Callback) (f : ℕ)
      (d : Data T E Callback) (g : ℕ)
      → P f d
      → P g (fs g)
      → P g (update fs f d g)
  update_cases P fs f d g p q =
      if_cases (P g) (f == g) (λ e. coe 0 1 (i. P ((==_iff f g).0 e i) d) p) (λ _. q)

  update_same : (fs : ℕ → Data T E Callback) (f : ℕ) (d : Data T E Callback) → update fs f d f ≡ d
  update_same fs f d = ground arith

-- The callbacks that `Promise<T>::associate` leaves with a future, and no others.
abbrev pub Allowed : (ℕ → ℕ) → ℕ → When → Callback → Type 0
Allowed source h e (set_into f) = (e ≡ When.ready) × (source f ≡ h)
Allowed source h e (fail_into f) = (e ≡ When.failed) × (source f ≡ h)
Allowed source h e (discard_into f) = (e ≡ When.discarded) × (source f ≡ h)
Allowed source h e _ = Unit

pub user_allowed :
    (source : ℕ → ℕ) (h : ℕ) (e : When) (c : Callback) → IsUser c → Allowed source h e c
user_allowed source h e (user n) u = tt
user_allowed source h e (set_into f) u = elim u [ ]
user_allowed source h e (fail_into f) u = elim u [ ]
user_allowed source h e (discard_into f) u = elim u [ ]
user_allowed source h e (abandon_into f) u = elim u [ ]
user_allowed source h e (request_discard_of f) u = elim u [ ]

module _ {T E : Type 0} (source : ℕ → ℕ) where
  abbrev pub TaskAllowed : (ℕ → Data T E Callback) → Task T E → Type 0
  TaskAllowed fs (call c h) = Called (Allowed source h) (fs h).state c
  TaskAllowed fs (operate o f) =
      Registers (Allowed source f) o
      × ((s : State) (r : Outcome T E) → CompletesAs s r o)
      × ((d : Data T E Callback) → IsCurrent o d)

  pub record Sound (fs : ℕ → Data T E Callback) : Type 0 where
    pub waiting : (h : ℕ) → Waiting (Allowed source h) (fs h)
    pub formed : (h : ℕ) → IsWellFormed (fs h)
    pub shown : (f : ℕ) → Shows (fs (source f)).state (fs (source f)).result (fs f)

  pub Task-Grows :
      (fs fs' : ℕ → Data T E Callback)
      → ((h : ℕ) → Grows (fs h) (fs' h))
      → (t : Task T E) → TaskAllowed fs t
      → TaskAllowed fs' t
  Task-Grows fs fs' g (call c h) (e, p, f) = (e, p, Fired-Grows e (fs h) (fs' h) (g h) f)
  Task-Grows fs fs' g (operate o f) p = p

  update_shown :
      (fs : ℕ → Data T E Callback) (o : Op T E Callback) (f : ℕ)
      → Sound fs
      → CompletesAs (fs (source f)).state (fs (source f)).result o
      → IsCurrent o (fs f)
      → (g : ℕ)
      → Shows
          (update fs f (apply o (fs f)).after (source g)).state
          (update fs f (apply o (fs f)).after (source g)).result
          (update fs f (apply o (fs f)).after g)
  update_shown fs o f s c k g a n =
      let own =
        apply-Shows (fs (source f)).state (fs (source f)).result o (fs f) (s.formed f) (s.shown f) c
          k in
      let other = s.shown g in
      let grows = apply-Grows o (fs f) in
      let same = grows.same_state in
      let same_r = grows.same_result in
      let eq1 = ==_iff f g in let eq2 = ==_iff f (source g) in ground arith

  pub perform-Sound :
      (fs : ℕ → Data T E Callback) (o : Op T E Callback) (f : ℕ)
      → Sound fs
      → Registers (Allowed source f) o
      → CompletesAs (fs (source f)).state (fs (source f)).result o
      → IsCurrent o (fs f)
      → Sound (perform o f fs).0 × All (TaskAllowed (perform o f fs).0) (perform o f fs).1
  perform-Sound fs o f s r c now =
      let k = apply-Kept (Allowed source f) o (fs f) (s.waiting f) r in
      let d : Data T E Callback = (apply o (fs f)).after in
      (
        record {
          waiting = λ h.
              update_cases (λ g x. Waiting (Allowed source g) x) fs f d h k.waiting (s.waiting h);
          formed = λ h.
              update_cases (λ g x. IsWellFormed x) fs f d h
                (apply-IsWellFormed o (fs f) (s.formed f)) (s.formed h);
          shown = update_shown fs o f s c now;
        },
        All-map _ (λ c'. call c' f) (apply o (fs f)).calls
            (All-imp
              (λ x h. coe 1 0 (i. Called (Allowed source f) (update_same fs f d i).state x) h) _
              k.called),
      )

  pub public_allowed :
      (fs : ℕ → Data T E Callback) (o : Op T E Callback) (f : ℕ)
      → IsPublic o
      → Registers (Allowed source f) o × ((s : State) (r : Outcome T E) → CompletesAs s r o)
  public_allowed fs (Op.set_value t) f p = elim p [ ]
  public_allowed fs (Op.fail_with e) f p = elim p [ ]
  public_allowed fs Op.finish_discarded f p = elim p [ ]
  public_allowed fs Op.associate f p = elim p [ ]
  public_allowed fs (Op.promise_value read t) f p = (tt, λ _ _. tt)
  public_allowed fs (Op.promise_error read e) f p = (tt, λ _ _. tt)
  public_allowed fs (Op.promise_discarded read) f p = (tt, λ _ _. tt)
  public_allowed fs Op.request_discard f p = (tt, λ _ _. tt)
  public_allowed fs Op.forget_discard f p = (tt, λ _ _. tt)
  public_allowed fs (Op.abandon_future b) f p = (tt, λ _ _. tt)
  public_allowed fs (Op.when_abandoned c) f p =
      (user_allowed source f When.abandoned c p, λ _ _. tt)
  public_allowed fs (Op.when_discard c) f p =
      (user_allowed source f When.discard_requested c p, λ _ _. tt)
  public_allowed fs (Op.when_ready c) f p = (user_allowed source f When.ready c p, λ _ _. tt)
  public_allowed fs (Op.when_failed c) f p = (user_allowed source f When.failed c p, λ _ _. tt)
  public_allowed fs (Op.when_discarded c) f p =
      (user_allowed source f When.discarded c p, λ _ _. tt)
  public_allowed fs (Op.when_any c) f p = (user_allowed source f When.any c p, λ _ _. tt)

  pub discarded_empty :
      (fs : ℕ → Data T E Callback) (h : ℕ)
      → Sound fs
      → (fs h).state ≡ State.discarded
      → (fs h).result ≡ nothing
  discarded_empty fs h s e = let a = (s.formed h).agrees in ground arith
