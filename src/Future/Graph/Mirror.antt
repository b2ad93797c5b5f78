-- ===== src/Future/Graph/Mirror.antt =====
-- include/process/future.hpp: an associated future against the future that it is associated with.
use libprocess.Common.{
  All-before, All-after, ℕ, ◌≡◌, ◌≢◌, refl, sym, ap, ◌∙◌, true, List, [], ◌∷◌, arith, if_cases, All,
  All-append,
}
use libprocess.Future.{State, Outcome, Data, value, error, fresh}
use libprocess.Future.Promise.{Op, apply}
use libprocess.Future.Finality.{fresh-IsWellFormed}
use libprocess.Future.Graph.{
  Callback, user, set_into, fail_into, discard_into, abandon_into, request_discard_of, Task, call,
  operate, System, update, perform, operation_of, perform_some, run_task, registrations, associate,
  IsCurrent, Step, runs, calls, associates, Reach, here, next,
}
use libprocess.Future.Graph.Waiting.{When, Fired, Called, Registers, All-imp}
use libprocess.Future.Graph.Sound.{
  CompletesAs, Grows, apply-Grows, update_cases, Allowed, TaskAllowed, Sound, Task-Grows,
  perform-Sound, public_allowed, discarded_empty,
}

module _ {T E : Type 0} (source : ℕ → ℕ) where
  -- What a step gives.
  abbrev Stepped : (ℕ → Data T E Callback) → (ℕ → Data T E Callback) × List (Task T E) → Type 0
  Stepped fs r =
      Sound source r.0 × All (TaskAllowed source r.0) r.1 × ((h : ℕ) → Grows (fs h) (r.0 h))

  stay : (fs : ℕ → Data T E Callback) → Sound source fs → Stepped fs (fs, [])
  stay fs s = (s, tt, λ h. record { same_state = λ _. refl; same_result = λ _. refl })

  perform-Stepped :
      (fs : ℕ → Data T E Callback) (o : Op T E Callback) (f : ℕ)
      → Sound source fs
      → Registers (Allowed source f) o
      → CompletesAs (fs (source f)).state (fs (source f)).result o
      → IsCurrent o (fs f)
      → Stepped fs (perform o f fs)
  perform-Stepped fs o f s r c k =
      let p = perform-Sound source fs o f s r c k in
      (
        p.0,
        p.1,
        λ h.
            update_cases (λ g x. Grows (fs g) x) fs f _ h (apply-Grows o (fs f))
              (record { same_state = λ _. refl; same_result = λ _. refl }),
      )

  -- What was known when the callback was invoked, at the source of the future that it completes.
  Fired-at_source :
      (fs : ℕ → Data T E Callback) (f h : ℕ) (e e' : When)
      → (e ≡ e') × (source f ≡ h)
      → Fired e (fs h).state
      → Fired e' (fs (source f)).state
  Fired-at_source fs f h e e' p d = coe 0 1 (i. Fired (p.0 i) (fs (sym p.1 i)).state) d

  result_at_source :
      (fs : ℕ → Data T E Callback) (f h : ℕ) (r : Outcome T E)
      → source f ≡ h
      → (fs h).result ≡ r
      → (fs (source f)).result ≡ r
  result_at_source fs f h r p q = ap (λ k. (fs k).result) p ∙ q

  Called-Stepped :
      (fs : ℕ → Data T E Callback) (c : Callback) (h : ℕ) (r : Outcome T E)
      → (fs h).result ≡ r
      → Sound source fs
      → Called (Allowed source h) (fs h).state c
      → Stepped fs (perform_some (operation_of c r) fs)
  unfolding operation_of
  Called-Stepped fs (user n) h r q s k = stay fs s
  Called-Stepped fs (set_into f) h (value t) q s (e, p, d) =
      perform-Stepped fs (Op.set_value t) f s tt
        (Fired-at_source fs f h e When.ready p d, result_at_source fs f h _ p.1 q) tt
  Called-Stepped fs (set_into f) h _ q s k = stay fs s
  Called-Stepped fs (fail_into f) h (error m) q s (e, p, d) =
      perform-Stepped fs (Op.fail_with m) f s tt
        (Fired-at_source fs f h e When.failed p d, result_at_source fs f h _ p.1 q) tt
  Called-Stepped fs (fail_into f) h _ q s k = stay fs s
  Called-Stepped fs (discard_into f) h r q s (e, p, d) =
      perform-Stepped fs Op.finish_discarded f s tt
        (let z = Fired-at_source fs f h e When.discarded p d in
          (z, discarded_empty source fs (source f) s z))
        tt
  Called-Stepped fs (abandon_into f) h r q s k =
      perform-Stepped fs (Op.abandon_future true) f s tt tt tt
  Called-Stepped fs (request_discard_of f) h r q s k =
      perform-Stepped fs Op.request_discard f s tt tt tt

  run_task-Stepped :
      (fs : ℕ → Data T E Callback) (t : Task T E)
      → Sound source fs
      → TaskAllowed source fs t
      → Stepped fs (run_task t fs)
  run_task-Stepped fs (call c h) s k = Called-Stepped fs c h (fs h).result refl s k
  run_task-Stepped fs (operate o f) s k = perform-Stepped fs o f s k.0 (k.1 _ _) (k.2 _)

  -- The invariant of the system.
  record Inv (s : System T E) : Type 0 where
    sound : Sound source s.futures
    tasks : All (TaskAllowed source s.futures) s.pending

  tasks_grow :
      (fs fs' : ℕ → Data T E Callback)
      → ((h : ℕ) → Grows (fs h) (fs' h))
      → (ts : List (Task T E)) → All (TaskAllowed source fs) ts
      → All (TaskAllowed source fs') ts
  tasks_grow fs fs' g ts h = All-imp (Task-Grows source fs fs' g) ts h

  start-Inv : Inv (record { futures = λ _. fresh; pending = [] })
  unfolding fresh
  start-Inv = record {
    sound = record {
      waiting = λ h. record {
        of_abandoned = tt;
        of_discard = tt;
        of_ready = tt;
        of_failed = tt;
        of_discarded = tt;
        of_any = tt;
      };
      formed = λ h. fresh-IsWellFormed;
      shown = λ f a n. ground arith;
    };
    tasks = tt;
  }

  registrations_allowed :
      (fs : ℕ → Data T E Callback) (f g : ℕ)
      → source f ≡ g
      → All (TaskAllowed source fs) (registrations f g)
  unfolding registrations
  registrations_allowed fs f g p = (
    (tt, λ _ _. tt, λ _. tt),
    (
      ((refl, p), λ _ _. tt, λ _. tt),
      (
        ((refl, p), λ _ _. tt, λ _. tt),
        (((refl, p), λ _ _. tt, λ _. tt), ((tt, λ _ _. tt, λ _. tt), tt)),
      ),
    ),
  )

  associate-Inv :
      (f g : ℕ) (s : System T E)
      → ((apply Op.associate (s.futures f)).result ≡ true → source f ≡ g)
      → Inv s
      → Inv (associate f g s)
  unfolding associate
  associate-Inv f g s q v =
      let k = perform-Stepped s.futures Op.associate f v.sound tt tt tt in
      record {
        sound = k.0;
        tasks = All-append _ s.pending _ (tasks_grow _ _ k.2 s.pending v.tasks) (
            if_cases (All _) (apply Op.associate (s.futures f)).result
              (λ e.
                registrations_allowed (update s.futures f (apply Op.associate (s.futures f)).after)
                  f g (q e))
              (λ _. tt));
      }

  step-Inv : (s t : System T E) → Step source s t → Inv s → Inv t
  step-Inv s _ (runs left t right e) v =
      let a = coe 0 1 (i. All (TaskAllowed source s.futures) (e i)) v.tasks in
      let l = All-before _ left (t ∷ right) a in
      let r = All-after _ left (t ∷ right) a in
      let k = run_task-Stepped s.futures t v.sound r.0 in
      record {
        sound = k.0;
        tasks =
            All-append _ _ right (All-append _ left _ (tasks_grow _ _ k.2 left l) k.1)
              (tasks_grow _ _ k.2 right r.1);
      }
  step-Inv s _ (calls o f p now) v =
      let a = public_allowed source s.futures o f p in
      let k = perform-Stepped s.futures o f v.sound a.0 (a.1 _ _) now in
      record {
        sound = k.0;
        tasks = All-append _ s.pending _ (tasks_grow _ _ k.2 s.pending v.tasks) k.1;
      }
  step-Inv s _ (associates f g q) v = associate-Inv f g s q v

  reach-Inv : (s : System T E) → Reach source s → Inv s
  reach-Inv _ here = start-Inv
  reach-Inv _ (next {s = s} {t = t} r e) = step-Inv s t e (reach-Inv s r)

  -- In every interleaving in which no `associate` takes effect between the test of `associated`, in `set`, `fail` or
  -- `discard` of the same promise, and the completion that it guards: an associated future that has completed has the state and the result of
  -- the future that its promise was associated with.
  pub completes_as_source :
      (s : System T E)
      → Reach source s
      → (f : ℕ) → (s.futures f).associated ≡ true
      → (s.futures f).state ≢ State.pending
      → ((s.futures f).state ≡ (s.futures (source f)).state)
        × ((s.futures f).result ≡ (s.futures (source f)).result)
  completes_as_source s r f a n = (reach-Inv s r).sound.shown f a n
