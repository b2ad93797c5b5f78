-- ===== src/Process/Scheduling.antt =====
-- src/process.cpp: in every interleaving of the threads, a process is run by one thread at a time and
-- is never left with events that nobody will look at.
use libprocess.Common.{
  ℕ, suc, ◌+◌, ◌≤◌, ◌≡◌, refl, ◌⊎◌, Bool, false, List, [], ◌∷◌, ◌++◌, arith, total, total-middle,
  total-le, All, append-nil,
}
use libprocess.Process.{State, Event, Process, spawned, Producer, produce, Worker, resume}
use libprocess.Process.System.{
  System, start, Step, delivers, produces, wakes, works, Reach, here, next, ProducerCounts,
  WorkerCounts, with_producer, with_worker, of_producers, of_workers, schedules_it, will_check,
  will_flag, runs_it, has_initialized, will_take, will_recheck, holds_terminate, purges_it,
  will_decomission, has_aborted,
}
use libprocess.Process.Invariant.{Sound, Within, produce-Sound, resume-Sound}

of_producers-middle :
    (xs : List Producer) (y : Producer) (ys : List Producer)
    → of_producers (xs ++ y ∷ ys) ≡ with_producer y (of_producers (xs ++ ys))
of_producers-middle xs y ys = ground (
  arith,
  total-middle schedules_it xs y ys,
  total-middle will_check xs y ys,
  total-middle will_flag xs y ys,
)

of_workers-middle :
    (xs : List Worker) (y : Worker) (ys : List Worker)
    → of_workers (xs ++ y ∷ ys) ≡ with_worker y (of_workers (xs ++ ys))
of_workers-middle xs y ys = ground (
  arith,
  total-middle runs_it xs y ys,
  total-middle has_initialized xs y ys,
  total-middle will_take xs y ys,
  total-middle will_recheck xs y ys,
  total-middle holds_terminate xs y ys,
  total-middle purges_it xs y ys,
  total-middle will_decomission xs y ys,
  total-middle has_aborted xs y ys,
)

initialized_runs : (w : Worker) → has_initialized w ≤ runs_it w
initialized_runs Worker.starts = omega arith
initialized_runs _ = omega arith

taking_runs : (w : Worker) → will_take w ≤ runs_it w
taking_runs Worker.takes = omega arith
taking_runs _ = omega arith

terminates_run : (w : Worker) → holds_terminate w ≤ runs_it w
terminates_run Worker.cleans = omega arith
terminates_run _ = ground arith

purging_runs : (w : Worker) → purges_it w ≤ runs_it w
purging_runs (Worker.purges e) = omega arith
purging_runs _ = omega arith

of_workers-Within : (ws : List Worker) → Within (of_workers ws)
of_workers-Within ws = record {
  initialized_runs = total-le has_initialized runs_it ws initialized_runs;
  taking_runs = total-le will_take runs_it ws taking_runs;
  terminates_run = total-le holds_terminate runs_it ws terminates_run;
  purging_runs = total-le purges_it runs_it ws purging_runs;
}

abbrev SystemSound : System → Type 0
SystemSound s = Sound s.process (of_producers s.producers) (of_workers s.workers)

start-Sound : SystemSound start
unfolding spawned
start-Sound = ground arith

loads-Sound :
    (p : Process) (a : ProducerCounts) (c : WorkerCounts) (e : Event)
    → Sound p a c
    → Sound p (with_producer (Producer.loads e) a) c
loads-Sound p a c e s = ground arith

starts-Sound :
    (p : Process) (a : ProducerCounts) (c : WorkerCounts) (n : ℕ)
    → p.queued ≡ suc n
    → Sound p a c
    → Sound (record p { queued = n }) a (with_worker Worker.starts c)
starts-Sound p a c n e s = ground arith

at_most_one :
    (p : Process) (a : ProducerCounts) (c : WorkerCounts)
    → Sound p a c
    → p.queued + a.scheduling + c.running ≤ 1
at_most_one p a c s = ground arith

-- A delivery that is over, and a worker that is done with the process.
abbrev pub HasReturned : Producer → Type 0
HasReturned (Producer.returns b) = Unit {0}
HasReturned _ = ⊥

abbrev pub HasLeft : Worker → Type 0
HasLeft Worker.left = Unit {0}
HasLeft _ = ⊥

returned_counts :
    (ps : List Producer)
    → All HasReturned ps
    → (total schedules_it ps ≡ 0) × (total will_check ps ≡ 0)
returned_counts [] h = (refl, refl)
returned_counts (Producer.returns b ∷ ps) h = omega (arith, returned_counts ps h.1)
returned_counts (Producer.loads e ∷ ps) h = absurd h.0
returned_counts (Producer.pushes old e ∷ ps) h = absurd h.0
returned_counts (Producer.flags i ∷ ps) h = absurd h.0
returned_counts (Producer.checks ∷ ps) h = absurd h.0
returned_counts (Producer.swaps ∷ ps) h = absurd h.0
returned_counts (Producer.schedules ∷ ps) h = absurd h.0

left_counts :
    (ws : List Worker) → All HasLeft ws → (total runs_it ws ≡ 0) × (total will_recheck ws ≡ 0)
left_counts [] h = (refl, refl)
left_counts (Worker.left ∷ ws) h = omega (arith, left_counts ws h.1)
left_counts (w ∷ ws) h = absurd h.0

at_rest :
    (p : Process) (a : ProducerCounts) (c : WorkerCounts)
    → Sound p a c
    → p.queued ≡ 0
    → a.scheduling ≡ 0
    → a.checking ≡ 0
    → c.running ≡ 0
    → c.rechecking ≡ 0
    → (p.state ≡ State.terminating) ⊎ ((p.state ≡ State.blocked) × (p.queue.events ≡ []))
at_rest p a c s q x y z w = ground arith

module _ (dropped : Event → Bool) (keeps : (b : Bool) → dropped (Event.terminate b) ≡ false) where
  Step-Sound : {s t : System} → Step dropped s t → SystemSound s → SystemSound t
  Step-Sound {s} (delivers e) v =
      let counts = of_producers-middle s.producers (Producer.loads e) [] in
      coe 1 0 (i. Sound s.process (counts i) (of_workers s.workers)) (
        coe 1 0
          (i.
            Sound s.process
              (with_producer (Producer.loads e) (of_producers (append-nil s.producers i)))
              (of_workers s.workers))
          (loads-Sound s.process (of_producers s.producers) (of_workers s.workers) e v))
  Step-Sound {s} (produces before p behind e) v =
      let given = coe 0 1 (i. Sound s.process (of_producers (e i)) (of_workers s.workers)) v in
      let split =
        coe 0 1 (i. Sound s.process (of_producers-middle before p behind i) (of_workers s.workers))
          given in
      coe 1 0
        (i.
          Sound (produce p s.process).0
            (of_producers-middle before (produce p s.process).1 behind i) (of_workers s.workers))
        (produce-Sound s.process (of_producers (before ++ behind)) (of_workers s.workers) p split)
  Step-Sound {s} (wakes n e) v =
      let p : Process = record s.process { queued = n } in
      let counts = of_workers-middle s.workers Worker.starts [] in
      coe 1 0 (i. Sound p (of_producers s.producers) (counts i)) (
        coe 1 0
          (i.
            Sound p (of_producers s.producers)
              (with_worker Worker.starts (of_workers (append-nil s.workers i))))
          (starts-Sound s.process (of_producers s.producers) (of_workers s.workers) n e v))
  Step-Sound {s} (works before w behind e) v =
      let given = coe 0 1 (i. Sound s.process (of_producers s.producers) (of_workers (e i))) v in
      let split =
        coe 0 1
          (i. Sound s.process (of_producers s.producers) (of_workers-middle before w behind i))
          given in
      let p = (resume dropped w s.process).0 in
      coe 1 0
        (i.
          Sound p (of_producers s.producers)
            (of_workers-middle before (resume dropped w s.process).1 behind i))
        (resume-Sound dropped s.process (of_producers s.producers) (of_workers (before ++ behind))
          (of_workers-Within (before ++ behind)) keeps w split)

  Reach-Sound : {s : System} → Reach dropped s → SystemSound s
  Reach-Sound here = start-Sound
  Reach-Sound (next r st) = Step-Sound st (Reach-Sound r)

  -- Whatever the threads do, at most one of them runs the process, and while one does the process is
  -- neither in the run queue nor about to be put there; and no CHECK of `resume`, `cleanup` or
  -- `dequeue` fails, given that the filter drops no terminate event.
  pub one_thread_runs :
      (s : System)
      → Reach dropped s
      → (s.process.queued + total schedules_it s.producers + total runs_it s.workers ≤ 1)
        × (total has_aborted s.workers ≡ 0)
  one_thread_runs s r =
      let v = Reach-Sound r in
      (at_most_one s.process (of_producers s.producers) (of_workers s.workers) v, v.no_abort)

  -- Given that the filter drops no terminate event: whenever every thread that delivered an event has returned, no worker is in `resume` and the
  -- process is not in the run queue, then the process is terminating, or it is blocked and its queue
  -- is empty: no event is left that no thread will serve.
  pub no_lost_wakeup :
      (s : System)
      → Reach dropped s
      → All HasReturned s.producers
      → All HasLeft s.workers
      → s.process.queued ≡ 0
      → (s.process.state ≡ State.terminating)
        ⊎ ((s.process.state ≡ State.blocked) × (s.process.queue.events ≡ []))
  no_lost_wakeup s r ps ws q =
      let a = returned_counts s.producers ps in
      let b = left_counts s.workers ws in
      at_rest s.process (of_producers s.producers) (of_workers s.workers) (Reach-Sound r) q a.0 a.1
        b.0 b.1
