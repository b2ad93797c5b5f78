-- ===== src/Process/Invariant.antt =====
-- src/process.cpp: what each access to the shared state of a process keeps.
use libprocess.Common.{
  ◌+◌, ◌≤◌, ◌≡◌, ◌≢◌, Bool, true, false, List, [], ◌∷◌, arith, total, total-append, length,
  length-append,
}
use libprocess.Process.{State, Event, Process, Producer, produce, Worker, resume}
use libprocess.Process.System.{
  ProducerCounts, WorkerCounts, with_producer, with_worker, terminate_count,
}

-- The state says who may run the process, and what the threads have in hand says what comes next.
pub record Sound (p : Process) (a : ProducerCounts) (c : WorkerCounts) : Type 0 where
  pub one_bottom : p.state ≡ State.bottom → p.queued + a.scheduling + c.running ≡ 1
  pub one_ready : p.state ≡ State.ready → p.queued + a.scheduling + c.running ≡ 1
  pub none_blocked : p.state ≡ State.blocked → p.queued + a.scheduling + c.running ≡ 0
  pub none_terminating : p.state ≡ State.terminating → p.queued + a.scheduling + c.running ≡ 0
  pub not_initialized : p.state ≡ State.bottom → c.initialized ≡ 0
  pub woken : p.state ≡ State.blocked → 1 ≤ length p.queue.events → 1 ≤ a.checking + c.rechecking
  pub can_take : 1 ≤ c.taking → 1 ≤ length p.queue.events
  pub flagged :
      p.termination ≡ true
      → p.state ≢ State.terminating
      → 1 ≤ total terminate_count p.queue.events + c.terminates
  pub can_flag :
      1 ≤ a.flagging
      → p.state ≢ State.terminating
      → 1 ≤ total terminate_count p.queue.events + c.terminates
  pub can_purge : 1 ≤ c.purging → p.termination ≡ true
  pub closing : 1 ≤ c.decomissioning → p.state ≡ State.terminating
  pub closed : p.queue.comissioned ≡ false → p.state ≡ State.terminating
  pub no_abort : c.aborted ≡ 0

-- Only a worker that runs the process holds events of it.
pub record Within (c : WorkerCounts) : Type 0 where
  pub initialized_runs : c.initialized ≤ c.running
  pub taking_runs : c.taking ≤ c.running
  pub terminates_run : c.terminates ≤ c.running
  pub purging_runs : c.purging ≤ c.running

length-le-total : (es : List Event) → total terminate_count es ≤ length es
length-le-total [] = omega arith
length-le-total (e ∷ es) = ground (arith, length-le-total es)

module _ (p : Process) (a : ProducerCounts) (c : WorkerCounts) where
  loads-Sound :
      (e : Event)
      → Sound p (with_producer (Producer.loads e) a) c
      → Sound (produce (Producer.loads e) p).0 (with_producer (produce (Producer.loads e) p).1 a) c
  unfolding produce
  loads-Sound e s = ground arith

  pushes-Sound :
      (old : State) (e : Event)
      → Sound p (with_producer (Producer.pushes old e) a) c
      → Sound
          (produce (Producer.pushes old e) p).0
          (with_producer (produce (Producer.pushes old e) p).1 a)
          c
  unfolding produce
  pushes-Sound State.terminating e s = ground arith
  pushes-Sound old e s = ground (
    arith,
    length-append p.queue.events (e ∷ []),
    total-append terminate_count p.queue.events (e ∷ []),
  )

  pub produce-Sound :
      (w : Producer)
      → Sound p (with_producer w a) c
      → Sound (produce w p).0 (with_producer (produce w p).1 a) c
  unfolding produce
  produce-Sound (Producer.loads e) s = loads-Sound e s
  produce-Sound (Producer.pushes old e) s = pushes-Sound old e s
  produce-Sound (Producer.flags injected) s = ground arith
  produce-Sound Producer.checks s = ground arith
  produce-Sound Producer.swaps s = ground arith
  produce-Sound Producer.schedules s = ground arith
  produce-Sound (Producer.returns b) s = ground arith

module _ (dropped : Event → Bool) (p : Process) (a : ProducerCounts) (c : WorkerCounts)
    (n : Within c) where
  takes-Sound :
      Sound p a (with_worker Worker.takes c)
      → Sound (resume dropped Worker.takes p).0 a (with_worker (resume dropped Worker.takes p).1 c)
  unfolding resume
  takes-Sound s = ground arith

  purges-Sound :
      (e : Event)
      → Sound p a (with_worker (Worker.purges e) c)
      → Sound
          (resume dropped (Worker.purges e) p).0
          a
          (with_worker (resume dropped (Worker.purges e) p).1 c)
  unfolding resume
  purges-Sound e s = ground (arith, length-le-total p.queue.events)

  serves-Sound :
      ((b : Bool) → dropped (Event.terminate b) ≡ false)
      → (e : Event) (purged : Bool) → Sound p a (with_worker (Worker.serves e purged) c)
      → Sound
          (resume dropped (Worker.serves e purged) p).0
          a
          (with_worker (resume dropped (Worker.serves e purged) p).1 c)
  unfolding resume
  serves-Sound h (Event.terminate b) purged s = let k = h b in ground arith
  serves-Sound h e purged s = ground arith

  pub resume-Sound :
      ((b : Bool) → dropped (Event.terminate b) ≡ false)
      → (w : Worker) → Sound p a (with_worker w c)
      → Sound (resume dropped w p).0 a (with_worker (resume dropped w p).1 c)
  unfolding resume
  resume-Sound h Worker.starts s = ground arith
  resume-Sound h Worker.initializes s = ground arith
  resume-Sound h Worker.looks s = ground arith
  resume-Sound h Worker.takes s = takes-Sound s
  resume-Sound h Worker.blocks s = ground arith
  resume-Sound h Worker.rechecks s = ground arith
  resume-Sound h Worker.swaps s = ground arith
  resume-Sound h (Worker.holds e) s = ground arith
  resume-Sound h (Worker.purges e) s = purges-Sound e s
  resume-Sound h (Worker.serves e purged) s = serves-Sound h e purged s
  resume-Sound h Worker.cleans s = ground arith
  resume-Sound h Worker.decomissions s = ground arith
  resume-Sound h Worker.left s = s
  resume-Sound h Worker.aborts s = s
