-- ===== src/Process.antt =====
-- src/process.cpp and include/process/process.hpp: how one process is scheduled, by any number of
-- threads that deliver events to it and any number of worker threads. A thread is where it stands in
-- `ProcessBase::enqueue` or in `ProcessManager::resume`, and a step is one access to the state that
-- the threads share; the atomics are sequentially consistent, as the source's default is.
pub mod System
pub mod Invariant
pub mod Scheduling
pub mod Delivery
mod Tests
use libprocess.Common.{
  ℕ, suc, Bool, true, false, ◌&&◌, Option, none, some, List, [], ◌∷◌, ◌++◌, if◌then◌else◌,
}
use libprocess.EventQueue.{EventQueue, new_queue, enqueue, dequeue, is_empty, decomission}

pub data State : Type 0 where
  bottom blocked ready terminating : State

-- The kinds of events; what an event carries is a number here.
pub data Event : Type 0 where
  message dispatch http exited : ℕ → Event
  terminate : (inject : Bool) → Event

abbrev pub is_terminate : Event → Bool
is_terminate (Event.terminate inject) = true
is_terminate _ = false

abbrev pub is_injected : Event → Bool
is_injected (Event.terminate inject) = inject
is_injected _ = false

-- The members of `ProcessBase` that threads share, and how often the process stands in the run
-- queue.
pub record Process : Type 0 where
  pub state : State
  pub termination : Bool
  pub queue : EventQueue Event
  pub queued : ℕ

-- A process that `ProcessManager::spawn` has just put into the run queue.
unfoldable pub spawned : Process
spawned = record { state = State.bottom; termination = false; queue = new_queue; queued = 1 }

-- `compare_exchange_strong` from BLOCKED to READY.
unfoldable pub swap_blocked : Process → Process × Bool
swap_blocked p = elim p.state [
  | State.blocked ↦ (record p { state = State.ready }, true)
  | _ ↦ (p, false)
]

-- Where a thread stands in `ProcessBase::enqueue`: before it reads the state, before the switch,
-- before it stores `termination`, before it reads the state again, before the exchange, before it
-- puts the process into the run queue, and at the return.
pub data Producer : Type 0 where
  loads : Event → Producer
  pushes : State → Event → Producer
  flags : (injected : Bool) → Producer
  checks swaps schedules : Producer
  returns : Bool → Producer

abbrev pub push_at : State → Event → Process → Process × Producer
push_at State.terminating e p = (p, Producer.returns false)
push_at _ e p =
    let (q, enqueued) = enqueue e p.queue in
    (
      record p { queue = q },
      if enqueued then Producer.flags (is_injected e) else Producer.returns false,
    )

unfoldable pub produce : Producer → Process → Process × Producer
unfolding enqueue swap_blocked
produce (Producer.loads e) p = (p, Producer.pushes p.state e)
produce (Producer.pushes old e) p = push_at old e p
produce (Producer.flags injected) p =
    (if injected then record p { termination = true } else p, Producer.checks)
produce Producer.checks p =
    (p, elim p.state [ State.blocked ↦ Producer.swaps | _ ↦ Producer.returns true ])
produce Producer.swaps p =
    let (p', swapped) = swap_blocked p in
    (p', if swapped then Producer.schedules else Producer.returns true)
produce Producer.schedules p = (record p { queued = suc p.queued }, Producer.returns true)
produce (Producer.returns delivered) p = (p, Producer.returns delivered)

-- Where a worker stands in `ProcessManager::resume`: before it reads the state, before it stores READY
-- after `initialize`, at the top of the loop, before `dequeue`, before it stores BLOCKED, before the
-- second look at the queue, before the exchange, with an event before it reads `termination`, in the
-- purge, before it serves an event with what it read, before it stores TERMINATING in `cleanup`,
-- before it decomissions the queue, at the return, and at a CHECK that fails.
pub data Worker : Type 0 where
  starts initializes looks takes blocks rechecks swaps : Worker
  holds purges : Event → Worker
  serves : Event → (purged : Bool) → Worker
  cleans decomissions left aborts : Worker

abbrev pub with_event : (Event → Worker) → Option Event → Worker
with_event f none = Worker.aborts
with_event f (some e) = f e

abbrev pub starts_at : State → Worker
starts_at State.bottom = Worker.initializes
starts_at State.ready = Worker.looks
starts_at _ = Worker.aborts

-- `dropped` is the installed filter.
module _ (dropped : Event → Bool) where
  unfoldable pub resume : Worker → Process → Process × Worker
  unfolding dequeue is_empty decomission swap_blocked
  resume Worker.starts p = (p, starts_at p.state)
  resume Worker.initializes p = (record p { state = State.ready }, Worker.looks)
  resume Worker.looks p = (p, if is_empty p.queue then Worker.blocks else Worker.takes)
  resume Worker.takes p =
      let (q, e) = dequeue p.queue in (record p { queue = q }, with_event Worker.holds e)
  resume Worker.blocks p = (record p { state = State.blocked }, Worker.rechecks)
  resume Worker.rechecks p = (p, if is_empty p.queue then Worker.left else Worker.swaps)
  resume Worker.swaps p =
      let (p', swapped) = swap_blocked p in (p', if swapped then Worker.looks else Worker.left)
  resume (Worker.holds e) p = (p, if p.termination then Worker.purges e else Worker.serves e false)
  resume (Worker.purges e) p =
      if is_terminate e
      then (p, Worker.serves e true)
      else (let (q, e') = dequeue p.queue in (record p { queue = q }, with_event Worker.purges e'))
  resume (Worker.serves e purged) p = (
    p,
    if dropped e
        then (if purged then Worker.cleans else Worker.looks)
        else if is_terminate e
        then Worker.cleans
        else Worker.looks,
  )
  resume Worker.cleans p = elim p.state [
    | State.ready ↦ (record p { state = State.terminating }, Worker.decomissions)
    | _ ↦ (p, Worker.aborts)
  ]
  resume Worker.decomissions p = (record p { queue = decomission p.queue }, Worker.left)
  resume Worker.left p = (p, Worker.left)
  resume Worker.aborts p = (p, Worker.aborts)
