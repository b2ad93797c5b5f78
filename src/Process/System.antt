-- ===== src/Process/System.antt =====
-- One process with the threads that work on it (src/process.cpp), and its history.
use libprocess.Common.{ℕ, suc, ◌+◌, ◌≡◌, Bool, true, List, [], ◌∷◌, ◌++◌, if◌then◌else◌, total}
use libprocess.Process.{
  State, Event, is_terminate, Process, spawned, Producer, produce, Worker, resume,
}

-- `accepted` are the events that the queue took, `taken` those that `dequeue` gave to a worker, and
-- `deleted` those that were in the queue when it was decomissioned; each in order.
pub record System : Type 0 where
  pub process : Process
  pub producers : List Producer
  pub workers : List Worker
  pub accepted : List Event
  pub taken : List Event
  pub deleted : List Event

abbrev pub start : System
start = record {
  process = spawned;
  producers = [];
  workers = [];
  accepted = [];
  taken = [];
  deleted = [];
}

abbrev pub pushed_by : Producer → Process → List Event
pushed_by (Producer.pushes State.terminating e) p = []
pushed_by (Producer.pushes old e) p = if p.queue.comissioned then e ∷ [] else []
pushed_by _ p = []

-- The event that a worker has in hand after a call of `dequeue`, which it makes in two places.
abbrev pub in_hand : Worker → List Event
in_hand (Worker.holds e) = e ∷ []
in_hand (Worker.purges e) = e ∷ []
in_hand _ = []

module _ (dropped : Event → Bool) where
  abbrev pub taken_by : Worker → Process → List Event
  unfolding resume
  taken_by Worker.takes p = in_hand (resume dropped Worker.takes p).1
  taken_by (Worker.purges e) p = in_hand (resume dropped (Worker.purges e) p).1
  taken_by _ p = []

abbrev pub deleted_by : Worker → Process → List Event → List Event
deleted_by Worker.decomissions p es = p.queue.events ++ es
deleted_by _ p es = es

module _ (dropped : Event → Bool) where
  -- A thread starts to deliver an event or goes on; a worker takes the process from the run queue, or
  -- goes on.
  pub data Step (s : System) : System → Type 0 where
    delivers : (e : Event) → Step s (record s { producers = s.producers ++ Producer.loads e ∷ [] })
    produces :
        (before : List Producer) (p : Producer) (behind : List Producer)
        → s.producers ≡ before ++ p ∷ behind
        → Step s (record s {
          process = (produce p s.process).0;
          producers = before ++ (produce p s.process).1 ∷ behind;
          accepted = s.accepted ++ pushed_by p s.process;
        })
    wakes :
        (n : ℕ)
        → s.process.queued ≡ suc n
        → Step s (record s {
          process = record s.process { queued = n };
          workers = s.workers ++ Worker.starts ∷ [];
        })
    works :
        (before : List Worker) (w : Worker) (behind : List Worker)
        → s.workers ≡ before ++ w ∷ behind
        → Step s (record s {
          process = (resume dropped w s.process).0;
          workers = before ++ (resume dropped w s.process).1 ∷ behind;
          taken = s.taken ++ taken_by dropped w s.process;
          deleted = deleted_by w s.process s.deleted;
        })

  pub data Reach : System → Type 0 where
    here : Reach start
    next : {s t : System} → Reach s → Step s t → Reach t

-- What the threads have in hand, as counts: who may put the process to work, ...
abbrev pub schedules_it : Producer → ℕ
schedules_it Producer.schedules = 1
schedules_it _ = 0

abbrev pub will_check : Producer → ℕ
will_check (Producer.flags injected) = 1
will_check Producer.checks = 1
will_check Producer.swaps = 1
will_check _ = 0

abbrev pub will_flag : Producer → ℕ
will_flag (Producer.flags true) = 1
will_flag _ = 0

-- ... the workers that run the process, those among them that have initialized it or seen an event,
-- those that look at the queue once more, ...
abbrev pub runs_it : Worker → ℕ
runs_it Worker.rechecks = 0
runs_it Worker.swaps = 0
runs_it Worker.decomissions = 0
runs_it Worker.left = 0
runs_it Worker.aborts = 0
runs_it _ = 1

abbrev pub has_initialized : Worker → ℕ
has_initialized Worker.starts = 0
has_initialized Worker.initializes = 0
has_initialized w = runs_it w

abbrev pub will_take : Worker → ℕ
will_take Worker.takes = 1
will_take _ = 0

abbrev pub will_recheck : Worker → ℕ
will_recheck Worker.rechecks = 1
will_recheck Worker.swaps = 1
will_recheck _ = 0

-- ... those that hold a terminate event, those that purge, those that decomission, and the failed
-- CHECKs.
abbrev pub terminate_count : Event → ℕ
terminate_count e = if is_terminate e then 1 else 0

abbrev pub holds_terminate : Worker → ℕ
holds_terminate (Worker.holds e) = terminate_count e
holds_terminate (Worker.purges e) = terminate_count e
holds_terminate (Worker.serves e purged) = terminate_count e
holds_terminate Worker.cleans = 1
holds_terminate _ = 0

abbrev pub purges_it : Worker → ℕ
purges_it (Worker.purges e) = 1
purges_it _ = 0

abbrev pub will_decomission : Worker → ℕ
will_decomission Worker.decomissions = 1
will_decomission _ = 0

abbrev pub has_aborted : Worker → ℕ
has_aborted Worker.aborts = 1
has_aborted _ = 0

pub record ProducerCounts : Type 0 where
  pub scheduling : ℕ
  pub checking : ℕ
  pub flagging : ℕ

pub record WorkerCounts : Type 0 where
  pub running : ℕ
  pub initialized : ℕ
  pub taking : ℕ
  pub rechecking : ℕ
  pub terminates : ℕ
  pub purging : ℕ
  pub decomissioning : ℕ
  pub aborted : ℕ

abbrev pub with_producer : Producer → ProducerCounts → ProducerCounts
with_producer p c = record {
  scheduling = schedules_it p + c.scheduling;
  checking = will_check p + c.checking;
  flagging = will_flag p + c.flagging;
}

abbrev pub with_worker : Worker → WorkerCounts → WorkerCounts
with_worker w c = record {
  running = runs_it w + c.running;
  initialized = has_initialized w + c.initialized;
  taking = will_take w + c.taking;
  rechecking = will_recheck w + c.rechecking;
  terminates = holds_terminate w + c.terminates;
  purging = purges_it w + c.purging;
  decomissioning = will_decomission w + c.decomissioning;
  aborted = has_aborted w + c.aborted;
}

abbrev pub of_producers : List Producer → ProducerCounts
of_producers ps = record {
  scheduling = total schedules_it ps;
  checking = total will_check ps;
  flagging = total will_flag ps;
}

abbrev pub of_workers : List Worker → WorkerCounts
of_workers ws = record {
  running = total runs_it ws;
  initialized = total has_initialized ws;
  taking = total will_take ws;
  rechecking = total will_recheck ws;
  terminates = total holds_terminate ws;
  purging = total purges_it ws;
  decomissioning = total will_decomission ws;
  aborted = total has_aborted ws;
}
