-- ===== src/Process/Delivery.antt =====
-- src/process.cpp: the events of a process are taken in the order in which its queue accepted them.
use libprocess.Common.{
  ◌≡◌, refl, Bool, true, Option, none, some, List, [], ◌∷◌, ◌++◌, arith, append-nil, append_assoc,
  List-cases, Bool-cases, inl, inr,
}
use libprocess.EventQueue.{EventQueue, dequeue}
use libprocess.Process.{
  State, Event, Process, spawned, Producer, produce, Worker, resume, with_event, is_terminate,
}
use libprocess.Process.System.{
  System, start, Step, delivers, produces, wakes, works, Reach, here, next, pushed_by, taken_by,
  deleted_by, in_hand,
}

pub record Delivered (q : EventQueue Event) (accepted taken deleted : List Event) : Type 0 where
  pub kept : taken ++ (q.events ++ deleted) ≡ accepted
  pub none_deleted : q.comissioned ≡ true → deleted ≡ []

pushes-Delivered :
    (e : Event) (q : EventQueue Event) (acc tak del : List Event)
    → Delivered q acc tak del
    → q.comissioned ≡ true
    → Delivered (record q { events = q.events ++ e ∷ [] }) (acc ++ e ∷ []) tak del
pushes-Delivered e q acc tak del d c = ground (
  arith,
  append-nil q.events,
  append-nil (q.events ++ e ∷ []),
  append_assoc tak q.events (e ∷ []),
)

produce-Delivered :
    (w : Producer) (p : Process) (acc tak del : List Event)
    → Delivered p.queue acc tak del
    → Delivered (produce w p).0.queue (acc ++ pushed_by w p) tak del
unfolding produce
produce-Delivered (Producer.pushes State.terminating e) p acc tak del d =
    ground (arith, append-nil acc)
produce-Delivered (Producer.pushes old e) p acc tak del d =
    ground (arith, append-nil acc, pushes-Delivered e p.queue acc tak del d)
produce-Delivered w p acc tak del d = ground (arith, append-nil acc)

abbrev returned : Option Event → List Event
returned none = []
returned (some e) = e ∷ []

in_hand-holds : (o : Option Event) → in_hand (with_event Worker.holds o) ≡ returned o
in_hand-holds none = refl
in_hand-holds (some e) = refl

in_hand-purges : (o : Option Event) → in_hand (with_event Worker.purges o) ≡ returned o
in_hand-purges none = refl
in_hand-purges (some e) = refl

takes-Delivered :
    (q : EventQueue Event) (acc tak del : List Event)
    → Delivered q acc tak del
    → Delivered (dequeue q).0 acc (tak ++ returned (dequeue q).1) del
unfolding dequeue
takes-Delivered q acc tak del d = elim (List-cases q.events) [
  | inl e ↦ ground (arith, append-nil tak)
  | inr (x, es, e) ↦ ground (arith, append_assoc tak (x ∷ []) (es ++ del))
]

resume-Delivered :
    (dropped : Event → Bool) (w : Worker) (p : Process) (acc tak del : List Event)
    → Delivered p.queue acc tak del
    → Delivered (resume dropped w p).0.queue acc (tak ++ taken_by dropped w p) (deleted_by w p del)
unfolding resume
resume-Delivered dropped Worker.takes p acc tak del d =
    rw (in_hand-holds (dequeue p.queue).1) (takes-Delivered p.queue acc tak del d)
resume-Delivered dropped (Worker.purges e) p acc tak del d = elim (Bool-cases (is_terminate e)) [
  | inl x ↦ rw (x, append-nil tak) d
  | inr x ↦ rw (x, in_hand-purges (dequeue p.queue).1) (takes-Delivered p.queue acc tak del d)
]
resume-Delivered dropped Worker.decomissions p acc tak del d = ground (arith, append-nil tak)
resume-Delivered dropped w p acc tak del d = ground (arith, append-nil tak)

abbrev SystemDelivered : System → Type 0
SystemDelivered s = Delivered s.process.queue s.accepted s.taken s.deleted

Step-Delivered :
    {dropped : Event → Bool} {s t : System}
    → Step dropped s t
    → SystemDelivered s
    → SystemDelivered t
Step-Delivered (delivers e) d = d
Step-Delivered {s} (produces before p behind e) d =
    produce-Delivered p s.process s.accepted s.taken s.deleted d
Step-Delivered (wakes n e) d = d
Step-Delivered {dropped} {s} (works before w behind e) d =
    resume-Delivered dropped w s.process s.accepted s.taken s.deleted d

start-Delivered : SystemDelivered start
unfolding spawned
start-Delivered = ground arith

Reach-Delivered : {dropped : Event → Bool} {s : System} → Reach dropped s → SystemDelivered s
Reach-Delivered here = start-Delivered
Reach-Delivered (next r st) = Step-Delivered st (Reach-Delivered r)

-- In every interleaving the events that `dequeue` returned to workers, then those in the queue, then those that were
-- deleted when the queue was decomissioned, are the events that the queue accepted, in their order and
-- each as often; and as long as the queue is in commission none has been deleted.
pub events_in_order :
    (dropped : Event → Bool) (s : System)
    → Reach dropped s
    → (s.taken ++ (s.process.queue.events ++ s.deleted) ≡ s.accepted)
      × (s.process.queue.comissioned ≡ true → s.deleted ≡ [])
events_in_order dropped s r = let d = Reach-Delivered r in (d.kept, d.none_deleted)
