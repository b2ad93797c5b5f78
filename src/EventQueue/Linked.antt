-- ===== src/EventQueue/Linked.antt =====
-- src/mpsc_linked_queue.hpp: `MpscLinkedQueue`, a linked list with any number of producers and one
-- consumer. A node is a number, its fields are functions of it, and a step is one access to what the
-- threads share; the element's node is made in the same step as the exchange that publishes it.
-- Memory that is read or written after `delete` sets `faulted`.
pub mod System
pub mod Links
pub mod Pops
pub mod Refines
use libprocess.Common.{
  at, ℕ, suc, Bool, true, false, ◌||◌, Option, none, some, List, [], ◌∷◌, ◌++◌, if◌then◌else◌, ◌==◌,
}

pub record Linked (E : Type 0) : Type 0 where
  pub head : ℕ
  pub tail : ℕ
  pub made : ℕ
  pub next : ℕ → Option ℕ
  pub element : ℕ → Option E
  pub deleted : ℕ → Bool
  pub faulted : Bool

-- Where the consumer stands in `dequeue`: before it reads the tail's link, before it compares the
-- head, in the loop that waits for the link, before it clears the link, before it takes the element,
-- and at the return.
pub data Consumer (E : Type 0) : Type 0 where
  starts compares spins : Consumer E
  clears takes : ℕ → Consumer E
  returns : Option E → Consumer E

module _ {E : Type 0} where
  -- The constructor: one node, which stands before the first element.
  abbrev pub new_list : Linked E
  new_list = record {
    head = 0;
    tail = 0;
    made = 1;
    next = λ i. none;
    element = λ i. none;
    deleted = λ i. false;
    faulted = false;
  }

  -- The first part of `enqueue`: the new node becomes the head; the old head is returned beside it.
  unfoldable pub exchange : E → Linked E → Linked E × ℕ × ℕ
  exchange e q = (
    record q {
      head = q.made;
      made = suc q.made;
      next = at q.next q.made none;
      element = at q.element q.made (some e);
    },
    q.head,
    q.made,
  )

  -- The second part of `enqueue`: the old head is linked to the new node.
  unfoldable pub link : ℕ → ℕ → Linked E → Linked E
  link old new q = record q {
    next = at q.next old (some new);
    faulted = q.faulted || q.deleted old;
  }

  abbrev pub linked_or : Consumer E → Option ℕ → Consumer E
  linked_or c none = c
  linked_or c (some n) = Consumer.clears n

  unfoldable pub consume : Consumer E → Linked E → Linked E × Consumer E
  consume Consumer.starts q = (
    record q { faulted = q.faulted || q.deleted q.tail },
    linked_or Consumer.compares (q.next q.tail),
  )
  consume Consumer.compares q =
      (q, if q.head == q.tail then Consumer.returns none else Consumer.spins)
  consume Consumer.spins q = (
    record q { faulted = q.faulted || q.deleted q.tail },
    linked_or Consumer.spins (q.next q.tail),
  )
  consume (Consumer.clears n) q = (
    record q { next = at q.next q.tail none; faulted = q.faulted || q.deleted q.tail },
    Consumer.takes n,
  )
  consume (Consumer.takes n) q = (
    record q {
      element = at q.element n none;
      tail = n;
      deleted = at q.deleted q.tail true;
      faulted = q.faulted || q.deleted n;
    },
    Consumer.returns (q.element n),
  )
  consume (Consumer.returns e) q = (q, Consumer.returns e)

  -- `empty`
  unfoldable pub list_is_empty : Linked E → Bool
  list_is_empty q = elim (q.next q.tail) [ none ↦ q.head == q.tail | some n ↦ false ]
