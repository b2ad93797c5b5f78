-- ===== src/EventQueue/Linked/Refines.antt =====
-- src/mpsc_linked_queue.hpp: the linked list refines a queue whose push is the exchange and whose pop
-- is the consumer's read of the element.
use libprocess.Common.{
  ℕ, suc, ◌+◌, ◌<◌, ◌≡◌, ◌≢◌, refl, false, none, some, List, [], ◌∷◌, ◌++◌, arith, total, length,
}
use libprocess.EventQueue.Linked.{Linked, Consumer, consume}
use libprocess.EventQueue.Linked.System.{
  System, Step, exchanges, links, calls, consumes, Reach, here, next, Holds, Inv, start-Inv,
  HasRead, link_count, links_from,
}
use libprocess.EventQueue.Linked.Links.{exchanges-Inv, links-Inv}
use libprocess.EventQueue.Linked.Pops.{consumes-Inv, calls-Inv}

module _ {E : Type 0} where
  Step-Inv : {s t : System E} → Step s t → Inv s → Inv t
  Step-Inv {s} (exchanges e) v = exchanges-Inv s e v
  Step-Inv {s} (links before old new behind e) v = links-Inv s before old new behind e v
  Step-Inv {s} (calls o e) v = calls-Inv s o e v
  Step-Inv {s} consumes v = consumes-Inv s s.consumer refl v

  Reach-Inv : {s : System E} → Reach s → Inv s
  Reach-Inv here = start-Inv
  Reach-Inv (next r st) = Step-Inv st (Reach-Inv r)

  -- What the next step of the consumer may return: the first element of the abstract queue, or
  -- nothing if there is none.
  abbrev pub IsPop : Consumer E → List E → Consumer E → Type 0
  IsPop (Consumer.takes n) es c =
      (e : E) × (rest : List E) × (es ≡ e ∷ rest) × (c ≡ Consumer.returns (some e))
  IsPop Consumer.compares es c = c ≡ Consumer.returns none → es ≡ []
  IsPop c es d = Unit

  no_elements : (es : List E) → length es ≡ 0 → es ≡ []
  no_elements [] h = refl
  no_elements (e ∷ es) h = absurd (omega (arith, h))

  first_held :
      (q : Linked E) (ps : List (ℕ × ℕ)) (n : ℕ) (es : List E)
      → Holds q.element (suc q.tail) es
      → (n ≡ suc q.tail) × (q.tail < q.head) × (total (links_from q.tail) ps ≡ 0)
      → q.tail + length es ≡ q.head
      → (e : E) × (rest : List E) × (es ≡ e ∷ rest)
        × (Consumer.returns (q.element n) ≡ Consumer.returns (some e))
  first_held q ps n [] h r l = absurd (omega (arith, r, l))
  first_held q ps n (e ∷ es) h r l = (e, es, refl, ground (arith, h.0, r.0))

  step_pops :
      (s : System E) (c : Consumer E)
      → s.consumer ≡ c
      → Inv s
      → IsPop c s.waiting (consume c s.list).1
  unfolding consume
  step_pops s Consumer.starts e v = tt
  step_pops s Consumer.compares e v = λ h. no_elements s.waiting (ground (arith, h, v.length_right))
  step_pops s Consumer.spins e v = tt
  step_pops s (Consumer.clears n) e v = tt
  step_pops s (Consumer.takes n) e v =
      first_held s.list s.linking n s.waiting v.holds
        (coe 0 1 (i. HasRead (e i) s.list s.linking) v.read) v.length_right
  step_pops s (Consumer.returns o) e v = tt

  spin_ends :
      (q : Linked E)
      → link_count q.next [] q.tail ≡ 1
      → (consume Consumer.spins q).1 ≢ Consumer.spins
  unfolding consume
  spin_ends q h = ground (arith, h)

  spins_end :
      (s : System E)
      → Inv s
      → s.linking ≡ []
      → s.consumer ≡ Consumer.spins
      → (consume s.consumer s.list).1 ≢ Consumer.spins
  spins_end s v l e =
      let r : HasRead Consumer.spins s.list s.linking =
        coe 0 1 (i. HasRead (e i) s.list s.linking) v.read in
      let r' = coe 0 1 (i. HasRead Consumer.spins s.list (l i)) r in
      coe 1 0 (i. (consume (e i) s.list).1 ≢ Consumer.spins) (spin_ends s.list r'.1)

  -- In every interleaving of the producers with the consumer, the elements popped so far and those of
  -- the abstract queue are the elements pushed, in the order of the exchanges; the next step of the
  -- consumer returns the first element of the abstract queue, and nothing only if that queue is empty;
  -- no step reads or writes a node after it was deleted; and the consumer does not spin on when no
  -- producer is between its two parts.
  pub linked_refines_queue :
      (s : System E)
      → Reach s
      → (s.popped ++ s.waiting ≡ s.pushed)
        × IsPop s.consumer s.waiting (consume s.consumer s.list).1
        × (s.list.faulted ≡ false)
        × (s.linking ≡ []
            → s.consumer ≡ Consumer.spins
            → (consume s.consumer s.list).1 ≢ Consumer.spins)
  linked_refines_queue s r =
      let v = Reach-Inv r in (v.in_order, step_pops s s.consumer refl v, v.safe, spins_end s v)
