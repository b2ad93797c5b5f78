-- ===== src/EventQueue/Linked/Pops.antt =====
-- src/mpsc_linked_queue.hpp: what the steps of `dequeue` keep.
use libprocess.Common.{
  at, ℕ, suc, ◌≤◌, ◌<◌, ◌≡◌, refl, inl, inr, ◌||◌, Option, none, some, List, [], ◌∷◌, ◌++◌, arith,
  if◌then◌else◌, if_cases, ◌==◌, append-nil, append_assoc, List-cases,
}
use libprocess.EventQueue.Linked.{Linked, Consumer, linked_or, consume}
use libprocess.EventQueue.Linked.System.{
  System, Holds, Holds-at, Inv, HasRead, Ahead, Ahead-moves, rest_of, first_of, after_pop, pop,
}

module _ {E : Type 0} where
  clears-Inv :
      (s : System E) (n : ℕ)
      → s.consumer ≡ Consumer.clears n
      → Inv s
      → Inv (record s {
        list = (consume (Consumer.clears n) s.list).0;
        consumer = Consumer.takes n;
        popped = s.popped ++ [];
      })
  unfolding consume
  clears-Inv s n e v =
      let r = coe 0 1 (i. HasRead (e i) s.list s.linking) v.read in
      record {
        last_made = v.last_made;
        length_right = v.length_right;
        holds = v.holds;
        in_order = ground (arith, v.in_order, append-nil s.popped);
        shape = λ i m k. ground (arith, k, v.shape i m);
        ahead = v.ahead;
        once = λ i. ground (arith, v.once i);
        whole = λ i l k. ground (arith, v.whole i l k, l);
        read = ground (arith, r, v.shape s.list.tail n, v.once s.list.tail);
        gone = v.gone;
        safe = ground (arith, v.safe, v.gone s.list.tail);
      }

  takes_first-Inv :
      (s : System E) (n : ℕ) (x : E) (xs : List E)
      → s.waiting ≡ x ∷ xs
      → HasRead (Consumer.takes n) s.list s.linking
      → Inv s
      → Inv (record s {
        list = (consume (Consumer.takes n) s.list).0;
        consumer = (consume (Consumer.takes n) s.list).1;
        waiting = rest_of s.waiting;
        popped = s.popped ++ first_of s.waiting;
      })
  unfolding consume
  takes_first-Inv s n x xs w r v =
      let held = coe 0 1 (i. Holds s.list.element (suc s.list.tail) (w i)) v.holds in
      let moved = coe 1 0 (i. Holds s.list.element (suc (r.0 i)) xs) held.1 in
      record {
        last_made = v.last_made;
        length_right = ground (arith, v.length_right, w, r);
        holds =
            coe 1 0 (i. Holds (at s.list.element n none) (suc n) (rest_of (w i)))
              (Holds-at s.list.element (suc n) n none xs (inl (omega arith)) moved);
        in_order = ground (arith, v.in_order, w, append_assoc s.popped (x ∷ []) xs);
        shape = v.shape;
        ahead =
            coe 1 0 (i. Ahead (r.0 i) s.list.head s.linking)
              (Ahead-moves s.list.tail s.list.head s.linking v.ahead r.2);
        once = v.once;
        whole = λ i l k. v.whole i (omega (arith, l, r)) k;
        read = λ h. v.whole n (omega (arith, r)) h;
        gone = λ i d. ground (arith, d, v.gone i, r);
        safe = ground (arith, v.safe, v.gone n, r);
      }

  takes-Inv :
      (s : System E) (n : ℕ)
      → s.consumer ≡ Consumer.takes n
      → Inv s
      → Inv (record s {
        list = (consume (Consumer.takes n) s.list).0;
        consumer = (consume (Consumer.takes n) s.list).1;
        waiting = rest_of s.waiting;
        popped = s.popped ++ first_of s.waiting;
      })
  unfolding consume
  takes-Inv s n e v = elim (List-cases s.waiting) [
    | inl w ↦
        absurd
          (ground (arith, coe 0 1 (i. HasRead (e i) s.list s.linking) v.read, w, v.length_right))
    | inr (x, xs, w) ↦
        takes_first-Inv s n x xs w (coe 0 1 (i. HasRead (e i) s.list s.linking) v.read) v
  ]

  read_linked :
      (q : Linked E) (ps : List (ℕ × ℕ)) (d : Consumer E) (o : Option ℕ)
      → q.next q.tail ≡ o
      → HasRead d q ps
      → HasRead (linked_or d o) q ps
  read_linked q ps d none e r = r
  read_linked q ps d (some n) e r = e

  compares_read :
      (q : Linked E) (ps : List (ℕ × ℕ))
      → q.tail ≤ q.head
      → HasRead Consumer.compares q ps
      → HasRead (if q.head == q.tail then Consumer.returns none else Consumer.spins) q ps
  compares_read q ps l r =
      if_cases (λ c. HasRead c q ps) (q.head == q.tail) (λ _. r)
        (λ d. let h : q.tail < q.head = ground (arith, d, l) in (h, r h))

  abbrev touched : Linked E → Linked E
  touched q = record q { faulted = q.faulted || q.deleted q.tail }

  -- The other steps of the consumer change neither the elements nor the links.
  waits-Inv :
      (s : System E) (c : Consumer E)
      → HasRead c (touched s.list) s.linking
      → Inv s
      → Inv (record s { list = touched s.list; consumer = c; popped = s.popped ++ [] })
  waits-Inv s c r v = record {
    last_made = v.last_made;
    length_right = v.length_right;
    holds = v.holds;
    in_order = ground (arith, v.in_order, append-nil s.popped);
    shape = v.shape;
    ahead = v.ahead;
    once = v.once;
    whole = v.whole;
    read = r;
    gone = v.gone;
    safe = ground (arith, v.safe, v.gone s.list.tail);
  }

  moves-Inv :
      (s : System E) (c : Consumer E)
      → HasRead c s.list s.linking
      → Inv s
      → Inv (record s { consumer = c; popped = s.popped ++ [] })
  moves-Inv s c r v = record {
    last_made = v.last_made;
    length_right = v.length_right;
    holds = v.holds;
    in_order = ground (arith, v.in_order, append-nil s.popped);
    shape = v.shape;
    ahead = v.ahead;
    once = v.once;
    whole = v.whole;
    read = r;
    gone = v.gone;
    safe = v.safe;
  }

  pub consumes-Inv :
      (s : System E) (c : Consumer E)
      → s.consumer ≡ c
      → Inv s
      → Inv (record s {
        list = (consume c s.list).0;
        consumer = (consume c s.list).1;
        waiting = after_pop c s.waiting;
        popped = s.popped ++ pop c s.waiting;
      })
  unfolding consume
  consumes-Inv s Consumer.starts e v =
      let r : HasRead Consumer.starts s.list s.linking =
        coe 0 1 (i. HasRead (e i) s.list s.linking) v.read in
      waits-Inv s (linked_or Consumer.compares (s.list.next s.list.tail))
        (read_linked (touched s.list) s.linking Consumer.compares (s.list.next s.list.tail) refl r)
        v
  consumes-Inv s Consumer.compares e v =
      let r : HasRead Consumer.compares s.list s.linking =
        coe 0 1 (i. HasRead (e i) s.list s.linking) v.read in
      moves-Inv s _ (compares_read s.list s.linking (omega (arith, v.length_right)) r) v
  consumes-Inv s Consumer.spins e v =
      let r : HasRead Consumer.spins s.list s.linking =
        coe 0 1 (i. HasRead (e i) s.list s.linking) v.read in
      waits-Inv s (linked_or Consumer.spins (s.list.next s.list.tail))
        (read_linked (touched s.list) s.linking Consumer.spins (s.list.next s.list.tail) refl r) v
  consumes-Inv s (Consumer.clears n) e v = clears-Inv s n e v
  consumes-Inv s (Consumer.takes n) e v = takes-Inv s n e v
  consumes-Inv s (Consumer.returns o) e v =
      moves-Inv s (Consumer.returns o) (coe 0 1 (i. HasRead (e i) s.list s.linking) v.read) v

  pub calls-Inv :
      (s : System E) (o : Option E)
      → s.consumer ≡ Consumer.returns o
      → Inv s
      → Inv (record s { consumer = Consumer.starts })
  calls-Inv s o e v = record {
    last_made = v.last_made;
    length_right = v.length_right;
    holds = v.holds;
    in_order = v.in_order;
    shape = v.shape;
    ahead = v.ahead;
    once = v.once;
    whole = v.whole;
    read = coe 0 1 (i. HasRead (e i) s.list s.linking) v.read;
    gone = v.gone;
    safe = v.safe;
  }
