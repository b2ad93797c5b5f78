-- ===== src/EventQueue/Linked/Links.antt =====
-- src/mpsc_linked_queue.hpp: what the two parts of `enqueue` keep.
use libprocess.Common.{
  at, ℕ, suc, ◌≤◌, ◌<◌, ◌≡◌, refl, Option, none, some, List, [], ◌∷◌, ◌++◌, arith, if◌then◌else◌,
  ◌==◌, All-append, All-middle, total-append, total-middle, length-append, append_assoc,
}
use libprocess.EventQueue.Linked.{Linked, exchange, link, Consumer}
use libprocess.EventQueue.Linked.System.{
  System, Holds-snoc, Inv, HasRead, Ahead, none-Ahead, Ahead-grows, link_count, links_from,
  is_linked,
}

unlinked :
    (o : Option ℕ) (i head : ℕ)
    → ((n : ℕ) → o ≡ some n → (n ≡ suc i) × (i < head))
    → head ≤ i
    → is_linked o ≡ 0
unlinked none i head h k = refl
unlinked (some n) i head h k = ground (arith, h n)

-- A link is made where one was to be made.
link-link_count :
    (f : ℕ → Option ℕ) (before behind : List (ℕ × ℕ)) (old new i : ℕ)
    → link_count f (before ++ (old, new) ∷ behind) old ≤ 1
    → link_count (at f old (some new)) (before ++ behind) i
      ≡ link_count f (before ++ (old, new) ∷ behind) i
link-link_count f before behind old new i h = ground (
  arith,
  total-middle (links_from i) before (old, new) behind,
  total-middle (links_from old) before (old, new) behind,
  h,
)

module _ {E : Type 0} where
  -- The link counts after an exchange: the old head gets one.
  exchange-link_count :
      (s : System E) (e : E) (i : ℕ)
      → Inv s
      → link_count
          (exchange e s.list).0.next
          (s.linking ++ ((exchange e s.list).1, (exchange e s.list).2) ∷ [])
          i
        ≡ (if s.list.head == i then 1 else link_count s.list.next s.linking i)
  unfolding exchange
  exchange-link_count s e i v =
      let t = total-append (links_from i) s.linking ((s.list.head, s.list.made) ∷ []) in
      let z = none-Ahead s.list.tail s.list.head i s.linking v.ahead in
      let u = unlinked (s.list.next i) i s.list.head (v.shape i) in
      ground (arith, t, z, u, v.last_made)

  exchange-HasRead :
      (c : Consumer E) (s : System E) (e : E)
      → Inv s
      → HasRead c s.list s.linking
      → HasRead c
          (exchange e s.list).0
          (s.linking ++ ((exchange e s.list).1, (exchange e s.list).2) ∷ [])
  unfolding exchange
  exchange-HasRead (Consumer.clears n) s e v r =
      ground (arith, r, v.shape s.list.tail n, v.last_made)
  exchange-HasRead (Consumer.takes n) s e v r = ground (
    arith,
    r,
    v.last_made,
    total-append (links_from s.list.tail) s.linking ((s.list.head, s.list.made) ∷ []),
  )
  exchange-HasRead Consumer.spins s e v r =
      ground (arith, r, v.last_made, exchange-link_count s e s.list.tail v)
  exchange-HasRead Consumer.starts s e v r =
      λ h. ground (arith, r, h, v.last_made, v.length_right, exchange-link_count s e s.list.tail v)
  exchange-HasRead Consumer.compares s e v r =
      λ h. ground (arith, r, h, v.last_made, v.length_right, exchange-link_count s e s.list.tail v)
  exchange-HasRead (Consumer.returns o) s e v r =
      λ h. ground (arith, r, h, v.last_made, v.length_right, exchange-link_count s e s.list.tail v)

  pub exchanges-Inv :
      (s : System E) (e : E)
      → Inv s
      → Inv (record s {
        list = (exchange e s.list).0;
        linking = s.linking ++ ((exchange e s.list).1, (exchange e s.list).2) ∷ [];
        waiting = s.waiting ++ e ∷ [];
        pushed = s.pushed ++ e ∷ [];
      })
  unfolding exchange
  exchanges-Inv s e v = record {
    last_made = omega (arith, v.last_made);
    length_right = omega (arith, v.length_right, length-append s.waiting (e ∷ []), v.last_made);
    holds =
        Holds-snoc s.list.element (suc s.list.tail) s.list.made e s.waiting
          (omega (arith, v.length_right, v.last_made)) v.holds;
    in_order = ground (arith, v.in_order, append_assoc s.popped s.waiting (e ∷ []));
    shape = λ i n h. ground (arith, h, v.shape i n, v.last_made);
    ahead =
        All-append _ s.linking ((s.list.head, s.list.made) ∷ [])
          (Ahead-grows s.list.tail s.list.head s.list.made s.linking v.last_made v.ahead)
          (
            (omega (arith, v.last_made), omega (arith, v.length_right), omega (arith, v.last_made)),
            tt,
          );
    once = λ i. ground (arith, exchange-link_count s e i v, v.once i);
    whole = λ i h k. ground (arith, h, k, exchange-link_count s e i v, v.whole i, v.last_made);
    read = exchange-HasRead s.consumer s e v v.read;
    gone = v.gone;
    safe = v.safe;
  }

  link-HasRead :
      (c : Consumer E) (q : Linked E) (before behind : List (ℕ × ℕ)) (old new : ℕ)
      → link_count q.next (before ++ (old, new) ∷ behind) old ≤ 1
      → HasRead c q (before ++ (old, new) ∷ behind)
      → HasRead c (link old new q) (before ++ behind)
  unfolding link
  link-HasRead (Consumer.clears n) q before behind old new h r =
      ground (arith, r, h, total-middle (links_from old) before (old, new) behind)
  link-HasRead (Consumer.takes n) q before behind old new h r =
      ground (arith, r, total-middle (links_from q.tail) before (old, new) behind)
  link-HasRead Consumer.spins q before behind old new h r =
      ground (arith, r, link-link_count q.next before behind old new q.tail h)
  link-HasRead Consumer.starts q before behind old new h r =
      λ k. ground (arith, r, k, link-link_count q.next before behind old new q.tail h)
  link-HasRead Consumer.compares q before behind old new h r =
      λ k. ground (arith, r, k, link-link_count q.next before behind old new q.tail h)
  link-HasRead (Consumer.returns o) q before behind old new h r =
      λ k. ground (arith, r, k, link-link_count q.next before behind old new q.tail h)

  pub links-Inv :
      (s : System E) (before : List (ℕ × ℕ)) (old new : ℕ) (behind : List (ℕ × ℕ))
      → s.linking ≡ before ++ (old, new) ∷ behind
      → Inv s
      → Inv (record s { list = link old new s.list; linking = before ++ behind })
  unfolding link
  links-Inv s before old new behind e v =
      let h = coe 0 1 (i. (k : ℕ) → link_count s.list.next (e i) k ≤ 1) v.once in
      let w =
        coe 0 1
          (i. (k : ℕ) → s.list.tail < k → k < s.list.head → link_count s.list.next (e i) k ≡ 1)
          v.whole in
      let a =
        All-middle _ before (old, new) behind
          (coe 0 1 (i. Ahead s.list.tail s.list.head (e i)) v.ahead) in
      let r = coe 0 1 (i. HasRead s.consumer s.list (e i)) v.read in
      record {
        last_made = v.last_made;
        length_right = v.length_right;
        holds = v.holds;
        in_order = v.in_order;
        shape = λ i n k. ground (arith, k, a.0, v.shape i n);
        ahead = a.1;
        once =
            λ i. ground (arith, h i, link-link_count s.list.next before behind old new i (h old));
        whole = λ i l k.
            ground (arith, w i l k, link-link_count s.list.next before behind old new i (h old));
        read = link-HasRead s.consumer s.list before behind old new (h old) r;
        gone = v.gone;
        safe = ground (arith, v.safe, v.gone old, a.0);
      }
