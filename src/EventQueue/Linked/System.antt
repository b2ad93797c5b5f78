-- ===== src/EventQueue/Linked/System.antt =====
-- src/mpsc_linked_queue.hpp: a linked list with its threads, beside the abstract queue that it stands
-- for.
use libprocess.Common.{
  at, ℕ, suc, ◌+◌, ◌≤◌, ◌<◌, ◌≡◌, refl, ◌⊎◌, inl, inr, true, false, Option, none, some, List, [],
  ◌∷◌, ◌++◌, arith, if◌then◌else◌, ◌==◌, All, total, length,
}
use libprocess.EventQueue.Linked.{Linked, new_list, exchange, link, Consumer, consume}

-- The list with its threads: the consumer, and for each producer between its two parts the nodes that
-- it will link. `waiting` is the abstract queue.
pub record System (E : Type 0) : Type 0 where
  pub list : Linked E
  pub consumer : Consumer E
  pub linking : List (ℕ × ℕ)
  pub waiting : List E
  pub pushed : List E
  pub popped : List E

abbrev pub links_from : ℕ → ℕ × ℕ → ℕ
links_from i (old, new) = if old == i then 1 else 0

abbrev pub is_linked : Option ℕ → ℕ
is_linked none = 0
is_linked (some n) = 1

-- How often a node is linked or about to be.
abbrev pub link_count : (ℕ → Option ℕ) → List (ℕ × ℕ) → ℕ → ℕ
link_count f ps i = total (links_from i) ps + is_linked (f i)

-- Each waiting link joins a node from the tail on to the node after it.
abbrev pub Ahead : ℕ → ℕ → List (ℕ × ℕ) → Type 0
Ahead tail head ps = All (λ p. (p.1 ≡ suc p.0) × (tail ≤ p.0) × (p.0 < head)) ps

-- No producer links a node from `lo` on.
pub none-Ahead :
    (tail head i : ℕ) (ps : List (ℕ × ℕ))
    → Ahead tail head ps
    → head ≤ i
    → total (links_from i) ps ≡ 0
none-Ahead tail head i [] a h = refl
none-Ahead tail head i ((o, n) ∷ ps) a h = ground (arith, none-Ahead tail head i ps a.1 h)

pub Ahead-grows :
    (tail head made : ℕ) (ps : List (ℕ × ℕ))
    → made ≡ suc head
    → Ahead tail head ps
    → Ahead tail made ps
Ahead-grows tail head made [] m a = tt
Ahead-grows tail head made ((o, n) ∷ ps) m a = (omega arith, Ahead-grows tail head made ps m a.1)

-- Once no producer links the tail, the tail can move on.
pub Ahead-moves :
    (tail head : ℕ) (ps : List (ℕ × ℕ))
    → Ahead tail head ps
    → total (links_from tail) ps ≡ 0
    → Ahead (suc tail) head ps
Ahead-moves tail head [] a h = tt
Ahead-moves tail head ((o, n) ∷ ps) a h =
    (ground arith, Ahead-moves tail head ps a.1 (ground arith))

module _ {E : Type 0} where
  abbrev pub start : System E
  start = record {
    list = new_list;
    consumer = Consumer.returns none;
    linking = [];
    waiting = [];
    pushed = [];
    popped = [];
  }

  abbrev pub rest_of : List E → List E
  rest_of [] = []
  rest_of (e ∷ es) = es

  abbrev pub first_of : List E → List E
  first_of [] = []
  first_of (e ∷ es) = e ∷ []

  -- The abstract queue beside a step of the consumer.
  abbrev pub after_pop : Consumer E → List E → List E
  after_pop (Consumer.takes n) es = rest_of es
  after_pop c es = es

  abbrev pub pop : Consumer E → List E → List E
  pop (Consumer.takes n) es = first_of es
  pop c es = []

  pub data Step (s : System E) : System E → Type 0 where
    exchanges :
        (e : E)
        → Step s (record s {
          list = (exchange e s.list).0;
          linking = s.linking ++ ((exchange e s.list).1, (exchange e s.list).2) ∷ [];
          waiting = s.waiting ++ e ∷ [];
          pushed = s.pushed ++ e ∷ [];
        })
    links :
        (before : List (ℕ × ℕ)) (old new : ℕ) (behind : List (ℕ × ℕ))
        → s.linking ≡ before ++ (old, new) ∷ behind
        → Step s (record s { list = link old new s.list; linking = before ++ behind })
    calls :
        (e : Option E)
        → s.consumer ≡ Consumer.returns e
        → Step s (record s { consumer = Consumer.starts })
    consumes : Step s (record s {
      list = (consume s.consumer s.list).0;
      consumer = (consume s.consumer s.list).1;
      waiting = after_pop s.consumer s.waiting;
      popped = s.popped ++ pop s.consumer s.waiting;
    })

  pub data Reach : System E → Type 0 where
    here : Reach start
    next : {s t : System E} → Reach s → Step s t → Reach t

  -- The nodes from `i` on hold these elements.
  abbrev pub Holds : (ℕ → Option E) → ℕ → List E → Type 0
  Holds f i [] = Unit {0}
  Holds f i (e ∷ es) = (f i ≡ some e) × Holds f (suc i) es

  pub Holds-at :
      (f : ℕ → Option E) (i j : ℕ) (v : Option E) (es : List E)
      → (j < i) ⊎ (i + length es ≤ j)
      → Holds f i es
      → Holds (at f j v) i es
  Holds-at f i j v [] h k = tt
  Holds-at f i j v (e ∷ es) (inl h) k =
      (ground (arith, k.0), Holds-at f (suc i) j v es (inl (omega arith)) k.1)
  Holds-at f i j v (e ∷ es) (inr h) k =
      (ground (arith, k.0), Holds-at f (suc i) j v es (inr (omega arith)) k.1)

  pub Holds-snoc :
      (f : ℕ → Option E) (i j : ℕ) (e : E) (es : List E)
      → i + length es ≡ j
      → Holds f i es
      → Holds (at f j (some e)) i (es ++ e ∷ [])
  Holds-snoc f i j e [] h k = (ground arith, tt)
  Holds-snoc f i j e (x ∷ es) h k =
      (ground (arith, k.0), Holds-snoc f (suc i) j e es (omega arith) k.1)

  -- What the consumer has read is the link of the tail.
  abbrev pub HasRead : Consumer E → Linked E → List (ℕ × ℕ) → Type 0
  HasRead (Consumer.clears n) q ps = q.next q.tail ≡ some n
  HasRead (Consumer.takes n) q ps =
      (n ≡ suc q.tail) × (q.tail < q.head) × (total (links_from q.tail) ps ≡ 0)
  HasRead Consumer.spins q ps = (q.tail < q.head) × (link_count q.next ps q.tail ≡ 1)
  HasRead _ q ps = q.tail < q.head → link_count q.next ps q.tail ≡ 1

  pub record Inv (s : System E) : Type 0 where
    pub last_made : s.list.made ≡ suc s.list.head
    pub length_right : s.list.tail + length s.waiting ≡ s.list.head
    pub holds : Holds s.list.element (suc s.list.tail) s.waiting
    pub in_order : s.popped ++ s.waiting ≡ s.pushed
    pub shape : (i n : ℕ) → s.list.next i ≡ some n → (n ≡ suc i) × (i < s.list.head)
    pub ahead : Ahead s.list.tail s.list.head s.linking
    pub once : (i : ℕ) → link_count s.list.next s.linking i ≤ 1
    pub whole : (i : ℕ) → s.list.tail < i → i < s.list.head → link_count s.list.next s.linking i ≡ 1
    pub read : HasRead s.consumer s.list s.linking
    pub gone : (i : ℕ) → s.list.deleted i ≡ true → i < s.list.tail
    pub safe : s.list.faulted ≡ false

  pub start-Inv : Inv start
  start-Inv = record {
    last_made = refl;
    length_right = refl;
    holds = tt;
    in_order = refl;
    shape = λ i n e. absurd (cc);
    ahead = tt;
    once = λ i. omega arith;
    whole = λ i h k. omega arith;
    read = λ h. omega arith;
    gone = λ i e. absurd (cc);
    safe = refl;
  }
