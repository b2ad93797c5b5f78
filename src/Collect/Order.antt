-- ===== src/Collect/Order.antt =====
-- include/process/collect.hpp: what `collect` gives, in whatever order the futures complete.
use libprocess.Common.{
  ℕ, suc, ◌+◌, ◌<◌, ◌≡◌, ◌≢◌, refl, ap, true, false, Option, none, some, List, [], ◌∷◌, ◌++◌, arith,
  length, length-append, total, total-append,
}
use libprocess.Collect.{
  Completion, Fate, Collecting, values, fate_of, collect, waited, discard_all, abandon_all,
}

module _ {T E : Type 0} where
  -- A message is handled, in any order; or the consumer discards, or a future is abandoned.
  pub data Step (p : Collecting T E) : Collecting T E → Type 0 where
    delivers :
        (left : List (Completion T E)) (c : Completion T E) (right : List (Completion T E))
        → p.waiting ≡ left ++ c ∷ right
        → Step p (waited c (record p { waiting = left ++ right }))
    discards : Step p (discard_all p)
    abandons : Step p (abandon_all p)

  pub data Reach (futures : List (Completion T E)) : Collecting T E → Type 0 where
    here : Reach futures (collect futures)
    next : {p q : Collecting T E} → Reach futures p → Step p q → Reach futures q

  abbrev pub bad : Completion T E → ℕ
  bad (Completion.ready t) = 0
  bad _ = 1

  -- What the fate of the promise says of the futures.
  abbrev pub IsRight : List (Completion T E) → Fate T E → Type 0
  IsRight cs (Fate.set_to ts) = values cs ≡ some ts
  IsRight cs (Fate.failed_with r) = 0 < total bad cs
  IsRight cs Fate.aborts = ⊥
  IsRight cs _ = Unit

  values_of_good : (cs : List (Completion T E)) → total bad cs ≡ 0 → values cs ≢ none
  unfolding values
  values_of_good [] h = ground arith
  values_of_good (Completion.ready t ∷ cs) h = ground (arith, values_of_good cs (omega (arith, h)))
  values_of_good (Completion.failed e ∷ cs) h = ground arith
  values_of_good (Completion.discarded ∷ cs) h = ground arith

  fate_of-IsRight :
      (cs : List (Completion T E)) → total bad cs ≡ 0 → IsRight cs (fate_of (values cs))
  fate_of-IsRight cs h = ground (arith, values_of_good cs h)

  record Inv (futures : List (Completion T E)) (p : Collecting T E) : Type 0 where
    same : p.futures ≡ futures
    right : IsRight p.futures p.promise
    counted : p.terminated ≡ false → p.ready + length p.waiting ≡ length p.futures
    good : p.terminated ≡ false → total bad p.waiting ≡ total bad p.futures
    open_end : p.terminated ≡ false → p.waiting ≢ []
    settled : p.terminated ≡ true → p.promise ≢ Fate.pending

  collect-Inv : (futures : List (Completion T E)) → Inv futures (collect futures)
  unfolding collect
  collect-Inv [] = unfold values in ground arith
  collect-Inv (c ∷ cs) = ground arith

  fate_of-settled : (o : Option (List T)) → fate_of {E = E} o ≢ Fate.pending
  fate_of-settled none = ground arith
  fate_of-settled (some ts) = ground arith

  none_bad : (cs : List (Completion T E)) → length cs ≡ 0 → total bad cs ≡ 0
  none_bad [] h = refl
  none_bad (c ∷ cs) h = ground (arith, h)

  -- One message less.
  handled-Inv :
      (fs rest : List (Completion T E)) (c : Completion T E) (p : Collecting T E)
      → length p.waiting ≡ suc (length rest)
      → total bad p.waiting ≡ bad c + total bad rest
      → Inv fs p
      → Inv fs (waited c (record p { waiting = rest }))
  unfolding waited
  handled-Inv fs rest (Completion.ready t) p size sum v =
      let clean = none_bad rest in
      let given = fate_of-IsRight p.futures in
      let settles = fate_of-settled (values p.futures) in ground (arith, clean, given, settles)
  handled-Inv fs rest (Completion.failed m) p size sum v = ground (arith, size, sum)
  handled-Inv fs rest Completion.discarded p size sum v = ground (arith, size, sum)

  delivers-Inv :
      (fs left right : List (Completion T E)) (c : Completion T E) (p : Collecting T E)
      → p.waiting ≡ left ++ c ∷ right
      → Inv fs p
      → Inv fs (waited c (record p { waiting = left ++ right }))
  delivers-Inv fs left right c p e v =
      let size = (length-append left (c ∷ right)) in
      let size' = (length-append left right) in
      let sum = (total-append bad left (c ∷ right)) in
      let sum' = (total-append bad left right) in
      let n = ap length e in
      let w = ap (total bad) e in
      handled-Inv fs (left ++ right) c p (omega (arith, n, size, size'))
        (omega (arith, w, sum, sum')) v

  discards-Inv :
      (futures : List (Completion T E)) (p : Collecting T E)
      → Inv futures p
      → Inv futures (discard_all p)
  unfolding discard_all
  discards-Inv fs p v = ground arith

  abandons-Inv :
      (futures : List (Completion T E)) (p : Collecting T E)
      → Inv futures p
      → Inv futures (abandon_all p)
  unfolding abandon_all
  abandons-Inv fs p v = ground arith

  step-Inv : (fs : List (Completion T E)) (p q : Collecting T E) → Step p q → Inv fs p → Inv fs q
  step-Inv fs p _ (delivers left c right e) v = delivers-Inv fs left right c p e v
  step-Inv fs p _ discards v = discards-Inv fs p v
  step-Inv fs p _ abandons v = abandons-Inv fs p v

  reach-Inv : (fs : List (Completion T E)) (p : Collecting T E) → Reach fs p → Inv fs p
  reach-Inv fs _ here = collect-Inv fs
  reach-Inv fs _ (next {p = p} {q = q} r e) = step-Inv fs p q e (reach-Inv fs p r)

  settles :
      (fs : List (Completion T E)) (p : Collecting T E)
      → Inv fs p
      → p.waiting ≡ []
      → p.promise ≢ Fate.pending
  settles fs p v e = ground (arith, v.open_end, v.settled)

  -- In whatever order the futures complete, and whether the consumer discards or a future is
  -- abandoned: if the result is set, it holds the values of all the futures, in the order of the
  -- list; if it fails, some future failed or was discarded; the process never takes the value of a
  -- future that has none; and the result is not pending once every message has been handled.
  pub collect_settles :
      (fs : List (Completion T E)) (p : Collecting T E)
      → Reach fs p
      → IsRight fs p.promise × (p.waiting ≡ [] → p.promise ≢ Fate.pending)
  collect_settles fs p r =
      let v = reach-Inv fs p r in
      (coe 0 1 (i. IsRight (v.same i) p.promise) v.right, settles fs p v)
