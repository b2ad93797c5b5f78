-- ===== src/Sequence/Discards.antt =====
-- include/process/sequence.hpp: what discarding callbacks, one by one or in `finalize`, leaves as it was.
use libprocess.Common.{
  ◌≡◌, refl, sym, ap, ◌∙◌, inl, inr, Bool, true, false, List, [], ◌∷◌, ◌++◌, arith, if◌then◌else◌,
  All, Bool-cases,
}
use libprocess.Sequence.{Item, waits_or_runs, discard, are_pending, finalize}
use libprocess.Sequence.Shape.{
  IsDone, IsWaiting, IsDiscarded, Shape, invoked_of, is_active, is_untested, active_waits,
}
use libprocess.Sequence.System.{passed_of}

-- Items that differ in what was discarded alone.
abbrev pub AreSimilar : Item → Item → Type 0
AreSimilar x y = (y.stage ≡ x.stage) × (y.id ≡ x.id) × (x.has_discard ≡ true → y.has_discard ≡ true)

pub data Similar : List Item → List Item → Type 0 where
  empty : Similar [] []
  alike :
      {x y : Item} {xs ys : List Item} → AreSimilar x y → Similar xs ys → Similar (x ∷ xs) (y ∷ ys)

Similar-refl : (xs : List Item) → Similar xs xs
Similar-refl [] = empty
Similar-refl (x ∷ xs) = alike (refl, refl, λ h. h) (Similar-refl xs)

AreSimilar-IsDone : (x y : Item) → AreSimilar x y → IsDone x → IsDone y
AreSimilar-IsDone x y a (inl e) = inl (a.0 ∙ e)
AreSimilar-IsDone x y a (inr (e, h)) = inr (a.0 ∙ e, a.2 h)

Similar-IsWaiting : {xs ys : List Item} → Similar xs ys → All IsWaiting xs → All IsWaiting ys
Similar-IsWaiting empty w = tt
Similar-IsWaiting (alike e a) w = (e.0 ∙ w.0, Similar-IsWaiting a w.1)

pub Similar-Shape : {xs ys : List Item} → Similar xs ys → Shape xs → Shape ys
Similar-Shape empty h = tt
Similar-Shape (alike {x} {y} e a) (inl (d, h)) = inl (AreSimilar-IsDone x y e d, Similar-Shape a h)
Similar-Shape (alike e a) (inr (r, w)) = inr (rw e.0 r, Similar-IsWaiting a w)

pub Similar-invoked_of : {xs ys : List Item} → Similar xs ys → invoked_of ys ≡ invoked_of xs
Similar-invoked_of empty = refl
Similar-invoked_of (alike e a) = rw (e.0, e.1, Similar-invoked_of a) refl

pub Similar-passed_of : {xs ys : List Item} → Similar xs ys → passed_of ys ≡ passed_of xs
Similar-passed_of empty = refl
Similar-passed_of (alike e a) = rw (e.0, e.1, Similar-passed_of a) refl

pub Similar-IsDiscarded :
    {xs ys : List Item} → Similar xs ys → All IsDiscarded xs → All IsDiscarded ys
Similar-IsDiscarded empty h = tt
Similar-IsDiscarded (alike e a) h =
    (λ w. e.2 (h.0 (sym (ap is_untested e.0) ∙ w)), Similar-IsDiscarded a h.1)

discard-AreSimilar : (b : Bool) (x : Item) → AreSimilar x (if b then discard x else x)
discard-AreSimilar false x = (refl, refl, λ h. h)
discard-AreSimilar true x = elim (Bool-cases (waits_or_runs x.stage)) [
  | inl e ↦ rw e (refl, refl, λ h. refl)
  | inr e ↦ rw e (refl, refl, λ h. h)
]

pub discard-Similar :
    (before : List Item) (x : Item) (later : List Item)
    → Similar (before ++ x ∷ later) (before ++ discard x ∷ later)
discard-Similar [] x later = alike (discard-AreSimilar true x) (Similar-refl later)
discard-Similar (y ∷ before) x later = alike (refl, refl, λ h. h) (discard-Similar before x later)

pub finalize-Similar : (xs : List Item) → Similar xs (finalize xs)
unfolding finalize
finalize-Similar [] = empty
finalize-Similar (x ∷ xs) = alike (discard-AreSimilar (are_pending xs) x) (finalize-Similar xs)

finalize-waiting :
    (xs : List Item) → All IsWaiting xs → (are_pending xs ≡ true) × All IsDiscarded (finalize xs)
unfolding finalize
finalize-waiting [] w = (refl, tt)
finalize-waiting (x ∷ xs) w =
    let rest = finalize-waiting xs w.1 in rw (w.0, rest.0) (refl, (λ k. refl, rest.1))

discard-done : (b : Bool) (x : Item) → IsDone x → IsDiscarded (if b then discard x else x)
discard-done b x d w = absurd (ground (arith, (discard-AreSimilar b x).0))

discard_active :
    (x : Item) (b : Bool)
    → is_active x.stage ≡ true
    → b ≡ true
    → IsDiscarded (if b then discard x else x)
discard_active x b r e = rw e (λ k. rw (active_waits x r) refl)

pub finalize-IsDiscarded : (xs : List Item) → Shape xs → All IsDiscarded (finalize xs)
unfolding finalize
finalize-IsDiscarded [] h = tt
finalize-IsDiscarded (x ∷ xs) (inl (d, h)) =
    (discard-done (are_pending xs) x d, finalize-IsDiscarded xs h)
finalize-IsDiscarded (x ∷ xs) (inr (r, w)) =
    (discard_active x (are_pending xs) r (finalize-waiting xs w).0, (finalize-waiting xs w).1)
