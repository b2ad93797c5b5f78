-- ===== src/Sequence/Order.antt =====
-- include/process/sequence.hpp: one callback at a time, in the order in which they were added.
use libprocess.Common.{
  ℕ, ◌≤◌, arith, length, ◌≡◌, refl, sym, ap, ◌∙◌, inl, inr, Bool, true, false, List, [], ◌∷◌, ◌++◌,
  if◌then◌else◌, All, All-append, All-before, All-after, All-middle, Bool-cases, append-nil,
}
use mathlib.Core.Path.{subst}
use libprocess.Sequence.{Stage, Item, notified, invoke, completed, is_last_ready, add, discard}
use libprocess.Sequence.System.{
  System, passed_of, add_callback, test_callback, invoke_callback, complete_callback,
  discard_future, end_sequence, Step, adds, tests, invokes, completes, discards, ends, Reach, here,
  next,
}
use libprocess.Sequence.Shape.{
  IsDiscarded, Shape, invoked_of, invoked_of-append, passed_of-append, waiting-Quiet,
  set_notifier-Quiet, set_notifier-Shape, set_notifier-IsDiscarded, at_work-Middle, add-Shape,
  Shape-passed_of,
}
use libprocess.Sequence.Discards.{
  Similar, Similar-Shape, Similar-invoked_of, Similar-passed_of, Similar-IsDiscarded,
  discard-Similar, finalize-Similar, finalize-IsDiscarded,
}

record Inv (s : System) : Type 0 where
  shape : Shape s.items
  in_order : invoked_of s.items ≡ s.invoked
  at_end : s.late ++ (if s.ended then passed_of s.items else []) ≡ s.passed_at_end
  discarded : s.ended ≡ true → All IsDiscarded s.items
  few : length s.passed_at_end ≤ 1
  none_before : s.ended ≡ false → s.passed_at_end ≡ []

if_same :
    (b : Bool) (xs ys : List ℕ)
    → (b ≡ true → xs ≡ ys)
    → (if b then xs else []) ≡ (if b then ys else [])
if_same true xs ys h = h refl
if_same false xs ys h = refl

-- The callbacks behind those that are done take a step that invokes and passes none.
quiet-Inv :
    (before xs ys : List Item) (s : System)
    → s.items ≡ before ++ xs
    → Shape (before ++ ys)
    → invoked_of ys ≡ invoked_of xs
    → (s.ended ≡ true → passed_of ys ≡ passed_of xs)
    → (s.ended ≡ true → All IsDiscarded xs → All IsDiscarded ys)
    → Inv s
    → Inv (record s { items = before ++ ys })
quiet-Inv before xs ys s e shape i p d v = record {
  shape = shape;
  in_order =
      invoked_of-append before ys
      ∙ ap (λ u. invoked_of before ++ u) i
      ∙ sym (invoked_of-append before xs)
      ∙ sym (ap invoked_of e)
      ∙ v.in_order;
  at_end =
      ap (λ u. s.late ++ u)
        (if_same s.ended _ _ (λ h.
          passed_of-append before ys
          ∙ ap (λ u. passed_of before ++ u) (p h)
          ∙ sym (passed_of-append before xs)
          ∙ sym (ap passed_of e)))
      ∙ v.at_end;
  discarded = λ h.
      (let all = subst (All IsDiscarded) e (v.discarded h) in
        All-append IsDiscarded before ys (All-before IsDiscarded before xs all)
          (d h (All-after IsDiscarded before xs all)));
  few = v.few;
  none_before = v.none_before;
}

not_discarded : (x : Item) → x.stage ≡ Stage.woken → x.has_discard ≡ false → IsDiscarded x → ⊥
not_discarded x r h d = let t = d (rw r refl) in absurd cc

tests-Inv :
    (before : List Item) (x : Item) (later : List Item) (s : System)
    → s.items ≡ before ++ x ∷ later
    → x.stage ≡ Stage.woken
    → Inv s
    → Inv (test_callback before x later s)
unfolding test_callback notified
tests-Inv before x later s e r v =
    let m = at_work-Middle before x later (rw r refl) (subst Shape e v.shape) in
    let q = waiting-Quiet later m.waits in
    let n = set_notifier-Quiet later m.waits in
    elim (Bool-cases x.has_discard) [
      | inl h ↦
          quiet-Inv before (x ∷ later) _ s e
            (m.fill _ (rw h (inl (inr (refl, refl), set_notifier-Shape later m.waits))))
            (rw (h, r) (n.0 ∙ sym q.0)) (λ _. rw (h, r) (n.1 ∙ sym q.1))
            (λ _ a. rw h (λ k. refl, set_notifier-IsDiscarded later m.waits a.1)) v
      | inr h ↦
          quiet-Inv before (x ∷ later) _ s e (m.fill _ (rw h (inr (refl, m.waits))))
            (rw (h, r) refl)
            (λ l. absurd (
              not_discarded x r h
                (All-middle IsDiscarded before x later
                  (subst (All IsDiscarded) e (v.discarded l))).0))
            (λ _ a. rw h (λ k. absurd cc, a.1)) v
    ]

completes-Inv :
    (before : List Item) (x : Item) (later : List Item) (s : System)
    → s.items ≡ before ++ x ∷ later
    → x.stage ≡ Stage.running
    → Inv s
    → Inv (complete_callback before x later s)
unfolding complete_callback completed
completes-Inv before x later s e r v =
    let m = at_work-Middle before x later (rw r refl) (subst Shape e v.shape) in
    let q = waiting-Quiet later m.waits in
    let n = set_notifier-Quiet later m.waits in
    quiet-Inv before (x ∷ later) _ s e (m.fill _ (inl (inl refl, set_notifier-Shape later m.waits)))
      (rw (r, n.0, q.0) refl) (λ _. rw (r, n.1, q.1) refl)
      (λ _ a. (λ k. absurd cc, set_notifier-IsDiscarded later m.waits a.1)) v

invoked_late :
    (b : Bool) (late ids at_end old new : List ℕ)
    → old ≡ ids
    → new ≡ []
    → late ++ (if b then old else []) ≡ at_end
    → (late ++ (if b then ids else [])) ++ (if b then new else []) ≡ at_end
invoked_late true late ids at_end old new e n h =
    ap (λ u. (late ++ ids) ++ u) n ∙ append-nil (late ++ ids) ∙ ap (λ u. late ++ u) (sym e) ∙ h
invoked_late false late ids at_end old new e n h = append-nil (late ++ []) ∙ h

invokes-Inv :
    (before : List Item) (x : Item) (later : List Item) (s : System)
    → s.items ≡ before ++ x ∷ later
    → x.stage ≡ Stage.passed
    → Inv s
    → Inv (invoke_callback before x later s)
unfolding invoke_callback
invokes-Inv before x later s e r v =
    let m = at_work-Middle before x later (rw r refl) (subst Shape e v.shape) in
    let q = waiting-Quiet later m.waits in
    record {
      shape = m.fill _ (inr (refl, m.waits));
      in_order =
          invoked_of-append before (invoke x ∷ later)
          ∙ ap (λ u. invoked_of before ++ x.id ∷ u) q.0
          ∙ ap (λ u. u ++ x.id ∷ [])
              (sym (append-nil (invoked_of before))
                ∙ ap (λ u. invoked_of before ++ u) (sym (rw r q.0))
                ∙ sym (invoked_of-append before (x ∷ later))
                ∙ sym (ap invoked_of e)
                ∙ v.in_order);
      at_end =
          invoked_late s.ended s.late (x.id ∷ []) s.passed_at_end _ _
            (ap passed_of e ∙ passed_of-append before (x ∷ later) ∙ rw (m.none_passed, r, q.1) refl)
            (passed_of-append before (invoke x ∷ later) ∙ rw (m.none_passed, q.1) refl) v.at_end;
      discarded = λ h.
          (let all = subst (All IsDiscarded) e (v.discarded h) in
            All-append IsDiscarded before _ (All-before IsDiscarded before (x ∷ later) all)
              (λ k. absurd cc, (All-after IsDiscarded before (x ∷ later) all).1));
      few = v.few;
      none_before = v.none_before;
    }

adds-Inv : (s : System) → s.ended ≡ false → Inv s → Inv (add_callback s)
unfolding add_callback add
adds-Inv s e v = record {
  shape = add-Shape s.items _ refl v.shape;
  in_order =
      invoked_of-append s.items _
      ∙ elim (Bool-cases (is_last_ready s.items)) [
        | inl x ↦ rw x (append-nil _)
        | inr x ↦ rw x (append-nil _)
      ]
      ∙ v.in_order;
  at_end = rw e (rw e at v.at_end);
  discarded = λ h. absurd cc;
  few = v.few;
  none_before = v.none_before;
}

-- Items that differ in discards alone are as good.
similar-Inv :
    (s : System) (xs : List Item) → Similar s.items xs → Inv s → Inv (record s { items = xs })
similar-Inv s xs a v = record {
  shape = Similar-Shape a v.shape;
  in_order = Similar-invoked_of a ∙ v.in_order;
  at_end = rw (Similar-passed_of a) v.at_end;
  discarded = λ h. Similar-IsDiscarded a (v.discarded h);
  few = v.few;
  none_before = v.none_before;
}

ends-Inv : (s : System) → s.ended ≡ false → Inv s → Inv (end_sequence s)
unfolding end_sequence
ends-Inv s e v =
    let a = finalize-Similar s.items in
    record {
      shape = Similar-Shape a v.shape;
      in_order = Similar-invoked_of a ∙ v.in_order;
      at_end =
          rw (Similar-passed_of a)
            (ap (λ u. u ++ passed_of s.items) (sym (append-nil s.late) ∙ (rw e at v.at_end)));
      few = rw (v.none_before e) (Shape-passed_of s.items v.shape);
      none_before = λ h. absurd cc;
      discarded = λ h. finalize-IsDiscarded s.items v.shape;
    }

step-Inv : {s t : System} → Step s t → Inv s → Inv t
unfolding discard_future
step-Inv {s} (adds e) v = adds-Inv s e v
step-Inv {s} (tests before x later e r) v = tests-Inv before x later s e r v
step-Inv {s} (invokes before x later e r) v = invokes-Inv before x later s e r v
step-Inv {s} (completes before x later e r) v = completes-Inv before x later s e r v
step-Inv {s} (discards before x later e) v =
    similar-Inv s _
      (subst (λ xs. Similar xs (before ++ discard x ∷ later)) (sym e)
        (discard-Similar before x later))
      v
step-Inv {s} (ends e) v = ends-Inv s e v

reach-Inv : {s : System} → Reach s → Inv s
reach-Inv here = record {
  shape = tt;
  in_order = refl;
  at_end = refl;
  discarded = λ h. tt;
  few = omega arith;
  none_before = λ h. refl;
}
reach-Inv (next r h) = step-Inv h (reach-Inv r)

-- In every history the callbacks are, in the order in which they were added, first those that are done, having been invoked, or
-- skipped on a discard, and then, unless all are done, one that is notified, tested or runs, and those that wait; those
-- invoked are the ones that are done and not skipped and the one that runs, in that order; and the callbacks that were
-- invoked after `finalize` and the one that still may be are those, one at most, that had passed the test of their
-- discard when it came.
pub one_callback_runs :
    {s : System}
    → Reach s
    → Shape s.items
      × (s.invoked ≡ invoked_of s.items)
      × (s.late ++ (if s.ended then passed_of s.items else []) ≡ s.passed_at_end)
      × (length s.passed_at_end ≤ 1)
one_callback_runs r = let v = reach-Inv r in (v.shape, sym v.in_order, v.at_end, v.few)
