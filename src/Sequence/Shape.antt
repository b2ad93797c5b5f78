-- ===== src/Sequence/Shape.antt =====
-- include/process/sequence.hpp: the callbacks of a sequence, done, at work and waiting, and what the operations make of them.
use libprocess.Common.{
  ℕ, ◌≤◌, length, ◌≡◌, ◌⊎◌, refl, ◌∙◌, inl, inr, Bool, true, false, List, [], ◌∷◌, ◌++◌, arith,
  if◌then◌else◌, All, All-middle, All-append, Bool-cases,
}
use libprocess.Sequence.{Stage, Item, waits_or_runs, set_notifier, is_last_ready}
use libprocess.Sequence.System.{was_passed, passed_of}

abbrev pub IsDone : Item → Type 0
IsDone x = (x.stage ≡ Stage.finished) ⊎ ((x.stage ≡ Stage.skipped) × (x.has_discard ≡ true))

abbrev pub is_active : Stage → Bool
is_active Stage.woken = true
is_active Stage.passed = true
is_active Stage.running = true
is_active _ = false

abbrev pub is_untested : Stage → Bool
is_untested Stage.waiting = true
is_untested Stage.woken = true
is_untested _ = false

abbrev pub IsWaiting : Item → Type 0
IsWaiting x = x.stage ≡ Stage.waiting

-- A callback that is still to be tested will be skipped.
abbrev pub IsDiscarded : Item → Type 0
IsDiscarded x = is_untested x.stage ≡ true → x.has_discard ≡ true

-- Callbacks that are done, then one that is notified, tested or runs, then those that wait, unless all are done.
abbrev pub Shape : List Item → Type 0
Shape [] = Unit
Shape (x ∷ xs) = (IsDone x × Shape xs) ⊎ ((is_active x.stage ≡ true) × All IsWaiting xs)

abbrev pub was_invoked : Stage → Bool
was_invoked Stage.running = true
was_invoked Stage.finished = true
was_invoked _ = false

abbrev pub invoked_of : List Item → List ℕ
invoked_of [] = []
invoked_of (x ∷ xs) = if was_invoked x.stage then x.id ∷ invoked_of xs else invoked_of xs

pub invoked_of-append : (xs ys : List Item) → invoked_of (xs ++ ys) ≡ invoked_of xs ++ invoked_of ys
invoked_of-append [] ys = refl
invoked_of-append (x ∷ xs) ys = ground (arith, invoked_of-append xs ys)

pub passed_of-append : (xs ys : List Item) → passed_of (xs ++ ys) ≡ passed_of xs ++ passed_of ys
passed_of-append [] ys = refl
passed_of-append (x ∷ xs) ys = ground (arith, passed_of-append xs ys)

-- Callbacks that wait, and the first of them when it is notified, are neither tested nor invoked.
abbrev pub Quiet : List Item → Type 0
Quiet xs = (invoked_of xs ≡ []) × (passed_of xs ≡ [])

pub waiting-Quiet : (xs : List Item) → All IsWaiting xs → Quiet xs
waiting-Quiet [] h = (refl, refl)
waiting-Quiet (x ∷ xs) h = rw h.0 (waiting-Quiet xs h.1)

pub set_notifier-Quiet : (xs : List Item) → All IsWaiting xs → Quiet (set_notifier xs)
set_notifier-Quiet [] h = (refl, refl)
set_notifier-Quiet (x ∷ xs) h = waiting-Quiet xs h.1

pub set_notifier-Shape : (xs : List Item) → All IsWaiting xs → Shape (set_notifier xs)
set_notifier-Shape [] h = tt
set_notifier-Shape (x ∷ xs) h = inr (refl, h.1)

pub set_notifier-IsDiscarded :
    (xs : List Item) → All IsWaiting xs → All IsDiscarded xs → All IsDiscarded (set_notifier xs)
set_notifier-IsDiscarded [] w h = tt
set_notifier-IsDiscarded (x ∷ xs) w h = (λ k. h.0 (rw w.0 refl), h.1)

pub waits_not : (x : Item) → is_active x.stage ≡ true → IsWaiting x → ⊥
waits_not x r w = ground arith

done_not : (x : Item) → is_active x.stage ≡ true → IsDone x → ⊥
done_not x r (inl e) = ground arith
done_not x r (inr (e, h)) = ground arith

done-passed : (x : Item) (xs : List Item) → IsDone x → passed_of (x ∷ xs) ≡ passed_of xs
done-passed x xs (inl e) = rw e refl
done-passed x xs (inr (e, h)) = rw e refl

-- A callback at work stands between those that are done and those that wait.
pub record Middle (before later : List Item) : Type 0 where
  pub waits : All IsWaiting later
  pub none_passed : passed_of before ≡ []
  pub fill : (ys : List Item) → Shape ys → Shape (before ++ ys)

pub at_work-Middle :
    (before : List Item) (x : Item) (later : List Item)
    → is_active x.stage ≡ true
    → Shape (before ++ x ∷ later)
    → Middle before later
at_work-Middle [] x later r (inl (d, h)) = absurd (done_not x r d)
at_work-Middle [] x later r (inr (e, w)) = record {
  waits = w;
  none_passed = refl;
  fill = λ ys h. h;
}
at_work-Middle (y ∷ before) x later r (inl (d, h)) =
    let m = at_work-Middle before x later r h in
    record {
      waits = m.waits;
      none_passed = done-passed y before d ∙ m.none_passed;
      fill = λ ys h. inl (d, m.fill ys h);
    }
at_work-Middle (y ∷ before) x later r (inr (e, w)) =
    absurd (waits_not x r (All-middle IsWaiting before x later w).0)

is_last_ready-waiting :
    (y : Item) (xs : List Item) → All IsWaiting (y ∷ xs) → is_last_ready (y ∷ xs) ≡ false
unfolding is_last_ready
is_last_ready-waiting y [] w = rw w.0 refl
is_last_ready-waiting y (z ∷ xs) w = is_last_ready-waiting z xs w.1

waits_or_runs-done : (x : Item) → IsDone x → waits_or_runs x.stage ≡ false
waits_or_runs-done x (inl e) = rw e refl
waits_or_runs-done x (inr (e, h)) = rw e refl

pub active_waits : (x : Item) → is_active x.stage ≡ true → waits_or_runs x.stage ≡ true
active_waits x r = ground arith

pub add-Shape :
    (xs : List Item) (x : Item)
    → x.stage ≡ (if is_last_ready xs then Stage.woken else Stage.waiting)
    → Shape xs
    → Shape (xs ++ x ∷ [])
unfolding is_last_ready
add-Shape [] x e h = inr (rw e refl, tt)
add-Shape (y ∷ []) x e (inl (d, h)) = inl (d, inr (rw (e, waits_or_runs-done y d) refl, tt))
add-Shape (y ∷ []) x e (inr (r, w)) = inr (r, (e ∙ rw (active_waits y r) refl, tt))
add-Shape (y ∷ z ∷ xs) x e (inl (d, h)) = inl (d, add-Shape (z ∷ xs) x e h)
add-Shape (y ∷ z ∷ xs) x e (inr (r, w)) =
    inr
      (r, All-append IsWaiting (z ∷ xs) (x ∷ []) w (e ∙ rw (is_last_ready-waiting z xs w) refl, tt))

pub Shape-passed_of : (xs : List Item) → Shape xs → length (passed_of xs) ≤ 1
Shape-passed_of [] h = omega arith
Shape-passed_of (x ∷ xs) (inl (d, h)) = rw (done-passed x xs d) (Shape-passed_of xs h)
Shape-passed_of (x ∷ xs) (inr (r, w)) = elim (Bool-cases (was_passed x.stage)) [
  | inl e ↦ rw (e, (waiting-Quiet xs w).1) (omega arith)
  | inr e ↦ rw (e, (waiting-Quiet xs w).1) (omega arith)
]
