-- ===== src/Clock/Groups.antt =====
-- The timers of src/clock.cpp as groups by time: what a tick takes out, and what the operations on
-- the map keep.
use libprocess.Common.{
  ℕ, suc, ◌≤◌, ◌<◌, ◌≡◌, refl, ap, ◌∙◌, List, [], ◌∷◌, ◌++◌, arith, ltb, ltb→lt, ==_iff, ◌==◌,
  Bool-cases, inl, inr, append_assoc, All, All-append,
}
use libprocess.Clock.{
  Timer, Timers, timed_out, remaining, push_timer, remove_timer, cancel_in, put_group,
}

-- Groups by ascending time, from `lo` on, each with the timers of that time.
abbrev pub Above : ℕ → Timers → Type 0
Above lo [] = Unit {0}
Above lo ((t, group) ∷ rest) = (lo ≤ t) × All (λ x. x.timeout ≡ t) group × Above (suc t) rest

-- The timers in the order in which they fire.
abbrev pub in_order : Timers → List Timer
in_order [] = []
in_order ((t, group) ∷ rest) = group ++ in_order rest

pub Above-mono : (lo lo' : ℕ) (ts : Timers) → lo' ≤ lo → Above lo ts → Above lo' ts
Above-mono lo lo' [] h a = tt
Above-mono lo lo' ((t, group) ∷ rest) h a = (omega (arith, a.0), a.1, a.2)

pub All-imp {ℓ κ} :
    {A : Type 0} {P : A → Type ℓ} {Q : A → Type κ} (f : (x : A) → P x → Q x) (xs : List A)
    → All P xs
    → All Q xs
All-imp f [] h = tt
All-imp f (x ∷ xs) h = (f x h.0, All-imp f xs h.1)

pub later_than :
    (now lo : ℕ) (ts : Timers) → now < lo → Above lo ts → All (λ x. now < x.timeout) (in_order ts)
later_than now lo [] h a = tt
later_than now lo ((t, group) ∷ rest) h a =
    All-append _ group (in_order rest) (All-imp (λ x e. omega (arith, e, a.0)) group a.1)
      (later_than now (suc t) rest (omega (arith, a.0)) a.2)

-- A tick at a moment takes out exactly the timers that are due, in the order of their times, and
-- leaves those that are not.
pub record Partition (now : ℕ) (ts : Timers) : Type 0 where
  pub whole : timed_out now ts ++ in_order (remaining now ts) ≡ in_order ts
  pub due : All (λ x. x.timeout ≤ now) (timed_out now ts)
  pub not_due : All (λ x. now < x.timeout) (in_order (remaining now ts))

pub partition : (now lo : ℕ) (ts : Timers) → Above lo ts → Partition now ts
unfolding timed_out remaining
partition now lo [] a = record { whole = refl; due = tt; not_due = tt }
partition now lo ((t, group) ∷ rest) a = elim (Bool-cases (ltb now t)) [
  | inl late ↦ record {
    whole = rw late refl;
    due = rw late tt;
    not_due =
        rw late (later_than now t ((t, group) ∷ rest) (ltb→lt now t late) (omega arith, a.1, a.2));
  }
  | inr early ↦
      let p = partition now (suc t) rest a.2 in
      record {
        whole = rw early (append_assoc group _ _ ∙ ap (◌++◌ group) p.whole);
        due =
            rw early
              (All-append _ group _ (All-imp (λ x e. ground (arith, e, early)) group a.1) p.due);
        not_due = rw early p.not_due;
      }
]

pub remaining-Above : (now lo : ℕ) (ts : Timers) → Above lo ts → Above lo (remaining now ts)
unfolding remaining
remaining-Above now lo [] a = tt
remaining-Above now lo ((t, group) ∷ rest) a = elim (Bool-cases (ltb now t)) [
  | inl late ↦ rw late a
  | inr early ↦
      rw early (Above-mono (suc t) lo _ (omega (arith, a.0)) (remaining-Above now (suc t) rest a.2))
]

pub push_timer-Above :
    (x : Timer) (lo : ℕ) (ts : Timers) → lo ≤ x.timeout → Above lo ts → Above lo (push_timer x ts)
unfolding push_timer
push_timer-Above x lo [] h a = (h, (refl, tt), tt)
push_timer-Above x lo ((t, group) ∷ rest) h a = elim (Bool-cases (ltb x.timeout t)) [
  | inl before ↦ rw before (h, (refl, tt), (ltb→lt x.timeout t before, a.1, a.2))
  | inr not_before ↦ elim (Bool-cases (x.timeout == t)) [
    | inl same ↦
        rw (not_before, same)
          (a.0, All-append _ group (x ∷ []) a.1 ((==_iff x.timeout t).0 same, tt), a.2)
    | inr other ↦
        rw (not_before, other) (a.0, a.1, push_timer-Above x (suc t) rest (ground arith) a.2)
  ]
]

pub All-remove {ℓ} :
    (P : Timer → Type ℓ) (id : ℕ) (xs : List Timer) → All P xs → All P (remove_timer id xs)
unfolding remove_timer
All-remove P id [] h = tt
All-remove P id (x ∷ xs) h = elim (Bool-cases (x.id == id)) [
  | inl hit ↦ rw hit (All-remove P id xs h.1)
  | inr miss ↦ rw miss (h.0, All-remove P id xs h.1)
]

pub put_group-Above :
    (lo t : ℕ) (group : List Timer) (rest : Timers)
    → lo ≤ t
    → All (λ x. x.timeout ≡ t) group
    → Above (suc t) rest
    → Above lo (put_group t group rest)
put_group-Above lo t [] rest h g a = Above-mono (suc t) lo rest (omega arith) a
put_group-Above lo t (x ∷ xs) rest h g a = (h, g, a)

pub in_order-put_group :
    (t : ℕ) (group : List Timer) (rest : Timers)
    → in_order (put_group t group rest) ≡ group ++ in_order rest
in_order-put_group t [] rest = refl
in_order-put_group t (x ∷ xs) rest = refl

pub cancel_in-Above : (x : Timer) (lo : ℕ) (ts : Timers) → Above lo ts → Above lo (cancel_in x ts).0
unfolding cancel_in
cancel_in-Above x lo [] a = tt
cancel_in-Above x lo ((t, group) ∷ rest) a = elim (Bool-cases (t == x.timeout)) [
  | inl here ↦
      rw here
        (put_group-Above lo t (remove_timer x.id group) rest a.0 (All-remove _ x.id group a.1) a.2)
  | inr there ↦ rw there (a.0, a.1, cancel_in-Above x (suc t) rest a.2)
]
