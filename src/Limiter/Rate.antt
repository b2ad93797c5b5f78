-- ===== src/Limiter/Rate.antt =====
-- include/process/limiter.hpp: the permits of a `RateLimiterProcess` come in order and at its rate.
use mathlib.Core.Path.{subst}
use libprocess.Common.{
  ℕ, ◌+◌, ◌-◌, ◌≤◌, ◌≡◌, refl, ap, sym, ◌∙◌, inl, inr, false, List, [], ◌∷◌, ◌++◌, append-nil,
  append_assoc, arith, ltb, Bool-cases, Bool, true, at, ◌==◌, All, All-append, if◌then◌else◌,
}
use libprocess.Limiter.{
  Limiter, Answer, discard, acquire_behind, acquire, next_permit, repeat, acquire_next, on_delay,
  is_in,
}
use libprocess.Limiter.System.{
  System, promises_of, permits_at, with_permit, permitted, refused, discards_at, answers,
  answers_unless, Step, asks, discards, comes, Reach, here, next,
}

module _ (interval : ℕ) where
  -- Two permits are an interval apart at least, and the timeout ends an interval after the latest.
  abbrev pub Apart : List ℕ → Type 0
  Apart [] = Unit
  Apart (t ∷ []) = Unit
  Apart (t ∷ u ∷ us) = (u + interval ≤ t) × Apart (u ∷ us)

  abbrev pub Ends : ℕ → List ℕ → Type 0
  Ends timeout [] = Unit
  Ends timeout (t ∷ ts) = timeout ≡ t + interval

  -- While a promise waits, one call is delayed, until the timeout ends; else none is.
  abbrev pub due : List ℕ → ℕ → List ℕ
  due [] timeout = []
  due (p ∷ ps) timeout = timeout ∷ []

  pub record Paced (l : Limiter) (permits : List ℕ) : Type 0 where
    pub spaced : Apart permits
    pub ends : Ends l.timeout permits
    pub delayed : l.delays ≡ due l.promises l.timeout

  permits-Apart :
      (t timeout : ℕ) (ts : List ℕ) → Apart ts → Ends timeout ts → timeout ≤ t → Apart (t ∷ ts)
  permits-Apart t timeout [] s e h = tt
  permits-Apart t timeout (u ∷ us) s e h = (ground (arith, e, h), s)

  acquires-Paced :
      (p t : ℕ) (ps : List ℕ) (l : Limiter) (permits : List ℕ)
      → l.promises ≡ ps
      → Paced l permits
      → let r = acquire_behind interval ps p t l in Paced r.0 (permits_at t r.1 ++ permits)
  acquires-Paced p t (q ∷ qs) l permits e v = record {
    spaced = v.spaced;
    ends = v.ends;
    delayed = rw e (rw e at v.delayed);
  }
  acquires-Paced p t [] l permits e v = elim (Bool-cases (ltb 0 (l.timeout - t))) [
    | inl x ↦ rw x (record {
      spaced = v.spaced;
      ends = v.ends;
      delayed = rw (rw e at v.delayed, e) (ap (λ d. d ∷ []) (ground (arith, x)));
    })
    | inr x ↦ rw x (record {
      spaced = permits-Apart t l.timeout permits v.spaced v.ends (ground (arith, x));
      ends = refl;
      delayed = rw e (rw e at v.delayed);
    })
  ]

  repeats-Paced :
      (t : ℕ) (ps : List ℕ) (l : Limiter) (permits : List ℕ)
      → Apart (t ∷ permits)
      → l.delays ≡ []
      → Paced
          (repeat interval t ps (record l { promises = ps; timeout = t + interval }))
          (t ∷ permits)
  repeats-Paced t [] l permits s d = record { spaced = s; ends = refl; delayed = d }
  repeats-Paced t (p ∷ ps) l permits s d = record {
    spaced = s;
    ends = refl;
    delayed = rw d (ap (λ u. u ∷ []) (omega arith));
  }

  next_permit-Paced :
      (t : ℕ) (ps : List ℕ) (l : Limiter) (permits : List ℕ)
      → Apart permits
      → Ends l.timeout permits
      → l.delays ≡ []
      → l.timeout ≤ t
      → let r = next_permit interval t ps l in
        Paced (repeat interval t r.0.promises r.0) (permits_at t r.1 ++ permits)
  unfolding next_permit
  next_permit-Paced t [] l permits s e d h = record { spaced = s; ends = e; delayed = d }
  next_permit-Paced t (p ∷ ps) l permits s e d h = elim (Bool-cases (l.discarded p)) [
    | inl x ↦ rw x (next_permit-Paced t ps l permits s e d h)
    | inr x ↦ rw x (repeats-Paced t ps l permits (permits-Apart t l.timeout permits s e h) d)
  ]

  -- Whoever asked first is answered first.
  acquires-order :
      (p t : ℕ) (ps : List ℕ) (l : Limiter)
      → l.promises ≡ ps
      → let r = acquire_behind interval ps p t l in promises_of r.1 ++ r.0.promises ≡ ps ++ p ∷ []
  acquires-order p t (q ∷ qs) l e = rw e refl
  acquires-order p t [] l e = elim (Bool-cases (ltb 0 (l.timeout - t))) [
    | inl x ↦ rw (x, e) refl
    | inr x ↦ rw (x, e) refl
  ]

  repeat-promises :
      (t : ℕ) (ps : List ℕ) (l : Limiter) → (repeat interval t ps l).promises ≡ l.promises
  repeat-promises t [] l = refl
  repeat-promises t (p ∷ ps) l = refl

  next_permit-order :
      (t : ℕ) (ps : List ℕ) (l : Limiter)
      → let r = next_permit interval t ps l in
        promises_of r.1 ++ (repeat interval t r.0.promises r.0).promises ≡ ps
  unfolding next_permit
  next_permit-order t [] l = refl
  next_permit-order t (p ∷ ps) l = elim (Bool-cases (l.discarded p)) [
    | inl x ↦ rw x (ap (λ qs. p ∷ qs) (next_permit-order t ps l))
    | inr x ↦ rw x (
        ap (λ qs. p ∷ qs)
          (repeat-promises t ps (record l { promises = ps; timeout = t + interval })))
  ]

  only_due :
      (before : List ℕ) (d : ℕ) (behind ps : List ℕ) (timeout : ℕ)
      → due ps timeout ≡ before ++ d ∷ behind
      → (q : ℕ) × (qs : List ℕ) × (ps ≡ q ∷ qs) × (before ++ behind ≡ []) × (d ≡ timeout)
  only_due [] d behind [] timeout e = absurd (cc)
  only_due (b ∷ before) d behind [] timeout e = absurd (cc)
  only_due [] d behind (q ∷ qs) timeout e = (q, qs, refl, ground (arith, e), ground (arith, e))
  only_due (b ∷ []) d behind (q ∷ qs) timeout e = absurd (ground (arith, e))
  only_due (b ∷ c ∷ before) d behind (q ∷ qs) timeout e = absurd (ground (arith, e))

  abbrev pub IsRefused : List ℕ → Answer → Type 0
  IsRefused ps a = a.permit ≡ false → is_in a.promise ps ≡ true

  pub record Sound (s : System) : Type 0 where
    pub paced : Paced s.limiter s.permits
    pub ordered : promises_of s.left ++ s.limiter.promises ≡ s.asked
    pub permits_same : permitted s.left ≡ permitted s.done
    pub told : (p : ℕ) → s.limiter.discarded p ≡ true → is_in p (refused s.done) ≡ true
    pub skips : All (IsRefused (refused s.done)) s.left
    pub whole : s.aborted ≡ false

  promises_of-append :
      (xs ys : List Answer) → promises_of (xs ++ ys) ≡ promises_of xs ++ promises_of ys
  promises_of-append [] ys = refl
  promises_of-append (x ∷ xs) ys = ap (λ u. x.promise ∷ u) (promises_of-append xs ys)

  permitted-append : (xs ys : List Answer) → permitted (xs ++ ys) ≡ permitted xs ++ permitted ys
  permitted-append [] ys = refl
  permitted-append (x ∷ xs) ys = ground (arith, permitted-append xs ys)

  refused-append : (xs ys : List Answer) → refused (xs ++ ys) ≡ refused xs ++ refused ys
  refused-append [] ys = refl
  refused-append (x ∷ xs) ys = ground (arith, refused-append xs ys)

  permitted-with_permit : (xs : List Answer) → permitted (with_permit xs) ≡ permitted xs
  permitted-with_permit [] = refl
  permitted-with_permit (x ∷ xs) = ground (arith, permitted-with_permit xs)

  refused-with_permit : (xs : List Answer) → refused (with_permit xs) ≡ []
  refused-with_permit [] = refl
  refused-with_permit (x ∷ xs) = ground (arith, refused-with_permit xs)

  refused_same : (xs ys : List Answer) → refused (xs ++ with_permit ys) ≡ refused xs
  refused_same xs ys =
      refused-append xs (with_permit ys)
      ∙ ap (λ u. refused xs ++ u) (refused-with_permit ys)
      ∙ append-nil (refused xs)

  is_in-append : (p : ℕ) (xs ys : List ℕ) → is_in p xs ≡ true → is_in p (xs ++ ys) ≡ true
  is_in-append p [] ys h = absurd cc
  is_in-append p (x ∷ xs) ys h = ground (arith, is_in-append p xs ys)

  is_in_last : (p : ℕ) (xs : List ℕ) → is_in p (xs ++ p ∷ []) ≡ true
  is_in_last p [] = ground arith
  is_in_last p (x ∷ xs) = ground (arith, is_in_last p xs)

  -- What acquiring and `_acquire` take off without a permit was discarded.
  abbrev WasDiscarded : Limiter → Answer → Type 0
  WasDiscarded l a = a.permit ≡ false → l.discarded a.promise ≡ true

  next_permit-WasDiscarded :
      (t : ℕ) (ps : List ℕ) (l : Limiter) → All (WasDiscarded l) (next_permit interval t ps l).1
  unfolding next_permit
  next_permit-WasDiscarded t [] l = tt
  next_permit-WasDiscarded t (p ∷ ps) l = elim (Bool-cases (l.discarded p)) [
    | inl x ↦ rw x (λ k. x, next_permit-WasDiscarded t ps l)
    | inr x ↦ rw x (λ k. absurd cc, tt)
  ]

  repeat-discarded :
      (t : ℕ) (ps : List ℕ) (l : Limiter) → (repeat interval t ps l).discarded ≡ l.discarded
  repeat-discarded t [] l = refl
  repeat-discarded t (p ∷ ps) l = refl

  next_permit-discarded :
      (t : ℕ) (ps : List ℕ) (l : Limiter) → (next_permit interval t ps l).0.discarded ≡ l.discarded
  unfolding next_permit
  next_permit-discarded t [] l = refl
  next_permit-discarded t (p ∷ ps) l = elim (Bool-cases (l.discarded p)) [
    | inl x ↦ rw x (next_permit-discarded t ps l)
    | inr x ↦ rw x refl
  ]

  acquires-discarded :
      (p t : ℕ) (ps : List ℕ) (l : Limiter)
      → (acquire_behind interval ps p t l).0.discarded ≡ l.discarded
  acquires-discarded p t (q ∷ qs) l = refl
  acquires-discarded p t [] l = elim (Bool-cases (ltb 0 (l.timeout - t))) [
    | inl x ↦ rw x refl
    | inr x ↦ rw x refl
  ]

  acquires-WasDiscarded :
      (p t : ℕ) (ps : List ℕ) (l : Limiter)
      → All (WasDiscarded l) (acquire_behind interval ps p t l).1
  acquires-WasDiscarded p t (q ∷ qs) l = tt
  acquires-WasDiscarded p t [] l = elim (Bool-cases (ltb 0 (l.timeout - t))) [
    | inl x ↦ rw x tt
    | inr x ↦ rw x (λ k. absurd cc, tt)
  ]

  answers-order :
      (left more : List Answer) (promises before asked : List ℕ)
      → promises_of left ++ before ≡ asked
      → (last : List ℕ) → promises_of more ++ promises ≡ before ++ last
      → promises_of (left ++ more) ++ promises ≡ asked ++ last
  answers-order left more promises before asked e last h =
      ap (λ xs. xs ++ promises) (promises_of-append left more)
      ∙ append_assoc (promises_of left) (promises_of more) promises
      ∙ ap (λ xs. promises_of left ++ xs) h
      ∙ sym (append_assoc (promises_of left) before last)
      ∙ ap (λ xs. xs ++ last) e

  IsRefused-now :
      (l : Limiter) (ps : List ℕ) (more : List Answer)
      → ((p : ℕ) → l.discarded p ≡ true → is_in p ps ≡ true)
      → All (WasDiscarded l) more
      → All (IsRefused ps) more
  IsRefused-now l ps [] t h = tt
  IsRefused-now l ps (a ∷ more) t h = (λ k. t a.promise (h.0 k), IsRefused-now l ps more t h.1)

  IsRefused-still :
      (ps qs : List ℕ) (xs : List Answer) → All (IsRefused ps) xs → All (IsRefused (ps ++ qs)) xs
  IsRefused-still ps qs [] h = tt
  IsRefused-still ps qs (a ∷ xs) h =
      (λ k. is_in-append a.promise ps qs (h.0 k), IsRefused-still ps qs xs h.1)

  -- The queue gives up promises, or makes one that does not wait.
  answers-Sound :
      (t : ℕ) (l : Limiter) (more : List Answer) (asked : List ℕ) (s : System)
      → Sound s
      → Paced l (permits_at t more ++ s.permits)
      → promises_of (s.left ++ more) ++ l.promises ≡ asked
      → l.discarded ≡ s.limiter.discarded
      → All (WasDiscarded s.limiter) more
      → Sound (answers t (l, more) (record s { asked = asked }))
  answers-Sound t l more asked s v paced ordered same h =
      let done = refused_same s.done more in
      record {
        paced = paced;
        ordered = ordered;
        permits_same =
            permitted-append s.left more
            ∙ ap (λ u. u ++ permitted more) v.permits_same
            ∙ ap (λ u. permitted s.done ++ u) (sym (permitted-with_permit more))
            ∙ sym (permitted-append s.done (with_permit more));
        told = λ p e. rw done (v.told p (sym (ap (λ f. f p) same) ∙ e));
        skips = rw done (
            All-append (IsRefused (refused s.done)) s.left more v.skips
              (IsRefused-now s.limiter (refused s.done) more v.told h));
        whole = v.whole;
      }

  -- What `discard` completes.
  abbrev refusal : ℕ → Bool → List Answer
  refusal p b = if b then [] else record { promise = p; permit = false } ∷ []

  none_permitted :
      (p : ℕ) (b : Bool) (done : List Answer) → permitted (done ++ refusal p b) ≡ permitted done
  none_permitted p true done = ap permitted (append-nil done)
  none_permitted p false done = permitted-append done _ ∙ append-nil (permitted done)

  is_refused :
      (p : ℕ) (b : Bool) (done : List Answer)
      → (b ≡ true → is_in p (refused done) ≡ true)
      → is_in p (refused (done ++ refusal p b)) ≡ true
  is_refused p true done h = rw (append-nil done) (h refl)
  is_refused p false done h =
      rw (refused-append done (refusal p false)) (is_in_last p (refused done))

  told_also :
      (p q : ℕ) (discarded : ℕ → Bool) (done : List Answer)
      → ((q : ℕ) → discarded q ≡ true → is_in q (refused done) ≡ true)
      → at discarded p true q ≡ true
      → is_in q (refused (done ++ refusal p (discarded p))) ≡ true
  told_also p q discarded done told e = elim (Bool-cases (p == q)) [
    | inl x ↦
        subst (λ r. is_in r (refused (done ++ refusal p (discarded p))) ≡ true) (ground (arith, x))
          (is_refused p (discarded p) done (told p))
    | inr x ↦
        rw (refused-append done (refusal p (discarded p)))
          (is_in-append q (refused done) _ (told q (sym (rw x refl) ∙ e)))
  ]

  discards-Sound : (p t : ℕ) (s : System) → Sound s → Sound (discards_at t (discard p s.limiter) s)
  unfolding discard
  discards-Sound p t s v = elim (Bool-cases (is_in p s.limiter.promises)) [
    | inl x ↦ rw x (record {
      paced = record { spaced = v.paced.spaced; ends = v.paced.ends; delayed = v.paced.delayed };
      ordered = v.ordered;
      permits_same = v.permits_same ∙ sym (none_permitted p (s.limiter.discarded p) s.done);
      told = λ q e. told_also p q (s.limiter.discarded) s.done v.told e;
      skips = rw (refused-append s.done (refusal p (s.limiter.discarded p))) (
          IsRefused-still (refused s.done) (refused (refusal p (s.limiter.discarded p))) s.left
            v.skips);
      whole = v.whole;
    })
    | inr x ↦
        rw (x, append-nil s.done)
          (record {
            paced = v.paced;
            ordered = v.ordered;
            permits_same = v.permits_same;
            told = v.told;
            skips = v.skips;
            whole = v.whole;
          })
  ]

  comes-Sound :
      (t q : ℕ) (qs : List ℕ) (s : System)
      → Sound s
      → s.limiter.promises ≡ q ∷ qs
      → s.limiter.timeout ≤ t
      → Sound
          (answers_unless t (acquire_next interval t (q ∷ qs) (record s.limiter { delays = [] })) s)
  comes-Sound t q qs s v e h =
      let l = record s.limiter { delays = [] } in
      answers-Sound t _ _ s.asked s v
        (next_permit-Paced t (q ∷ qs) l s.permits v.paced.spaced v.paced.ends refl h)
        (answers-order s.left _ _ s.limiter.promises s.asked v.ordered []
            (next_permit-order t (q ∷ qs) l ∙ sym e ∙ sym (append-nil s.limiter.promises))
          ∙ append-nil s.asked)
        (repeat-discarded t _ _ ∙ next_permit-discarded t (q ∷ qs) l)
        (next_permit-WasDiscarded t (q ∷ qs) l)

  step-Sound : {r s : System} → Step interval r s → Sound r → Sound s
  unfolding acquire on_delay
  step-Sound {r = r} (asks p t h) v =
      answers-Sound t _ _ (r.asked ++ p ∷ []) r v
        (acquires-Paced p t r.limiter.promises r.limiter r.permits refl v.paced)
        (answers-order r.left _ _ r.limiter.promises r.asked v.ordered (p ∷ [])
          (acquires-order p t r.limiter.promises r.limiter refl))
        (acquires-discarded p t r.limiter.promises r.limiter)
        (acquires-WasDiscarded p t r.limiter.promises r.limiter)
  step-Sound {r = r} (discards p t h) v = discards-Sound p t r v
  step-Sound {r = r} (comes before d behind t e late h) v =
      let (q, qs, x, none_left, at_end) =
        only_due before d behind r.limiter.promises r.limiter.timeout (sym v.paced.delayed ∙ e) in
      rw none_left (
        subst
          (λ ps.
            Sound
              (answers_unless t (acquire_next interval t ps (record r.limiter { delays = [] })) r))
          (sym x) (comes-Sound t q qs r v x (ground (arith, at_end, late))))

  reach-Sound : {t : ℕ} {s : System} → Reach interval t s → Sound s
  reach-Sound here = record {
    paced = record { spaced = tt; ends = tt; delayed = refl };
    ordered = refl;
    permits_same = refl;
    told = λ p e. absurd cc;
    skips = tt;
    whole = refl;
  }
  reach-Sound (next r s) = step-Sound s (reach-Sound r)

  -- In every history in which time does not go back, two permits are at least an interval apart, and the
  -- timeout ends an interval after the latest of them.
  pub permits_spaced :
      (t : ℕ) (s : System) → Reach interval t s → Apart s.permits × Ends s.limiter.timeout s.permits
  permits_spaced t s r = let v = reach-Sound r in (v.paced.spaced, v.paced.ends)

  -- In every such history the promises that left the queue, or never stood in it, and then those in the queue are those that
  -- were made, in that order; the promises that got a permit are, in the order in which they got it, those that left with
  -- one, and every promise that left without one was discarded while it waited; while one is in the queue, exactly one
  -- call is delayed, until the timeout ends, and else none is; and no CHECK has failed.
  pub permits_in_order :
      (t : ℕ) (s : System)
      → Reach interval t s
      → (promises_of s.left ++ s.limiter.promises ≡ s.asked)
        × (permitted s.left ≡ permitted s.done)
        × All (IsRefused (refused s.done)) s.left
        × (s.limiter.delays ≡ due s.limiter.promises s.limiter.timeout)
        × (s.aborted ≡ false)
  permits_in_order t s r =
      let v = reach-Sound r in (v.ordered, v.permits_same, v.skips, v.paced.delayed, v.whole)
