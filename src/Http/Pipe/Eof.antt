-- ===== src/Http/Pipe/Eof.antt =====
-- src/http.cpp: the empty string, which a read gets at the end of the stream, comes last.
use libprocess.Common.{
  ℕ, ◌≡◌, refl, sym, ap, ◌∙◌, inl, inr, Bool, true, false, List, [], ◌∷◌, ◌++◌, arith,
  if◌then◌else◌, Bool-cases, List-cases, Option-cases, All,
}
use libprocess.Future.{Outcome, value, error}
use libprocess.Http.Pipe.{
  Text, WriteEnd, closed_message, complete, read, write, close_reader, close_writer, fail_writer,
}
use libprocess.Http.Pipe.History.{
  Call, System, start, step, run, chunks, answer, chunks-append, chunks-complete, NonEmpty,
}
use libprocess.Http.Pipe.Invariant.{Inv, step-Inv, start-Inv}

abbrev pub is_end : Outcome Text Text → Bool
is_end (value []) = true
is_end _ = false

-- Whether some read got the empty string, and the reads that were answered after the first that did.
abbrev pub has_end : List (ℕ × Outcome Text Text) → Bool
has_end [] = false
has_end ((r, o) ∷ rest) = if is_end o then true else has_end rest

abbrev pub after_end : List (ℕ × Outcome Text Text) → List (ℕ × Outcome Text Text)
after_end [] = []
after_end ((r, o) ∷ rest) = if is_end o then rest else after_end rest

-- The stream has ended for a pipe.
abbrev pub Over : System → Type 0
Over s = (s.pipe.write_end ≡ WriteEnd.closed) × (s.pipe.writes ≡ []) × (s.dropped ≡ [])

abbrev pub EndsOnce : System → Type 0
EndsOnce s = has_end s.answered ≡ true → Over s × (chunks (after_end s.answered) ≡ [])

after_end_here :
    (xs ys : List (ℕ × Outcome Text Text))
    → has_end xs ≡ true
    → after_end (xs ++ ys) ≡ after_end xs ++ ys
after_end_here [] ys h = absurd cc
after_end_here ((r, o) ∷ xs) ys h = ground (arith, after_end_here xs ys)

after_end_later :
    (xs ys : List (ℕ × Outcome Text Text))
    → has_end xs ≡ false
    → after_end (xs ++ ys) ≡ after_end ys
after_end_later [] ys h = refl
after_end_later ((r, o) ∷ xs) ys h = ground (arith, after_end_later xs ys)

has_end_later :
    (xs ys : List (ℕ × Outcome Text Text)) → has_end xs ≡ false → has_end (xs ++ ys) ≡ has_end ys
has_end_later [] ys h = refl
has_end_later ((r, o) ∷ xs) ys h = ground (arith, has_end_later xs ys)

-- More answers: none with a string after an end, and an end only where the stream is over.
more-EndsOnce :
    (s t : System) (ys : List (ℕ × Outcome Text Text))
    → t.answered ≡ s.answered ++ ys
    → EndsOnce s
    → (Over s → Over t × (chunks ys ≡ []))
    → (has_end ys ≡ true → Over t × (chunks (after_end ys) ≡ []))
    → EndsOnce t
more-EndsOnce s t ys e v old new h = elim (Bool-cases (has_end s.answered)) [
  | inl x ↦
      let before = v x in
      let now = old before.0 in
      (
        now.0,
        rw (e, after_end_here s.answered ys x)
            (chunks-append (after_end s.answered) ys ∙ rw (before.1, now.1) refl),
      )
  | inr x ↦
      let now = new (sym (has_end_later s.answered ys x) ∙ sym (ap has_end e) ∙ h) in
      (now.0, rw (e, after_end_later s.answered ys x) now.1)
]

no_end : (m : Text) (rs : List ℕ) → has_end (complete (error m) rs) ≡ false
no_end m [] = refl
no_end m (r ∷ rs) = no_end m rs

all_ends : (rs : List ℕ) → chunks (after_end (complete (value []) rs)) ≡ []
all_ends [] = refl
all_ends (r ∷ rs) = chunks-complete (value []) rs refl

reads-Over :
    (s : System)
    → Inv s
    → Over s
    → Over (step Call.reads s) × (chunks (answer s.next_read (read s.next_read s.pipe).1) ≡ [])
unfolding step read
reads-Over s v o = elim (Option-cases s.pipe.failure) [
  | inl n ↦ ground (arith, o)
  | inr (m, n) ↦ ground (arith, o)
]

reads_end :
    (s : System)
    → Inv s
    → has_end (answer s.next_read (read s.next_read s.pipe).1) ≡ true
    → Over (step Call.reads s)
      × (chunks (after_end (answer s.next_read (read s.next_read s.pipe).1)) ≡ [])
unfolding step read
reads_end s v h = elim (List-cases s.pipe.writes) [
  | inl e ↦ elim (Option-cases s.pipe.failure) [
    | inl n ↦ ground (arith, e, n)
    | inr (m, n) ↦ ground (arith, e, n)
  ]
  | inr (t, ts, e) ↦ let n = (coe 0 1 (i. All NonEmpty (e i)) v.no_empty).0 in ground (arith, e, n)
]

writes-Over :
    (t : Text) (s : System)
    → Over s
    → Over (step (Call.writes t) s) × (chunks (write t s.pipe).completed ≡ [])
unfolding step write
writes-Over t s o = rw o.0 ((refl, o.1, o.2), refl)

writes_end : (t : Text) (s : System) → has_end (write t s.pipe).completed ≡ true → ⊥
unfolding write
writes_end [] s h = ground arith
writes_end (b ∷ t) s h = elim (List-cases s.pipe.reads) [
  | inl e ↦ ground (arith, e)
  | inr (r, rs, e) ↦ ground (arith, e)
]

closes_reader-Over :
    (s : System)
    → Over s
    → Over (step Call.closes_reader s) × (chunks (close_reader s.pipe).completed ≡ [])
unfolding step close_reader
closes_reader-Over s o =
    let q = chunks-complete (error closed_message) s.pipe.reads refl in ground (arith, o, q)

closes_reader_end : (s : System) → has_end (close_reader s.pipe).completed ≡ true → ⊥
unfolding close_reader
closes_reader_end s h = let q = no_end closed_message s.pipe.reads in ground (arith, q)

closes_writer-Over :
    (s : System)
    → Over s
    → Over (step Call.closes_writer s) × (chunks (close_writer s.pipe).completed ≡ [])
unfolding step close_writer
closes_writer-Over s o = rw o.0 ((refl, o.1, o.2), refl)

closes_writer_end :
    (s : System)
    → Inv s
    → has_end (close_writer s.pipe).completed ≡ true
    → Over (step Call.closes_writer s) × (chunks (after_end (close_writer s.pipe).completed) ≡ [])
unfolding step close_writer
closes_writer_end s v h =
    let q = all_ends s.pipe.reads in
    elim (List-cases s.pipe.reads) [
      | inl e ↦ absurd (ground (arith, e))
      | inr (r, rs, e) ↦ ground (arith, e, q)
    ]

fails-Over :
    (m : Text) (s : System)
    → Over s
    → Over (step (Call.fails m) s) × (chunks (fail_writer m s.pipe).completed ≡ [])
unfolding step fail_writer
fails-Over m s o = rw o.0 ((refl, o.1, o.2), refl)

fails_end : (m : Text) (s : System) → has_end (fail_writer m s.pipe).completed ≡ true → ⊥
unfolding fail_writer
fails_end m s h = let q = no_end m s.pipe.reads in ground (arith, q)

step-EndsOnce : (c : Call) (s : System) → Inv s → EndsOnce s → EndsOnce (step c s)
unfolding step
step-EndsOnce Call.reads s v h =
    more-EndsOnce s (step Call.reads s) (answer s.next_read (read s.next_read s.pipe).1) refl h
      (reads-Over s v) (reads_end s v)
step-EndsOnce (Call.writes t) s v h =
    more-EndsOnce s (step (Call.writes t) s) (write t s.pipe).completed refl h (writes-Over t s)
      (λ e. absurd (writes_end t s e))
step-EndsOnce Call.closes_reader s v h =
    more-EndsOnce s (step Call.closes_reader s) (close_reader s.pipe).completed refl h
      (closes_reader-Over s) (λ e. absurd (closes_reader_end s e))
step-EndsOnce Call.closes_writer s v h =
    more-EndsOnce s (step Call.closes_writer s) (close_writer s.pipe).completed refl h
      (closes_writer-Over s) (closes_writer_end s v)
step-EndsOnce (Call.fails m) s v h =
    more-EndsOnce s (step (Call.fails m) s) (fail_writer m s.pipe).completed refl h (fails-Over m s)
      (λ e. absurd (fails_end m s e))

run-EndsOnce : (cs : List Call) (s : System) → Inv s → EndsOnce s → EndsOnce (run cs s)
unfolding run
run-EndsOnce [] s v h = h
run-EndsOnce (c ∷ cs) s v h = run-EndsOnce cs (step c s) (step-Inv c s v) (step-EndsOnce c s v h)

-- Once a read got the empty string, the stream is over, and no string follows.
pub reach-EndsOnce : (cs : List Call) → EndsOnce (run cs start)
reach-EndsOnce cs = run-EndsOnce cs start start-Inv (λ h. absurd cc)
