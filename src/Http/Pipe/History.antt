-- ===== src/Http/Pipe/History.antt =====
-- src/http.cpp: a history of one `Pipe`: what was written, what was asked for, and what each read
-- got.
use libprocess.Common.{
  ℕ, suc, ◌≡◌, ◌≢◌, refl, ap, Bool, true, List, [], ◌∷◌, ◌++◌, arith, if◌then◌else◌, append-nil,
  append_assoc,
}
use libprocess.Future.{Outcome, value}
use libprocess.Http.Pipe.{
  Text, Pipe, Reply, new_pipe, complete, read, write, close_reader, close_writer, fail_writer,
}

pub data Call : Type 0 where
  reads closes_reader closes_writer : Call
  writes fails : Text → Call

-- The pipe with its history: the strings that `write` took, less the empty ones; the reads; the
-- results of reads, each with its read; and the strings that were thrown away when the reader closed.
pub record System : Type 0 where
  pub pipe : Pipe
  pub next_read : ℕ
  pub accepted : List Text
  pub dropped : List Text
  pub asked : List ℕ
  pub answered : List (ℕ × Outcome Text Text)

abbrev pub start : System
start = record {
  pipe = new_pipe;
  next_read = 0;
  accepted = [];
  dropped = [];
  asked = [];
  answered = [];
}

abbrev pub answer : ℕ → Reply → List (ℕ × Outcome Text Text)
answer r (Reply.answers o) = (r, o) ∷ []
answer r _ = []

abbrev pub taken : Text → Bool → List Text
taken (b ∷ s) true = (b ∷ s) ∷ []
taken _ _ = []

unfoldable pub step : Call → System → System
step Call.reads s =
    let (p, r) = read s.next_read s.pipe in
    record s {
      pipe = p;
      next_read = suc s.next_read;
      asked = s.asked ++ s.next_read ∷ [];
      answered = s.answered ++ answer s.next_read r;
    }
step (Call.writes t) s =
    let r = write t s.pipe in
    record s {
      pipe = r.after;
      accepted = s.accepted ++ taken t r.result;
      answered = s.answered ++ r.completed;
    }
step Call.closes_reader s =
    let r = close_reader s.pipe in
    record s {
      pipe = r.after;
      answered = s.answered ++ r.completed;
      dropped = if r.result then s.pipe.writes else s.dropped;
    }
step Call.closes_writer s =
    let r = close_writer s.pipe in record s { pipe = r.after; answered = s.answered ++ r.completed }
step (Call.fails m) s =
    let r = fail_writer m s.pipe in
    record s { pipe = r.after; answered = s.answered ++ r.completed }

unfoldable pub run : List Call → System → System
run [] s = s
run (c ∷ cs) s = run cs (step c s)

-- The strings that reads got, without those that mean the end of the stream.
abbrev pub chunk : Outcome Text Text → List Text
chunk (value (b ∷ s)) = (b ∷ s) ∷ []
chunk _ = []

abbrev pub chunks : List (ℕ × Outcome Text Text) → List Text
chunks [] = []
chunks ((r, o) ∷ rest) = chunk o ++ chunks rest

abbrev pub readers : List (ℕ × Outcome Text Text) → List ℕ
readers [] = []
readers ((r, o) ∷ rest) = r ∷ readers rest

pub chunks-append :
    (xs ys : List (ℕ × Outcome Text Text)) → chunks (xs ++ ys) ≡ chunks xs ++ chunks ys
chunks-append [] ys = refl
chunks-append ((r, o) ∷ xs) ys =
    ground (arith, chunks-append xs ys, append_assoc (chunk o) (chunks xs) (chunks ys))

pub readers-append :
    (xs ys : List (ℕ × Outcome Text Text)) → readers (xs ++ ys) ≡ readers xs ++ readers ys
readers-append [] ys = refl
readers-append ((r, o) ∷ xs) ys = ap (◌∷◌ r) (readers-append xs ys)

pub readers-complete : (o : Outcome Text Text) (rs : List ℕ) → readers (complete o rs) ≡ rs
readers-complete o [] = refl
readers-complete o (r ∷ rs) = ap (◌∷◌ r) (readers-complete o rs)

pub chunks-complete :
    (o : Outcome Text Text) (rs : List ℕ) → chunk o ≡ [] → chunks (complete o rs) ≡ []
chunks-complete o [] h = refl
chunks-complete o (r ∷ rs) h = ground (arith, chunks-complete o rs h)

pub chunks_one :
    (xs : List (ℕ × Outcome Text Text)) (r : ℕ) (o : Outcome Text Text)
    → chunks (xs ++ (r, o) ∷ []) ≡ chunks xs ++ chunk o
chunks_one xs r o = ground (arith, chunks-append xs ((r, o) ∷ []), append-nil (chunk o))

pub readers_one :
    (xs : List (ℕ × Outcome Text Text)) (r : ℕ) (o : Outcome Text Text)
    → readers (xs ++ (r, o) ∷ []) ≡ readers xs ++ r ∷ []
readers_one xs r o = readers-append xs ((r, o) ∷ [])

pub chunks_same :
    (xs : List (ℕ × Outcome Text Text)) (o : Outcome Text Text) (rs : List ℕ)
    → chunk o ≡ []
    → chunks (xs ++ complete o rs) ≡ chunks xs
chunks_same xs o rs h =
    ground (arith, chunks-append xs (complete o rs), chunks-complete o rs h, append-nil (chunks xs))

pub readers_all :
    (xs : List (ℕ × Outcome Text Text)) (o : Outcome Text Text) (rs : List ℕ)
    → readers (xs ++ complete o rs) ≡ readers xs ++ rs
readers_all xs o rs = ground (arith, readers-append xs (complete o rs), readers-complete o rs)

abbrev pub NonEmpty : Text → Type 0
NonEmpty t = t ≢ []

pub cons-NonEmpty : (b : ℕ) (t : Text) → NonEmpty (b ∷ t)
cons-NonEmpty b t = ground arith
