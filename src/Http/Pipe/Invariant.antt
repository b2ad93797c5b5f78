-- ===== src/Http/Pipe/Invariant.antt =====
-- src/http.cpp: what every operation on a `Pipe` keeps.
use libprocess.Common.{
  ◌≡◌, ◌≢◌, refl, ◌⊎◌, inl, inr, none, List, [], ◌∷◌, ◌++◌, arith, append-nil, append_assoc, All,
  All-append, List-cases, Option-cases,
}
use libprocess.Future.{Outcome, value, error}
use libprocess.Http.Pipe.{
  Text, ReadEnd, WriteEnd, closed_message, read, write, close_reader, close_writer, fail_writer,
}
use libprocess.Http.Pipe.History.{
  Call, System, start, step, run, chunk, chunks, readers, chunks_one, readers_one, chunks_same,
  readers_all, NonEmpty, cons-NonEmpty,
}

pub record Inv (s : System) : Type 0 where
  pub kept : chunks s.answered ++ (s.pipe.writes ++ s.dropped) ≡ s.accepted
  pub served : readers s.answered ++ s.pipe.reads ≡ s.asked
  pub one_side : (s.pipe.reads ≡ []) ⊎ (s.pipe.writes ≡ [])
  pub none_dropped : s.pipe.read_end ≡ ReadEnd.opened → s.dropped ≡ []
  pub none_kept : s.pipe.read_end ≡ ReadEnd.closed → s.pipe.writes ≡ []
  pub none_waits : s.pipe.read_end ≡ ReadEnd.closed → s.pipe.reads ≡ []
  pub none_waits_closed : s.pipe.write_end ≢ WriteEnd.opened → s.pipe.reads ≡ []
  pub has_reason : s.pipe.write_end ≡ WriteEnd.failed → s.pipe.failure ≢ none
  pub no_empty : All NonEmpty s.pipe.writes

pub chunk_of : (t : Text) → t ≢ [] → chunk (value t) ≡ t ∷ []
chunk_of [] h = elim (h refl) [ ]
chunk_of (b ∷ t) h = refl

-- A read where nothing waits to be read.
pub reads_drained-Inv : (s : System) → s.pipe.writes ≡ [] → Inv s → Inv (step Call.reads s)
unfolding step read
reads_drained-Inv s e v =
    let one = chunks_one s.answered s.next_read in
    let who = readers_one s.answered s.next_read in
    let ended = append-nil s.answered in
    let all_chunks = append-nil (chunks s.answered) in
    let all_asked = append-nil (readers s.answered ++ s.next_read ∷ []) in
    let all_readers = append-nil (readers s.answered) in
    let same = append_assoc (readers s.answered) s.pipe.reads (s.next_read ∷ []) in
    elim (Option-cases s.pipe.failure) [
      | inl n ↦ ground (
        arith,
        ended,
        all_chunks,
        all_readers,
        all_asked,
        same,
        one (value []),
        one (error closed_message),
        who (value []),
        who (error closed_message),
      )
      | inr (m, n) ↦ ground (
        arith,
        ended,
        all_chunks,
        all_readers,
        all_asked,
        same,
        one (value []),
        one (error closed_message),
        one (error m),
        who (error m),
        who (value []),
        who (error closed_message),
      )
    ]

-- A read that takes the first string.
pub reads_first-Inv :
    (s : System) (t : Text) (ts : List Text)
    → s.pipe.writes ≡ t ∷ ts
    → All NonEmpty (t ∷ ts)
    → Inv s
    → Inv (step Call.reads s)
unfolding step read
reads_first-Inv s t ts e n v = ground (
  arith,
  append-nil (readers s.answered),
  append-nil (readers s.answered ++ s.next_read ∷ []),
  chunks_one s.answered s.next_read (value t),
  readers_one s.answered s.next_read (value t),
  chunk_of t n.0,
  append_assoc (chunks s.answered) (t ∷ []) (ts ++ s.dropped),
)

pub reads-Inv : (s : System) → Inv s → Inv (step Call.reads s)
reads-Inv s v = elim (List-cases s.pipe.writes) [
  | inl e ↦ reads_drained-Inv s e v
  | inr (t, ts, e) ↦ reads_first-Inv s t ts e (coe 0 1 (i. All NonEmpty (e i)) v.no_empty) v
]

pub writes-Inv : (t : Text) (s : System) → Inv s → Inv (step (Call.writes t) s)
unfolding step write
writes-Inv [] s v = ground (arith, append-nil s.accepted, append-nil s.answered)
writes-Inv (b ∷ t) s v =
    let ended = append-nil s.accepted in
    let same = append-nil s.answered in
    elim (List-cases s.pipe.reads) [
      | inl e ↦ ground (
        arith,
        ended,
        same,
        append-nil s.pipe.writes,
        append-nil (s.pipe.writes ++ (b ∷ t) ∷ []),
        append_assoc (chunks s.answered) s.pipe.writes ((b ∷ t) ∷ []),
        All-append NonEmpty s.pipe.writes ((b ∷ t) ∷ []) v.no_empty (cons-NonEmpty b t, tt),
      )
      | inr (r, rs, e) ↦ ground (
        arith,
        ended,
        same,
        append-nil (chunks s.answered),
        append-nil (chunks s.answered ++ (b ∷ t) ∷ []),
        chunks_one s.answered r (value (b ∷ t)),
        readers_one s.answered r (value (b ∷ t)),
        append_assoc (readers s.answered) (r ∷ []) rs,
      )
    ]

pub closes_reader-Inv : (s : System) → Inv s → Inv (step Call.closes_reader s)
unfolding step close_reader
closes_reader-Inv s v =
    let m : Outcome Text Text = error closed_message in
    ground (
      arith,
      append-nil s.answered,
      append-nil s.pipe.writes,
      append-nil (readers s.answered ++ s.pipe.reads),
      chunks_same s.answered m s.pipe.reads refl,
      readers_all s.answered m s.pipe.reads,
    )

pub closes_writer-Inv : (s : System) → Inv s → Inv (step Call.closes_writer s)
unfolding step close_writer
closes_writer-Inv s v = ground (
  arith,
  append-nil s.answered,
  append-nil (readers s.answered ++ s.pipe.reads),
  chunks_same s.answered (value []) s.pipe.reads refl,
  readers_all s.answered (value []) s.pipe.reads,
)

pub fails-Inv : (m : Text) (s : System) → Inv s → Inv (step (Call.fails m) s)
unfolding step fail_writer
fails-Inv m s v = ground (
  arith,
  append-nil s.answered,
  append-nil (readers s.answered ++ s.pipe.reads),
  chunks_same s.answered (error m) s.pipe.reads refl,
  readers_all s.answered (error m) s.pipe.reads,
)

pub step-Inv : (c : Call) (s : System) → Inv s → Inv (step c s)
step-Inv Call.reads s v = reads-Inv s v
step-Inv (Call.writes t) s v = writes-Inv t s v
step-Inv Call.closes_reader s v = closes_reader-Inv s v
step-Inv Call.closes_writer s v = closes_writer-Inv s v
step-Inv (Call.fails m) s v = fails-Inv m s v

pub start-Inv : Inv start
start-Inv = ground arith

pub run-Inv : (cs : List Call) (s : System) → Inv s → Inv (run cs s)
unfolding run
run-Inv [] s v = v
run-Inv (c ∷ cs) s v = run-Inv cs (step c s) (step-Inv c s v)

pub reach-Inv : (cs : List Call) → Inv (run cs start)
reach-Inv cs = run-Inv cs start start-Inv
