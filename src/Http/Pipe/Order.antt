-- ===== src/Http/Pipe/Order.antt =====
-- src/http.cpp: what the readers of a `Pipe` get, and in which order.
use libprocess.Common.{
  ℕ, true, ◌≡◌, ◌≢◌, ◌⊎◌, inl, inr, List, [], ◌∷◌, ◌++◌, arith, append-nil, All, List-cases,
}
use libprocess.Future.{value}
use libprocess.Http.Pipe.{Text, ReadEnd, WriteEnd, Pipe, Reply, read_writes, read}
use libprocess.Http.Pipe.History.{Call, System, start, run, chunks, readers, NonEmpty}
use libprocess.Http.Pipe.Invariant.{Inv, reach-Inv}
use libprocess.Http.Pipe.Eof.{has_end, after_end, reach-EndsOnce}

-- Through every history the strings that reads got, then those that wait to be read, then those
-- thrown away when the reader closed, are the non-empty strings that `write` took, in their order;
-- and while the reader is open none have been thrown away.
pub chunks_in_order :
    (cs : List Call)
    → let s = run cs start in
      (chunks s.answered ++ (s.pipe.writes ++ s.dropped) ≡ s.accepted)
      × (s.pipe.read_end ≡ ReadEnd.opened → s.dropped ≡ [])
chunks_in_order cs = let v = reach-Inv cs in (v.kept, v.none_dropped)

-- Every read is answered once and in the order of the calls: the reads answered so far, followed by
-- those that wait, are the reads called. None waits while there is a string to read, nor once
-- either end of the pipe is closed or the writer has failed.
pub reads_in_order :
    (cs : List Call)
    → let s = run cs start in
      (readers s.answered ++ s.pipe.reads ≡ s.asked)
      × ((s.pipe.reads ≡ []) ⊎ (s.pipe.writes ≡ []))
      × (s.pipe.read_end ≡ ReadEnd.closed → s.pipe.reads ≡ [])
      × (s.pipe.write_end ≢ WriteEnd.opened → s.pipe.reads ≡ [])
reads_in_order cs =
    let v = reach-Inv cs in (v.served, v.one_side, v.none_waits, v.none_waits_closed)

read_first :
    (t : Text) (ts : List Text) (r : ℕ) (p : Pipe)
    → NonEmpty t
    → (read_writes (t ∷ ts) r p).1 ≢ Reply.answers (value [])
read_first t ts r p n = ground arith

all_read :
    (s : System) → Inv s → s.pipe.writes ≡ [] → s.dropped ≡ [] → chunks s.answered ≡ s.accepted
all_read s v w d = ground (arith, w, d, append-nil (chunks s.answered))

end_of_file :
    (s : System) (r : ℕ)
    → Inv s
    → ((read r s.pipe).1 ≡ Reply.answers (value [])
        → (s.pipe.write_end ≡ WriteEnd.closed) × (chunks s.answered ≡ s.accepted))
      × ((read r s.pipe).1 ≢ Reply.check_fails)
unfolding read
end_of_file s r v = elim (List-cases s.pipe.writes) [
  | inl e ↦ ground (arith, e, append-nil (chunks s.answered))
  | inr (t, ts, e) ↦ let n = (coe 0 1 (i. All NonEmpty (e i)) v.no_empty).0 in ground (arith, e, n)
]

-- In every history: once a read, at once or after it waited, was answered with the empty string, the writer has closed, reads
-- got every string that `write` took, and no read got a string after that; a read that is called then and answered with
-- the empty string finds the same; and the CHECK that a failed writer has given a reason holds.
pub end_of_file_last :
    (cs : List Call)
    → let s = run cs start in
      (has_end s.answered ≡ true
        → (s.pipe.write_end ≡ WriteEnd.closed)
          × (chunks s.answered ≡ s.accepted)
          × (chunks (after_end s.answered) ≡ []))
      × ((r : ℕ)
          → ((read r s.pipe).1 ≡ Reply.answers (value [])
              → (s.pipe.write_end ≡ WriteEnd.closed) × (chunks s.answered ≡ s.accepted))
            × ((read r s.pipe).1 ≢ Reply.check_fails))
end_of_file_last cs =
    let v = reach-Inv cs in
    (
      λ h. (let e = reach-EndsOnce cs h in (e.0.0, all_read (run cs start) v e.0.1 e.0.2, e.1)),
      λ r. end_of_file (run cs start) r v,
    )
