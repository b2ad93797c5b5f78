-- ===== src/Http/Pipe/Tests.antt =====
-- A `Pipe` (src/http.cpp) at work, and the theorems at this history.
use libprocess.Common.{ℕ, true, ◌≡◌, ◌≢◌, refl, ◌⊎◌, List, [], ◌∷◌, ◌++◌}
use libprocess.Future.{value}
use libprocess.Http.Pipe.{ReadEnd, WriteEnd, Reply, read, write, close_writer}
use libprocess.Http.Pipe.History.{Call, start, run, step, chunks, readers}
use libprocess.Http.Pipe.Eof.{has_end, after_end}
use libprocess.Http.Pipe.Order.{chunks_in_order, reads_in_order, end_of_file_last}

-- A read waits and gets the first string, two strings are kept, a read takes the next one, the
-- writer closes, and two more reads get the last string and the end of the stream.
abbrev calls : List Call
calls =
    Call.reads
    ∷ Call.writes (1 ∷ [])
    ∷ Call.writes (2 ∷ [])
    ∷ Call.writes []
    ∷ Call.writes (3 ∷ 4 ∷ [])
    ∷ Call.reads
    ∷ Call.closes_writer
    ∷ Call.reads
    ∷ Call.reads
    ∷ []

calls_answered :
    (run calls start).answered
    ≡ (0, value (1 ∷ [])) ∷ (1, value (2 ∷ [])) ∷ (2, value (3 ∷ 4 ∷ [])) ∷ (3, value []) ∷ []
unfolding run step read write close_writer
calls_answered = refl

chunks_in_order_example :
    let s = run calls start in
    (chunks s.answered ++ (s.pipe.writes ++ s.dropped) ≡ s.accepted)
    × (s.pipe.read_end ≡ ReadEnd.opened → s.dropped ≡ [])
chunks_in_order_example = chunks_in_order calls

reads_in_order_example :
    let s = run calls start in
    (readers s.answered ++ s.pipe.reads ≡ s.asked)
    × ((s.pipe.reads ≡ []) ⊎ (s.pipe.writes ≡ []))
    × (s.pipe.read_end ≡ ReadEnd.closed → s.pipe.reads ≡ [])
    × (s.pipe.write_end ≢ WriteEnd.opened → s.pipe.reads ≡ [])
reads_in_order_example = reads_in_order calls

end_of_file_last_example :
    let s = run calls start in
    (has_end s.answered ≡ true
      → (s.pipe.write_end ≡ WriteEnd.closed)
        × (chunks s.answered ≡ s.accepted)
        × (chunks (after_end s.answered) ≡ []))
    × ((r : ℕ)
        → ((read r s.pipe).1 ≡ Reply.answers (value [])
            → (s.pipe.write_end ≡ WriteEnd.closed) × (chunks s.answered ≡ s.accepted))
          × ((read r s.pipe).1 ≢ Reply.check_fails))
end_of_file_last_example = end_of_file_last calls
