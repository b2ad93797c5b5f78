-- ===== src/Http/Pipe.antt =====
-- src/http.cpp and include/process/http.hpp: `Pipe`, a stream of strings between a writer and its
-- readers. A string is a list of bytes and a waiting read is a number. Each operation is one critical
-- section, and returns beside the new state the reads that it completes afterwards, with their
-- results, in order.
pub mod History
pub mod Invariant
pub mod Eof
pub mod Order
mod Tests
use libprocess.Common.{
  ℕ, Bool, true, false, ◌&&◌, Option, none, some, List, [], ◌∷◌, ◌++◌, if◌then◌else◌,
}
use libprocess.Future.{Outcome, nothing, value, error}

abbrev pub Text : Type 0
Text = List ℕ

pub data ReadEnd : Type 0 where
  opened closed : ReadEnd

pub data WriteEnd : Type 0 where
  opened closed failed : WriteEnd

-- The future that tells the writer that the reader has closed.
pub data Closure : Type 0 where
  pending notified dropped : Closure

pub record Pipe : Type 0 where
  pub read_end : ReadEnd
  pub write_end : WriteEnd
  pub reads : List ℕ
  pub writes : List Text
  pub reader_closure : Closure
  pub failure : Option Text

-- `Pipe::Data::Data()`
abbrev pub new_pipe : Pipe
new_pipe = record {
  read_end = ReadEnd.opened;
  write_end = WriteEnd.opened;
  reads = [];
  writes = [];
  reader_closure = Closure.pending;
  failure = none;
}

-- "closed"
abbrev pub closed_message : Text
closed_message = 99 ∷ 108 ∷ 111 ∷ 115 ∷ 101 ∷ 100 ∷ []

abbrev pub read_open : Pipe → Bool
read_open p = elim p.read_end [ ReadEnd.opened ↦ true | ReadEnd.closed ↦ false ]

abbrev pub write_open : Pipe → Bool
write_open p = elim p.write_end [ WriteEnd.opened ↦ true | _ ↦ false ]

-- What a read returns: a future that is complete, one that waits, or the failure of the CHECK.
pub data Reply : Type 0 where
  answers : Outcome Text Text → Reply
  waits check_fails : Reply

abbrev pub failure_reply : Option Text → Reply
failure_reply none = Reply.check_fails
failure_reply (some m) = Reply.answers (error m)

abbrev pub read_drained : WriteEnd → ℕ → Pipe → Pipe × Reply
read_drained WriteEnd.opened promise p = (record p { reads = p.reads ++ promise ∷ [] }, Reply.waits)
read_drained WriteEnd.closed promise p = (p, Reply.answers (value []))
read_drained WriteEnd.failed promise p = (p, failure_reply p.failure)

abbrev pub read_writes : List Text → ℕ → Pipe → Pipe × Reply
read_writes [] promise p = read_drained p.write_end promise p
read_writes (s ∷ rest) promise p = (record p { writes = rest }, Reply.answers (value s))

-- `Pipe::Reader::read`, with the promise that it creates where it has to wait.
unfoldable pub read : ℕ → Pipe → Pipe × Reply
read promise p =
    if read_open p
    then read_writes p.writes promise p
    else (p, Reply.answers (error closed_message))

-- Every read of a list completes in the same way.
abbrev pub complete : Outcome Text Text → List ℕ → List (ℕ × Outcome Text Text)
complete o [] = []
complete o (r ∷ rs) = (r, o) ∷ complete o rs

abbrev pub close_closure : WriteEnd → Closure → Closure
close_closure WriteEnd.opened Closure.pending = Closure.notified
close_closure _ Closure.pending = Closure.dropped
close_closure _ c = c

-- What an operation gives: the new state, the reads that it completes, and its result.
pub record Result : Type 0 where
  pub after : Pipe
  pub completed : List (ℕ × Outcome Text Text)
  pub result : Bool

abbrev refused : Pipe → Result
refused p = record { after = p; completed = []; result = false }

-- `Pipe::Reader::close`
unfoldable pub close_reader : Pipe → Result
close_reader p =
    if read_open p
    then record {
      after = record p {
        read_end = ReadEnd.closed;
        writes = [];
        reads = [];
        reader_closure = close_closure p.write_end p.reader_closure;
      };
      completed = complete (error closed_message) p.reads;
      result = true;
    }
    else refused p

abbrev pub write_text : Text → List ℕ → Pipe → Result
write_text [] reads p = record { after = p; completed = []; result = true }
write_text (b ∷ s) [] p = record {
  after = record p { writes = p.writes ++ (b ∷ s) ∷ [] };
  completed = [];
  result = true;
}
write_text (b ∷ s) (r ∷ rs) p = record {
  after = record p { reads = rs };
  completed = (r, value (b ∷ s)) ∷ [];
  result = true;
}

-- `Pipe::Writer::write`
unfoldable pub write : Text → Pipe → Result
write s p = if write_open p && read_open p then write_text s p.reads p else refused p

-- `Pipe::Writer::close`
unfoldable pub close_writer : Pipe → Result
close_writer p =
    if write_open p
    then record {
      after = record p { write_end = WriteEnd.closed; reads = [] };
      completed = complete (value []) p.reads;
      result = true;
    }
    else refused p

-- `Pipe::Writer::fail`
unfoldable pub fail_writer : Text → Pipe → Result
fail_writer message p =
    if write_open p
    then record {
      after = record p { write_end = WriteEnd.failed; failure = some message; reads = [] };
      completed = complete (error message) p.reads;
      result = true;
    }
    else refused p
