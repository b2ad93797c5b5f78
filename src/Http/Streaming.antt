-- ===== src/Http/Streaming.antt =====
-- src/decoder.hpp: `StreamingRequestDecoder`, which hands out a request when its headers are complete,
-- and writes the body into the pipe of the request. A pipe is a number, and the calls on its writer are
-- a list, since readers may work on the pipe at any time (Http/Pipe.antt).
pub mod System
pub mod Sound
pub mod Callbacks
pub mod Stops
pub mod Ends
pub mod History
mod Tests
use libprocess.Common.{
  ℕ, suc, at, ◌+◌, Bool, true, false, Option, none, some, List, [], ◌∷◌, ◌++◌, if◌then◌else◌,
}
use libprocess.Http.Pipe.{Text}
use libprocess.Http.Query.{Pairs, decode_query, decode_tokens}
use libprocess.Http.Message.{
  Info, ParserCallback, Position, Reading, new_reading, add_value, clear_reading, read_field,
  set_header, get_header, content_encoding, is_gzip, UrlParts, Request, new_request, or_else,
  CallbackResult,
}

-- The calls of a `Pipe::Writer`.
pub data WriterCall : Type 0 where
  writes fails : Text → WriterCall
  closes : WriterCall

-- gzip::Decompressor of stout: none is an error.
pub record Gzip : Type 1 where
  pub Decompressor : Type 0
  pub start : Decompressor
  pub decompress : Text → Decompressor → Option (Decompressor × Text)
  pub finished : Decompressor → Bool

pub record Streaming (D : Type 0) : Type 0 where
  pub failure : Bool
  pub reading : Reading
  pub query : Text
  pub url : Text
  pub request : Option Request
  pub writer : Option ℕ
  pub decompressor : Option D
  pub requests : List (Request × ℕ)
  pub pipes : ℕ
  pub calls : ℕ → List WriterCall

abbrev pub new_streaming : (D : Type 0) → Streaming D
new_streaming D = record {
  failure = false;
  reading = new_reading;
  query = [];
  url = [];
  request = none;
  writer = none;
  decompressor = none;
  requests = [];
  pipes = 0;
  calls = λ n. [];
}

module _ (parse_url : Text → Option UrlParts) (tokenize split : Text → List Text) (gz : Gzip) where
  open gz use {Decompressor, start, decompress, finished}

  abbrev pub call_writer : ℕ → WriterCall → Streaming Decompressor → Streaming Decompressor
  call_writer n c d = record d { calls = at d.calls n (d.calls n ++ c ∷ []) }

  abbrev pub begin_stream :
      Bool
      → Option Request
      → Option ℕ
      → Streaming Decompressor
      → CallbackResult (Streaming Decompressor)
  begin_stream false none none d = CallbackResult.success (record d {
    reading = new_reading;
    query = [];
    url = [];
    request = some new_request;
    decompressor = none;
  })
  begin_stream _ _ _ d = CallbackResult.aborts

  -- `on_headers_complete`
  abbrev pub start_body :
      Request → Option ℕ → Streaming Decompressor → CallbackResult (Streaming Decompressor)
  start_body r (some n) d = CallbackResult.aborts
  start_body r none d = CallbackResult.success (record d {
    writer = some d.pipes;
    pipes = suc d.pipes;
    requests = d.requests ++ (r, d.pipes) ∷ [];
    request = none;
    decompressor =
        if is_gzip (get_header content_encoding r.headers) then some start else d.decompressor;
  })

  abbrev pub stream_query :
      Option Pairs → Request → Streaming Decompressor → CallbackResult (Streaming Decompressor)
  stream_query none r d = CallbackResult.failure (record d { failure = true; request = some r })
  stream_query (some q) r d = start_body (record r { query = q }) d.writer d

  abbrev pub stream_url :
      Option UrlParts → Request → Streaming Decompressor → CallbackResult (Streaming Decompressor)
  unfolding decode_query
  stream_url none r d = CallbackResult.failure (record d { failure = true; request = some r })
  stream_url (some u) r d =
      let query = or_else u.query d.query in
      stream_query (decode_query tokenize split query)
        (record r { path = or_else u.path r.path; fragment = u.fragment })
        (record d { query = query })

  abbrev pub complete_headers :
      Info → Option Request → Streaming Decompressor → CallbackResult (Streaming Decompressor)
  unfolding decode_query
  complete_headers i none d = CallbackResult.aborts
  complete_headers i (some r) d =
      stream_url (parse_url d.url)
        (record r {
          headers = set_header d.reading.field d.reading.value r.headers;
          method = i.method;
          keep_alive = i.keep_alive;
        })
        (record d { reading = clear_reading d.reading })

  -- The callbacks that refuse what comes when there is no request.
  abbrev pub add_url :
      Text → Option Request → Streaming Decompressor → CallbackResult (Streaming Decompressor)
  add_url s none d = CallbackResult.failure d
  add_url s (some r) d = CallbackResult.success (record d { url = d.url ++ s })

  abbrev pub add_header_field :
      Text → Option Request → Streaming Decompressor → CallbackResult (Streaming Decompressor)
  add_header_field s none d = CallbackResult.failure d
  add_header_field s (some r) d =
      let (reading, headers) = read_field d.reading.position s d.reading r.headers in
      CallbackResult.success
        (record d { reading = reading; request = some (record r { headers = headers }) })

  abbrev pub add_header_value :
      Text → Option Request → Streaming Decompressor → CallbackResult (Streaming Decompressor)
  add_header_value s none d = CallbackResult.failure d
  add_header_value s (some r) d =
      CallbackResult.success (record d { reading = add_value s d.reading })

  -- `on_body`
  abbrev pub write_decompressed :
      ℕ
      → Option (Decompressor × Text)
      → Streaming Decompressor
      → CallbackResult (Streaming Decompressor)
  write_decompressed n none d = CallbackResult.failure (record d { failure = true })
  write_decompressed n (some (z, s)) d =
      CallbackResult.success
        (call_writer n (WriterCall.writes s) (record d { decompressor = some z }))

  abbrev pub write_body :
      Text
      → ℕ
      → Option Decompressor
      → Streaming Decompressor
      → CallbackResult (Streaming Decompressor)
  write_body s n none d = CallbackResult.success (call_writer n (WriterCall.writes s) d)
  write_body s n (some z) d = write_decompressed n (decompress s z) d

  abbrev pub add_body :
      Text → Option ℕ → Streaming Decompressor → CallbackResult (Streaming Decompressor)
  add_body s none d = CallbackResult.aborts
  add_body s (some n) d = write_body s n d.decompressor d

  -- `on_message_complete`
  abbrev pub is_unfinished : Option Decompressor → Bool
  is_unfinished none = false
  is_unfinished (some z) = if finished z then false else true

  abbrev pub complete_message :
      Text → Option ℕ → Streaming Decompressor → CallbackResult (Streaming Decompressor)
  complete_message message none d =
      if d.failure then CallbackResult.failure d else CallbackResult.aborts
  complete_message message (some n) d =
      if is_unfinished d.decompressor
      then CallbackResult.failure
          (record (call_writer n (WriterCall.fails message) d) { failure = true })
      else CallbackResult.success (record (call_writer n WriterCall.closes d) { writer = none })

  -- `unfinished` is the message of `on_message_complete`.
  unfoldable pub call_stream :
      Text → ParserCallback → Streaming Decompressor → CallbackResult (Streaming Decompressor)
  unfolding decode_query
  call_stream unfinished ParserCallback.message_begin d =
      begin_stream d.failure d.request d.writer d
  call_stream unfinished (ParserCallback.url s) d = add_url s d.request d
  call_stream unfinished (ParserCallback.header_field s) d = add_header_field s d.request d
  call_stream unfinished (ParserCallback.header_value s) d = add_header_value s d.request d
  call_stream unfinished (ParserCallback.headers_complete i) d = complete_headers i d.request d
  call_stream unfinished (ParserCallback.body s) d = add_body s d.writer d
  call_stream unfinished ParserCallback.message_complete d = complete_message unfinished d.writer d
  call_stream unfinished ParserCallback.other d = CallbackResult.success d

  -- The end of `decode` where the parser has stopped, and the destructor.
  abbrev pub fail_body : Text → Option ℕ → Streaming Decompressor → Streaming Decompressor
  fail_body message none d = d
  fail_body message (some n) d = call_writer n (WriterCall.fails message) d

  unfoldable pub stop : Text → Streaming Decompressor → Streaming Decompressor
  stop message d = record (fail_body message d.writer d) { failure = true; writer = none }

  unfoldable pub delete : Text → Streaming Decompressor → Streaming Decompressor
  delete message d = fail_body message d.writer d
