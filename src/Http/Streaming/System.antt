-- ===== src/Http/Streaming/System.antt =====
-- src/decoder.hpp: histories of a `StreamingRequestDecoder`, driven by the http_parser library.
use libprocess.Common.{ℕ, ◌≡◌, Bool, true, false, Option, List, [], ◌∷◌, ◌++◌}
use libprocess.Http.Pipe.{Text}
use libprocess.Http.Message.{Info, ParserCallback, UrlParts, Request, CallbackResult}
use libprocess.Http.Streaming.{Gzip, Streaming, new_streaming, call_stream, stop, delete}

-- Where the parser stands. It skips the body where `on_headers_complete` returns 1, and does nothing more
-- when it has stopped. A callback has failed where it stands in `fails` or, with the writer ended,
-- `fails_ended`.
pub data Phase : Type 0 where
  between head content skips fails fails_ended stopped deleted : Phase

abbrev pub is_alive : Phase → Bool
is_alive Phase.fails = false
is_alive Phase.fails_ended = false
is_alive Phase.stopped = false
is_alive Phase.deleted = false
is_alive _ = true

abbrev pub is_deleted : Phase → Bool
is_deleted Phase.deleted = true
is_deleted _ = false

abbrev pub has_failed : Phase → Bool
has_failed Phase.fails = true
has_failed Phase.fails_ended = true
has_failed _ = false

abbrev pub is_head : ParserCallback → Bool
is_head (ParserCallback.url s) = true
is_head (ParserCallback.header_field s) = true
is_head (ParserCallback.header_value s) = true
is_head ParserCallback.other = true
is_head _ = false

-- Trailers, and the callbacks of chunks, come with the body.
abbrev pub is_content : ParserCallback → Bool
is_content (ParserCallback.body s) = true
is_content (ParserCallback.header_field s) = true
is_content (ParserCallback.header_value s) = true
is_content ParserCallback.other = true
is_content _ = false

-- `handed` are the pipes of the requests that `decode` has returned.
pub record System (D : Type 0) : Type 0 where
  pub phase : Phase
  pub decoder : Streaming D
  pub handed : List ℕ
  pub aborted : Bool

abbrev pub start_system : (D : Type 0) → System D
start_system D = record {
  phase = Phase.between;
  decoder = new_streaming D;
  handed = [];
  aborted = false;
}

abbrev pub pipes_of : List (Request × ℕ) → List ℕ
pipes_of [] = []
pipes_of ((r, n) ∷ rs) = n ∷ pipes_of rs

module _ (parse_url : Text → Option UrlParts) (tokenize split : Text → List Text) (gz : Gzip)
    (unfinished stop_message delete_message : Text) where
  open gz use {Decompressor}

  -- What the parser does after a callback.
  abbrev pub after :
      Phase → CallbackResult (Streaming Decompressor) → System Decompressor → System Decompressor
  after phase (CallbackResult.success d) s = record s { phase = phase; decoder = d }
  after phase (CallbackResult.failure d) s = record s { phase = Phase.fails; decoder = d }
  after phase CallbackResult.aborts s = record s { aborted = true }

  abbrev pub after_complete :
      CallbackResult (Streaming Decompressor) → System Decompressor → System Decompressor
  after_complete (CallbackResult.success d) s = record s { phase = Phase.between; decoder = d }
  after_complete (CallbackResult.failure d) s = record s { phase = Phase.fails_ended; decoder = d }
  after_complete CallbackResult.aborts s = record s { aborted = true }

  abbrev pub after_headers :
      CallbackResult (Streaming Decompressor) → System Decompressor → System Decompressor
  after_headers (CallbackResult.success d) s = record s { phase = Phase.content; decoder = d }
  after_headers (CallbackResult.failure d) s = record s { phase = Phase.skips; decoder = d }
  after_headers CallbackResult.aborts s = record s { aborted = true }

  abbrev pub calls_back :
      ParserCallback → System Decompressor → CallbackResult (Streaming Decompressor)
  calls_back c s = call_stream parse_url tokenize split gz unfinished c s.decoder

  pub data Step (s : System Decompressor) : System Decompressor → Type 0 where
    begins :
        s.phase ≡ Phase.between
        → Step s (after Phase.head (calls_back ParserCallback.message_begin s) s)
    reads_head :
        (c : ParserCallback)
        → is_head c ≡ true
        → s.phase ≡ Phase.head
        → Step s (after Phase.head (calls_back c s) s)
    ends_head :
        (i : Info)
        → s.phase ≡ Phase.head
        → Step s (after_headers (calls_back (ParserCallback.headers_complete i) s) s)
    reads_content :
        (c : ParserCallback)
        → is_content c ≡ true
        → s.phase ≡ Phase.content
        → Step s (after Phase.content (calls_back c s) s)
    completes :
        s.phase ≡ Phase.content
        → Step s (after_complete (calls_back ParserCallback.message_complete s) s)
    skips_body :
        s.phase ≡ Phase.skips
        → Step s (after Phase.between (calls_back ParserCallback.message_complete s) s)
    -- The parser finds an error, or leaves the rest of its data after an upgrade.
    finds_error :
        is_alive s.phase ≡ true
        → Step s (record s {
          phase = Phase.stopped;
          decoder = stop parse_url tokenize split gz stop_message s.decoder;
        })
    -- `decode` sees that not all was parsed, in the call in which the callback failed or in the next one.
    stops :
        has_failed s.phase ≡ true
        → Step s (record s {
          phase = Phase.stopped;
          decoder = stop parse_url tokenize split gz stop_message s.decoder;
        })
    hands_out :
        is_deleted s.phase ≡ false
        → Step s (record s {
          decoder = record s.decoder { requests = [] };
          handed = s.handed ++ pipes_of s.decoder.requests;
        })
    deletes :
        is_deleted s.phase ≡ false
        → Step s (record s {
          phase = Phase.deleted;
          decoder = delete parse_url tokenize split gz delete_message s.decoder;
        })

  pub data Reach : System Decompressor → Type 0 where
    here : Reach (start_system Decompressor)
    next : {s t : System Decompressor} → Reach s → Step s t → Reach t
