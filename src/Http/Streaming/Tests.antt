-- ===== src/Http/Streaming/Tests.antt =====
-- src/decoder.hpp: a request with a body, handed out before its body is complete.
use libprocess.Common.{
  ℕ, at, ◌<◌, ◌≡◌, refl, true, false, Option, none, some, List, [], ◌∷◌, ◌++◌, if◌then◌else◌,
}
use libprocess.Http.Pipe.{Text}
use libprocess.Http.Query.{decode_query}
use libprocess.Http.Message.{Info, ParserCallback, Position, UrlParts, CallbackResult}
use libprocess.Http.Streaming.{WriterCall, Gzip, call_stream}
use libprocess.Http.Streaming.System.{
  Phase, System, pipes_of, begins, reads_head, ends_head, reads_content, completes, hands_out,
  Reach, here, next,
}
use libprocess.Http.Streaming.Sound.{Script, script, writing, is_pipe, below}
use libprocess.Http.Streaming.History.{pipes_end}

abbrev parse_url : Text → Option UrlParts
parse_url s = some (record { path = some s; fragment = none; query = none })

abbrev no_tokens : Text → List Text
no_tokens s = []

abbrev no_gzip : Gzip
no_gzip = record { Decompressor = ℕ; start = 0; decompress = λ s z. none; finished = λ z. true }

abbrev info : Info
info = record { method = 71 ∷ []; keep_alive = true; status = 0 }

abbrev served : System ℕ
served = record {
  phase = Phase.between;
  decoder = record {
    failure = false;
    reading = record { position = Position.at_field; field = []; value = [] };
    query = [];
    url = 47 ∷ [];
    request = none;
    writer = none;
    decompressor = none;
    requests = [];
    pipes = 1;
    calls =
        at (at (λ n. []) 0 (WriterCall.writes (5 ∷ []) ∷ [])) 0
          (WriterCall.writes (5 ∷ []) ∷ WriterCall.closes ∷ []);
  };
  handed = 0 ∷ [];
  aborted = false;
}

served-Reach : Reach parse_url no_tokens no_tokens no_gzip [] [] [] served
unfolding call_stream decode_query
served-Reach =
    next
      (next
        (next
          (next
            (next (next here (begins refl)) (reads_head (ParserCallback.url (47 ∷ [])) refl refl))
            (ends_head info refl))
          (hands_out refl))
        (reads_content (ParserCallback.body (5 ∷ [])) refl refl))
      (completes refl)

pipes_end_example :
    (served.aborted ≡ false)
    × (served.decoder.failure ≡ true
        → call_stream parse_url no_tokens no_tokens no_gzip [] ParserCallback.message_begin
            served.decoder
          ≡ CallbackResult.aborts)
    × (served.handed ++ pipes_of served.decoder.requests ≡ below served.decoder.pipes)
    × ((n : ℕ)
        → n < served.decoder.pipes
        → script (served.decoder.calls n) ≡ (
            if is_pipe (writing served.phase served.decoder.writer) n
            then Script.opened
            else Script.ended))
pipes_end_example = pipes_end parse_url no_tokens no_tokens no_gzip [] [] [] served served-Reach
