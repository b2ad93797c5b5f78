-- ===== src/Http/Decoder.antt =====
-- src/decoder.hpp: `DataDecoder`.
pub mod Fragments
pub mod Steps
pub mod Calls
pub mod Whole
mod Tests
use libprocess.Common.{
  ℕ, suc, ◌+◌, Bool, true, false, ◌&&◌, Option, none, some, List, [], ◌∷◌, ◌++◌, if◌then◌else◌,
  ◌==◌, leb, length,
}
use libprocess.Http.Pipe.{Text}
use libprocess.Http.Query.{Pairs, same_text, decode_query, decode_tokens}
use libprocess.Http.Message.{
  Info, ParserCallback, to_lower, same_key, set_header, get_header, content_encoding,
  content_length, gzip, is_gzip, Position, Reading, new_reading, add_field, add_value,
  clear_reading, read_field, UrlParts, Request, new_request, or_else, CallbackResult,
}

pub record DataDecoder : Type 0 where
  pub failure : Bool
  pub reading : Reading
  pub query : Text
  pub url : Text
  pub request : Option Request
  pub requests : List Request

abbrev pub new_decoder : DataDecoder
new_decoder = record {
  failure = false;
  reading = new_reading;
  query = [];
  url = [];
  request = none;
  requests = [];
}

module _ (parse_url : Text → Option UrlParts) (tokenize split : Text → List Text)
    (decompress : Text → Option Text) where
  abbrev pub begin_message : Bool → Option Request → DataDecoder → CallbackResult DataDecoder
  begin_message false none d =
      CallbackResult.success
        (record d { reading = new_reading; query = []; url = []; request = some new_request })
  begin_message _ _ d = CallbackResult.aborts

  -- `on_message_complete`, from the parts of the URL on.
  abbrev pub push_request : Request → DataDecoder → CallbackResult DataDecoder
  push_request r d =
      CallbackResult.success (record d { requests = d.requests ++ r ∷ []; request = none })

  abbrev pub complete_body : Option Text → Request → DataDecoder → CallbackResult DataDecoder
  complete_body none r d = CallbackResult.failure (record d { failure = true })
  complete_body (some s) r d =
      if leb (length s) 127
      then push_request
          (record r { body = s; headers = set_header content_length (length s ∷ []) r.headers }) d
      else CallbackResult.aborts

  abbrev pub complete_query : Option Pairs → Request → DataDecoder → CallbackResult DataDecoder
  complete_query none r d = CallbackResult.failure (record d { failure = true })
  complete_query (some q) r d =
      let r' = record r { query = q } in
      if is_gzip (get_header content_encoding r.headers)
      then complete_body (decompress r.body) r' d
      else push_request r' d

  abbrev pub complete_url : Option UrlParts → Request → DataDecoder → CallbackResult DataDecoder
  unfolding decode_query
  complete_url none r d = CallbackResult.failure (record d { failure = true })
  complete_url (some u) r d =
      let query = or_else u.query d.query in
      complete_query (decode_query tokenize split query)
        (record r { path = or_else u.path r.path; fragment = u.fragment })
        (record d { query = query })

  -- The callbacks that want a request.
  abbrev pub on_request : ParserCallback → Request → DataDecoder → CallbackResult DataDecoder
  unfolding decode_query
  on_request (ParserCallback.url s) r d = CallbackResult.success (record d { url = d.url ++ s })
  on_request (ParserCallback.header_field s) r d =
      let (reading, headers) = read_field d.reading.position s d.reading r.headers in
      CallbackResult.success
        (record d { reading = reading; request = some (record r { headers = headers }) })
  on_request (ParserCallback.header_value s) r d =
      CallbackResult.success (record d { reading = add_value s d.reading })
  on_request (ParserCallback.headers_complete i) r d = CallbackResult.success (record d {
    reading = clear_reading d.reading;
    request = some (record r {
      headers = set_header d.reading.field d.reading.value r.headers;
      method = i.method;
      keep_alive = i.keep_alive;
    });
  })
  on_request (ParserCallback.body s) r d =
      CallbackResult.success (record d { request = some (record r { body = r.body ++ s }) })
  on_request ParserCallback.message_complete r d = complete_url (parse_url d.url) r d
  on_request _ r d = CallbackResult.success d

  abbrev pub with_request :
      Option Request → ParserCallback → DataDecoder → CallbackResult DataDecoder
  unfolding decode_query
  with_request none c d = CallbackResult.aborts
  with_request (some r) c d = on_request c r d

  unfoldable pub call : ParserCallback → DataDecoder → CallbackResult DataDecoder
  unfolding decode_query
  call ParserCallback.message_begin d = begin_message d.failure d.request d
  call ParserCallback.other d = CallbackResult.success d
  call c d = with_request d.request c d

  -- http_parser_execute, which stops at a callback that fails.
  unfoldable pub execute : List ParserCallback → DataDecoder → CallbackResult DataDecoder
  unfolding call
  execute [] d = CallbackResult.success d
  execute (c ∷ cs) d = elim (call c d) [
    | CallbackResult.success d' ↦ execute cs d'
    | CallbackResult.failure d' ↦ CallbackResult.failure d'
    | CallbackResult.aborts ↦ CallbackResult.aborts
  ]

  -- `DataDecoder::decode`: the decoder and the requests that it hands out.
  abbrev pub hand_out : DataDecoder → Option (DataDecoder × List Request)
  hand_out d = some (record d { requests = [] }, d.requests)

  abbrev pub after_execute : CallbackResult DataDecoder → Option (DataDecoder × List Request)
  after_execute (CallbackResult.success d) = hand_out d
  after_execute (CallbackResult.failure d) = hand_out (record d { failure = true })
  after_execute CallbackResult.aborts = none

  unfoldable pub decode_requests :
      List ParserCallback → DataDecoder → Option (DataDecoder × List Request)
  unfolding execute
  decode_requests cs d = after_execute (execute cs d)

  -- Calls of `decode` with the callbacks that http_parser makes in each. Once a callback has failed the parser makes
  -- none. The requests of all calls.
  abbrev pub heard : Bool → List ParserCallback → List ParserCallback
  heard failed cs = if failed then [] else cs

  abbrev pub add_requests :
      List Request → Option (DataDecoder × List Request) → Option (DataDecoder × List Request)
  add_requests rs none = none
  add_requests rs (some (d, more)) = some (d, rs ++ more)

  unfoldable pub decode_all :
      List (List ParserCallback) → DataDecoder → Option (DataDecoder × List Request)
  unfolding decode_requests
  decode_all [] d = some (d, [])
  decode_all (cs ∷ css) d = elim (decode_requests (heard d.failure cs) d) [
    | none ↦ none
    | some (d', rs) ↦ add_requests rs (decode_all css d')
  ]
