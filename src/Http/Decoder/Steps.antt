-- ===== src/Http/Decoder/Steps.antt =====
-- src/decoder.hpp: what the callbacks of one message do to a `DataDecoder`.
use libprocess.Common.{
  ◌≡◌, refl, ◌∙◌, false, Option, none, some, List, [], ◌∷◌, ◌++◌, append-nil, append_assoc,
}
use libprocess.Http.Pipe.{Text}
use libprocess.Http.Query.{Pairs}
use libprocess.Http.Message.{
  Info, ParserCallback, message_complete, url, header_field, header_value, body, headers_complete,
  Position, Reading, new_reading, set_header, UrlParts, Request, new_request,
}
use libprocess.Http.Decoder.{DataDecoder, execute}
use libprocess.Http.Decoder.Fragments.{
  HeaderFragments, Fragments, pieces, header_callbacks, callbacks, joined, joined_headers,
  set_headers, headers_of,
}

abbrev pub at_header : Position → Text → Text → Reading
at_header p f v = record { position = p; field = f; value = v }

-- A decoder within a message.
abbrev pub active : Reading → Text → Text → Request → List Request → DataDecoder
active reading query target r rs = record {
  failure = false;
  reading = reading;
  query = query;
  url = target;
  request = some r;
  requests = rs;
}

module _ (parse_url : Text → Option UrlParts) (tokenize split : Text → List Text)
    (decompress : Text → Option Text) where
  execute-url :
      (ss : List Text) (rest : List ParserCallback) (h : Reading) (q u : Text) (r : Request)
      (rs : List Request)
      → execute parse_url tokenize split decompress (pieces url ss rest) (active h q u r rs)
        ≡ execute parse_url tokenize split decompress rest (active h q (u ++ joined ss) r rs)
  unfolding execute
  execute-url [] rest h q u r rs = rw append-nil
  execute-url (s ∷ ss) rest h q u r rs = execute-url ss rest h q (u ++ s) r rs ∙ rw append_assoc

  execute-body :
      (ss : List Text) (rest : List ParserCallback) (h : Reading) (q u : Text) (r : Request)
      (rs : List Request)
      → execute parse_url tokenize split decompress (pieces body ss rest) (active h q u r rs)
        ≡ execute parse_url tokenize split decompress rest
            (active h q u (record r { body = r.body ++ joined ss }) rs)
  unfolding execute
  execute-body [] rest h q u r rs = rw append-nil
  execute-body (s ∷ ss) rest h q u r rs =
      execute-body ss rest h q u (record r { body = r.body ++ s }) rs ∙ rw append_assoc

  execute-field :
      (ss : List Text) (rest : List ParserCallback) (f v q u : Text) (r : Request)
      (rs : List Request)
      → execute parse_url tokenize split decompress
          (pieces header_field ss rest)
          (active (at_header Position.at_field f v) q u r rs)
        ≡ execute parse_url tokenize split decompress rest
            (active (at_header Position.at_field (f ++ joined ss) v) q u r rs)
  unfolding execute
  execute-field [] rest f v q u r rs = rw append-nil
  execute-field (s ∷ ss) rest f v q u r rs =
      execute-field ss rest (f ++ s) v q u r rs ∙ rw append_assoc

  execute-value :
      (ss : List Text) (rest : List ParserCallback) (f v q u : Text) (r : Request)
      (rs : List Request)
      → execute parse_url tokenize split decompress
          (pieces header_value ss rest)
          (active (at_header Position.at_value f v) q u r rs)
        ≡ execute parse_url tokenize split decompress rest
            (active (at_header Position.at_value f (v ++ joined ss)) q u r rs)
  unfolding execute
  execute-value [] rest f v q u r rs = rw append-nil
  execute-value (s ∷ ss) rest f v q u r rs =
      execute-value ss rest f (v ++ s) q u r rs ∙ rw append_assoc

  -- One header, after others or as the first.
  execute-header :
      (h : HeaderFragments) (rest : List ParserCallback) (f v q u : Text) (r : Request)
      (rs : List Request)
      → execute parse_url tokenize split decompress
          (header_callbacks (h ∷ []) rest)
          (active (at_header Position.at_value f v) q u r rs)
        ≡ execute parse_url tokenize split decompress rest (
            active
              (at_header Position.at_value
                (h.field ++ joined h.more_field)
                (h.value ++ joined h.more_value))
              q
              u
              (record r { headers = set_header f v r.headers })
              rs)
  unfolding execute
  execute-header h rest f v q u r rs =
      let r' = record r { headers = set_header f v r.headers } in
      execute-field h.more_field _ h.field [] q u r' rs
      ∙ execute-value h.more_value rest (h.field ++ joined h.more_field) h.value q u r' rs

  execute-first_header :
      (h : HeaderFragments) (rest : List ParserCallback) (q u : Text) (r : Request)
      (rs : List Request)
      → execute parse_url tokenize split decompress
          (header_callbacks (h ∷ []) rest)
          (active new_reading q u r rs)
        ≡ execute parse_url tokenize split decompress rest (
            active
              (at_header Position.at_value
                (h.field ++ joined h.more_field)
                (h.value ++ joined h.more_value))
              q
              u
              r
              rs)
  unfolding execute
  execute-first_header h rest q u r rs =
      execute-field h.more_field _ h.field [] q u r rs
      ∙ execute-value h.more_value rest (h.field ++ joined h.more_field) h.value q u r rs

  abbrev completed : Info → Pairs → Request → Request
  completed i hs r = record r { headers = hs; method = i.method; keep_alive = i.keep_alive }

  -- The headers, up to and with the last one that `on_headers_complete` adds.
  execute-headers :
      (hs : List HeaderFragments) (i : Info) (rest : List ParserCallback) (f v q u : Text)
      (r : Request) (rs : List Request)
      → execute parse_url tokenize split decompress
          (header_callbacks hs (headers_complete i ∷ rest))
          (active (at_header Position.at_value f v) q u r rs)
        ≡ execute parse_url tokenize split decompress rest (
            active
              (at_header Position.at_value [] [])
              q
              u
              (completed i (set_headers ((f, v) ∷ joined_headers hs) r.headers) r)
              rs)
  unfolding execute
  execute-headers [] i rest f v q u r rs = refl
  execute-headers (h ∷ hs) i rest f v q u r rs =
      execute-header h (header_callbacks hs (headers_complete i ∷ rest)) f v q u r rs
      ∙ execute-headers hs i rest (h.field ++ joined h.more_field) (h.value ++ joined h.more_value)
          q u (record r { headers = set_header f v r.headers }) rs

  -- All headers of a message: what is left of the reading is empty.
  abbrev pub position_after : List HeaderFragments → Position
  position_after [] = Position.at_field
  position_after (h ∷ hs) = Position.at_value

  execute-all_headers :
      (hs : List HeaderFragments) (i : Info) (rest : List ParserCallback) (q u : Text) (r : Request)
      (rs : List Request)
      → r.headers ≡ []
      → execute parse_url tokenize split decompress
          (header_callbacks hs (headers_complete i ∷ rest))
          (active new_reading q u r rs)
        ≡ execute parse_url tokenize split decompress rest (
            active
              (at_header (position_after hs) [] [])
              q
              u
              (completed i (headers_of (joined_headers hs)) r)
              rs)
  unfolding execute
  execute-all_headers [] i rest q u r rs e = rw e refl
  execute-all_headers (h ∷ hs) i rest q u r rs e =
      execute-first_header h (header_callbacks hs (headers_complete i ∷ rest)) q u r rs
      ∙ execute-headers hs i rest (h.field ++ joined h.more_field) (h.value ++ joined h.more_value)
          q u r rs
      ∙ rw e refl

  -- The request that a message makes before its URL is looked at.
  abbrev pub raw_request : Fragments → Request
  raw_request f = record new_request {
    method = f.info.method;
    keep_alive = f.info.keep_alive;
    headers = headers_of (joined_headers f.headers);
    body = joined f.body_parts;
  }

  pub execute-message :
      (f : Fragments) (rest : List ParserCallback) (reading : Reading) (q u : Text)
      (rs : List Request)
      → execute parse_url tokenize split decompress (callbacks f rest) (record {
        failure = false;
        reading = reading;
        query = q;
        url = u;
        request = none;
        requests = rs;
      })
        ≡ execute parse_url tokenize split decompress (message_complete ∷ rest) (
            active
              (at_header (position_after f.headers) [] [])
              []
              (joined f.url_parts)
              (raw_request f)
              rs)
  unfolding execute
  execute-message f rest reading q u rs =
      execute-url f.url_parts _ new_reading [] [] new_request rs
      ∙ execute-all_headers f.headers f.info _ [] (joined f.url_parts) new_request rs refl
      ∙ execute-body f.body_parts _ (at_header (position_after f.headers) [] []) []
          (joined f.url_parts) _ rs
