-- ===== src/Http/Decoder/Fragments.antt =====
-- src/decoder.hpp: the callbacks for messages that arrive in fragments, and the messages as a whole.
use libprocess.Common.{
  Bool, true, false, Option, none, some, List, [], ◌∷◌, ◌++◌, if◌then◌else◌, leb, length,
}
use libprocess.Http.Pipe.{Text}
use libprocess.Http.Query.{Pairs, decode_query}
use libprocess.Http.Message.{
  Info, ParserCallback, message_begin, message_complete, url, header_field, header_value, body,
  headers_complete, set_header, get_header, content_encoding, content_length, is_gzip, UrlParts,
  Request, new_request, or_else,
}
use libprocess.Http.Decoder.{DataDecoder}

-- A header, whose name and value come in one fragment or in more.
pub record HeaderFragments : Type 0 where
  pub field : Text
  pub more_field : List Text
  pub value : Text
  pub more_value : List Text

pub record Fragments : Type 0 where
  pub info : Info
  pub url_parts : List Text
  pub headers : List HeaderFragments
  pub body_parts : List Text

-- The callbacks of a message without trailers, before those that follow.
abbrev pub pieces : (Text → ParserCallback) → List Text → List ParserCallback → List ParserCallback
pieces c [] rest = rest
pieces c (s ∷ ss) rest = c s ∷ pieces c ss rest

abbrev pub header_callbacks : List HeaderFragments → List ParserCallback → List ParserCallback
header_callbacks [] rest = rest
header_callbacks (h ∷ hs) rest =
    header_field h.field
    ∷ pieces header_field h.more_field
        (header_value h.value ∷ pieces header_value h.more_value (header_callbacks hs rest))

abbrev pub callbacks : Fragments → List ParserCallback → List ParserCallback
callbacks f rest =
    message_begin
    ∷ pieces url f.url_parts (
        header_callbacks f.headers
          (headers_complete f.info ∷ pieces body f.body_parts (message_complete ∷ rest)))

abbrev pub all_callbacks : List Fragments → List ParserCallback
all_callbacks [] = []
all_callbacks (f ∷ fs) = callbacks f (all_callbacks fs)

pub record Message : Type 0 where
  pub info : Info
  pub target : Text
  pub headers : Pairs
  pub content : Text

abbrev pub joined : List Text → Text
joined [] = []
joined (s ∷ ss) = s ++ joined ss

abbrev pub joined_headers : List HeaderFragments → Pairs
joined_headers [] = []
joined_headers (h ∷ hs) =
    (h.field ++ joined h.more_field, h.value ++ joined h.more_value) ∷ joined_headers hs

abbrev pub message_of : Fragments → Message
message_of f = record {
  info = f.info;
  target = joined f.url_parts;
  headers = joined_headers f.headers;
  content = joined f.body_parts;
}

abbrev pub messages_of : List Fragments → List Message
messages_of [] = []
messages_of (f ∷ fs) = message_of f ∷ messages_of fs

-- The headers in order, where a later one replaces an earlier one; a message without headers gets an
-- empty one.
abbrev pub set_headers : Pairs → Pairs → Pairs
set_headers [] hs = hs
set_headers ((k, v) ∷ more) hs = set_headers more (set_header k v hs)

abbrev pub headers_of : Pairs → Pairs
headers_of [] = ([], []) ∷ []
headers_of (h ∷ hs) = set_headers (h ∷ hs) []

-- What becomes of a message: a request, an error, or a failed CHECK.
pub data Verdict : Type 0 where
  accepted : Request → Verdict
  refused aborted : Verdict

module _ (parse_url : Text → Option UrlParts) (tokenize split : Text → List Text)
    (decompress : Text → Option Text) where
  abbrev pub decompressed : Option Text → Request → Verdict
  decompressed none r = Verdict.refused
  decompressed (some s) r =
      if leb (length s) 127
      then Verdict.accepted
          (record r { body = s; headers = set_header content_length (length s ∷ []) r.headers })
      else Verdict.aborted

  abbrev pub with_query : Option Pairs → Request → Verdict
  with_query none r = Verdict.refused
  with_query (some q) r =
      if is_gzip (get_header content_encoding r.headers)
      then decompressed (decompress r.body) (record r { query = q })
      else Verdict.accepted (record r { query = q })

  abbrev pub with_url : Option UrlParts → Request → Verdict
  unfolding decode_query
  with_url none r = Verdict.refused
  with_url (some u) r =
      with_query (decode_query tokenize split (or_else u.query []))
        (record r { path = or_else u.path []; fragment = u.fragment })

  unfoldable pub verdict_of : Message → Verdict
  unfolding decode_query
  verdict_of m = with_url (parse_url m.target) (record new_request {
    method = m.info.method;
    keep_alive = m.info.keep_alive;
    headers = headers_of m.headers;
    body = m.content;
  })

  -- The requests up to the first message that is refused, and whether one is.
  abbrev pub before : Verdict → Option (List Request × Bool) → Option (List Request × Bool)
  before (Verdict.accepted r) none = none
  before (Verdict.accepted r) (some (rs, failed)) = some (r ∷ rs, failed)
  before Verdict.refused rest = some ([], true)
  before Verdict.aborted rest = none

  abbrev pub requests_of : List Message → Option (List Request × Bool)
  unfolding verdict_of
  requests_of [] = some ([], false)
  requests_of (m ∷ ms) = before (verdict_of m) (requests_of ms)

abbrev pub handed_out : Option (DataDecoder × List Request) → Option (List Request × Bool)
handed_out none = none
handed_out (some (d, rs)) = some (rs, d.failure)
