-- ===== src/Http/Message.antt =====
-- src/decoder.hpp and include/process/http.hpp: what the decoders of HTTP messages share. The parser of
-- the http_parser library drives them by callbacks; a callback that fails stops the parser.
use libprocess.Common.{
  ℕ, ◌+◌, Bool, true, false, ◌&&◌, Option, none, some, [], ◌∷◌, ◌++◌, if◌then◌else◌, ◌==◌, leb,
}
use libprocess.Http.Pipe.{Text}
use libprocess.Http.Query.{Pairs, same_text}

-- What the parser knows when the headers are complete.
pub record Info : Type 0 where
  pub method : Text
  pub keep_alive : Bool
  pub status : ℕ

pub data ParserCallback : Type 0 where
  message_begin message_complete other : ParserCallback
  url header_field header_value body : Text → ParserCallback
  headers_complete : Info → ParserCallback

-- `Headers`: keys are equal if they differ in case alone.
abbrev pub to_lower : ℕ → ℕ
to_lower c = if leb 65 c && leb c 90 then c + 32 else c

abbrev pub same_key : Text → Text → Bool
same_key [] [] = true
same_key (a ∷ s) (b ∷ t) = if to_lower a == to_lower b then same_key s t else false
same_key _ _ = false

abbrev pub set_header : Text → Text → Pairs → Pairs
set_header k v [] = (k, v) ∷ []
set_header k v ((j, w) ∷ hs) = if same_key j k then (j, v) ∷ hs else (j, w) ∷ set_header k v hs

abbrev pub get_header : Text → Pairs → Option Text
get_header k [] = none
get_header k ((j, w) ∷ hs) = if same_key j k then some w else get_header k hs

-- "Content-Encoding", "Content-Length" and "gzip"
abbrev pub content_encoding : Text
content_encoding =
    67 ∷ 111 ∷ 110 ∷ 116 ∷ 101 ∷ 110 ∷ 116 ∷ 45 ∷ 69 ∷ 110 ∷ 99 ∷ 111 ∷ 100 ∷ 105 ∷ 110 ∷ 103 ∷ []

abbrev pub content_length : Text
content_length = 67 ∷ 111 ∷ 110 ∷ 116 ∷ 101 ∷ 110 ∷ 116 ∷ 45 ∷ 76 ∷ 101 ∷ 110 ∷ 103 ∷ 116 ∷ 104 ∷ []

abbrev pub gzip : Text
gzip = 103 ∷ 122 ∷ 105 ∷ 112 ∷ []

abbrev pub is_gzip : Option Text → Bool
is_gzip none = false
is_gzip (some e) = same_text e gzip

-- The header that is being read, and those that are read.
pub data Position : Type 0 where
  at_field at_value : Position

pub record Reading : Type 0 where
  pub position : Position
  pub field : Text
  pub value : Text

abbrev pub new_reading : Reading
new_reading = record { position = Position.at_field; field = []; value = [] }

abbrev pub add_field : Text → Reading → Reading
add_field s r = record r { field = r.field ++ s; position = Position.at_field }

abbrev pub add_value : Text → Reading → Reading
add_value s r = record r { value = r.value ++ s; position = Position.at_value }

abbrev pub clear_reading : Reading → Reading
clear_reading r = record r { field = []; value = [] }

-- `on_header_field`, as far as the decoders share it.
abbrev pub read_field : Position → Text → Reading → Pairs → Reading × Pairs
read_field Position.at_field s r hs = (add_field s r, hs)
read_field Position.at_value s r hs = (add_field s (clear_reading r), set_header r.field r.value hs)

-- What http_parser_parse_url finds in a URL.
pub record UrlParts : Type 0 where
  pub path : Option Text
  pub fragment : Option Text
  pub query : Option Text

pub record Request : Type 0 where
  pub method : Text
  pub keep_alive : Bool
  pub path : Text
  pub fragment : Option Text
  pub query : Pairs
  pub headers : Pairs
  pub body : Text

abbrev pub new_request : Request
new_request = record {
  method = [];
  keep_alive = false;
  path = [];
  fragment = none;
  query = [];
  headers = [];
  body = [];
}

abbrev pub or_else : Option Text → Text → Text
or_else none s = s
or_else (some t) s = t

-- What a callback returns, or a failed CHECK.
pub data CallbackResult (D : Type 0) : Type 0 where
  success failure : D → CallbackResult D
  aborts : CallbackResult D
