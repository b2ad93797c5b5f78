-- ===== src/Http/Response.antt =====
-- src/encoder.hpp: the texts of `MessageEncoder::encode` and `HttpResponseEncoder::encode`. The time of the
-- response, the decimal and hexadecimal numerals, gzip and whether the request accepts it are parameters.
pub mod Headers
pub mod Framing
mod Tests
use libprocess.Common.{
  ℕ, Bool, true, false, ◌&&◌, not, Option, none, some, List, [], ◌∷◌, ◌++◌, if◌then◌else◌, leb,
  length, take,
}
use libprocess.Http.Pipe.{Text}
use libprocess.Http.Query.{Pairs}
use libprocess.Http.Message.{set_header, get_header, content_encoding, content_length, gzip}

pub data BodyType : Type 0 where
  nothing in_body at_path in_pipe : BodyType

-- `Response`, as far as the encoder reads it.
pub record Response : Type 0 where
  pub status : Text
  pub headers : Pairs
  pub body_type : BodyType
  pub body : Text

-- What a `Message` holds, with the numeral of its UPIDs.
pub record Message : Type 0 where
  pub name : Text
  pub from : Text
  pub to_id : Text
  pub body : Text

-- "Date"
abbrev pub date_key : Text
date_key = 68 ∷ 97 ∷ 116 ∷ 101 ∷ []

-- A line end, ": ", "HTTP/1.1 " and "0"
abbrev pub crlf : Text
crlf = 13 ∷ 10 ∷ []

abbrev pub colon : Text
colon = 58 ∷ 32 ∷ []

abbrev pub version : Text
version = 72 ∷ 84 ∷ 84 ∷ 80 ∷ 47 ∷ 49 ∷ 46 ∷ 49 ∷ 32 ∷ []

abbrev pub zero_text : Text
zero_text = 48 ∷ []

abbrev pub lines : Pairs → Text
lines [] = []
lines ((k, v) ∷ hs) = k ++ colon ++ v ++ crlf ++ lines hs

abbrev pub is_some : Option Text → Bool
is_some none = false
is_some (some v) = true

abbrev pub is_in_body : BodyType → Bool
is_in_body BodyType.in_body = true
is_in_body _ = false

-- The headers with those of a compressed body, and that body; gzip may fail.
abbrev pub set_compressed : (ℕ → Text) → Option Text → Pairs → Text → Pairs × Text
set_compressed stringify none hs body = (hs, body)
set_compressed stringify (some c) hs body =
    (set_header content_encoding gzip (set_header content_length (stringify (length c)) hs), c)

-- The Content-Length header that is written after the others, if they have none.
abbrev pub length_line : (ℕ → Text) → BodyType → Option Text → Text → Pairs
length_line stringify BodyType.nothing none body = (content_length, zero_text) ∷ []
length_line stringify BodyType.in_body none body = (content_length, stringify (length body)) ∷ []
length_line stringify _ _ body = []

-- No more of the body than the Content-Length header says.
abbrev pub limit : Option ℕ → Text → Text
limit (some n) body = if leb n (length body) then take n body else body
limit none body = body

abbrev pub numify_header : (Text → Option ℕ) → Option Text → Option ℕ
numify_header numify (some v) = numify v
numify_header numify none = none

abbrev pub write_body : (Text → Option ℕ) → BodyType → Pairs → Text → Text
write_body numify BodyType.in_body hs body =
    limit (numify_header numify (get_header content_length hs)) body
write_body numify _ hs body = []

module _ (stringify : ℕ → Text) (numify : Text → Option ℕ)
    (gzip_compress : Text → Option Text) where
  unfoldable pub compress : Bool → Response → Pairs → Pairs × Text
  compress accepts r hs =
      if is_in_body r.body_type
        && leb 1024 (length r.body)
        && not (is_some (get_header content_encoding hs))
        && accepts
      then set_compressed stringify (gzip_compress r.body) hs r.body
      else (hs, r.body)

  abbrev pub write_response : BodyType → Text → Pairs × Text → Text
  write_response b status (hs, body) =
      version
      ++ status
      ++ crlf
      ++ lines hs
      ++ lines (length_line stringify b (get_header content_length hs) body)
      ++ crlf
      ++ write_body numify b hs body

  unfoldable pub encode_response : Text → Bool → Response → Text
  unfolding compress
  encode_response date accepts r =
      write_response r.body_type r.status (compress accepts r (set_header date_key date r.headers))

-- "POST ", "/", " HTTP/1.1", "User-Agent: libprocess/", "Libprocess-From: ", the two constant headers,
-- and "Transfer-Encoding: chunked"
abbrev pub post : Text
post = 80 ∷ 79 ∷ 83 ∷ 84 ∷ 32 ∷ []

abbrev pub slash : Text
slash = 47 ∷ []

abbrev pub post_version : Text
post_version = 32 ∷ 72 ∷ 84 ∷ 84 ∷ 80 ∷ 47 ∷ 49 ∷ 46 ∷ 49 ∷ 13 ∷ 10 ∷ []

abbrev pub user_agent : Text
user_agent =
    85 ∷ 115 ∷ 101 ∷ 114 ∷ 45 ∷ 65 ∷ 103 ∷ 101 ∷ 110 ∷ 116 ∷ 58 ∷ 32 ∷ 108 ∷ 105 ∷ 98 ∷ 112 ∷ 114
    ∷ 111 ∷ 99 ∷ 101 ∷ 115 ∷ 115 ∷ 47 ∷ []

abbrev pub libprocess_from : Text
libprocess_from =
    76 ∷ 105 ∷ 98 ∷ 112 ∷ 114 ∷ 111 ∷ 99 ∷ 101 ∷ 115 ∷ 115 ∷ 45 ∷ 70 ∷ 114 ∷ 111 ∷ 109 ∷ 58 ∷ 32
    ∷ []

abbrev pub keep_alive_and_host : Text
keep_alive_and_host =
    67 ∷ 111 ∷ 110 ∷ 110 ∷ 101 ∷ 99 ∷ 116 ∷ 105 ∷ 111 ∷ 110 ∷ 58 ∷ 32 ∷ 75 ∷ 101 ∷ 101 ∷ 112 ∷ 45
    ∷ 65 ∷ 108 ∷ 105 ∷ 118 ∷ 101 ∷ 13 ∷ 10 ∷ 72 ∷ 111 ∷ 115 ∷ 116 ∷ 58 ∷ 32 ∷ 13 ∷ 10 ∷ []

abbrev pub chunked : Text
chunked =
    84 ∷ 114 ∷ 97 ∷ 110 ∷ 115 ∷ 102 ∷ 101 ∷ 114 ∷ 45 ∷ 69 ∷ 110 ∷ 99 ∷ 111 ∷ 100 ∷ 105 ∷ 110 ∷ 103
    ∷ 58 ∷ 32 ∷ 99 ∷ 104 ∷ 117 ∷ 110 ∷ 107 ∷ 101 ∷ 100 ∷ 13 ∷ 10 ∷ 13 ∷ 10 ∷ []

abbrev pub to_path : Text → Text
to_path [] = []
to_path (c ∷ id) = slash ++ c ∷ id

abbrev pub chunk : (ℕ → Text) → Text → Text
chunk hex [] = crlf
chunk hex (c ∷ body) =
    chunked ++ hex (length (c ∷ body)) ++ crlf ++ (c ∷ body) ++ crlf ++ zero_text ++ crlf ++ crlf

abbrev pub encode_message : (ℕ → Text) → Message → Text
encode_message hex m =
    post
    ++ to_path m.to_id
    ++ slash
    ++ m.name
    ++ post_version
    ++ user_agent
    ++ m.from
    ++ crlf
    ++ libprocess_from
    ++ m.from
    ++ crlf
    ++ keep_alive_and_host
    ++ chunk hex m.body
