-- ===== src/Http/Decoder/Tests.antt =====
-- src/decoder.hpp: two requests, the headers of the first one in fragments, the second one without a
-- query that can be decoded.
use libprocess.Common.{◌≡◌, take, drop, refl, true, Option, none, some, List, [], ◌∷◌}
use libprocess.Http.Pipe.{Text}
use libprocess.Http.Query.{decode_query}
use libprocess.Http.Percent
use libprocess.Http.Message.{Info, ParserCallback, UrlParts}
use libprocess.Http.Decoder.Fragments.{
  Fragments, all_callbacks, messages_of, verdict_of, requests_of,
}

-- The whole URL is the path, but a URL of one byte is a query.
abbrev parse_url : Text → Option UrlParts
parse_url [] = none
parse_url (c ∷ []) = some (record { path = none; fragment = none; query = some (c ∷ []) })
parse_url s = some (record { path = some s; fragment = none; query = none })

abbrev one : Text → List Text
one [] = []
one (c ∷ s) = (c ∷ s) ∷ []

abbrev no_gzip : Text → Option Text
no_gzip s = none

abbrev info : Info
info = record { method = 71 ∷ []; keep_alive = true; status = 0 }

abbrev first : Fragments
first = record {
  info = info;
  url_parts = (47 ∷ []) ∷ (97 ∷ []) ∷ [];
  headers =
      record {
        field = 65 ∷ [];
        more_field = (66 ∷ []) ∷ [];
        value = 1 ∷ [];
        more_value = (2 ∷ []) ∷ [];
      }
      ∷ record { field = 67 ∷ []; more_field = []; value = []; more_value = [] }
      ∷ record { field = 97 ∷ 98 ∷ []; more_field = []; value = 3 ∷ []; more_value = [] }
      ∷ [];
  body_parts = (5 ∷ []) ∷ (6 ∷ []) ∷ [];
}

abbrev second : Fragments
second = record { info = info; url_parts = (37 ∷ []) ∷ []; headers = []; body_parts = [] }

-- The first call ends within the value of the first header, which goes on in the second call.
abbrev calls : List (List ParserCallback)
calls =
    take 6 (all_callbacks (first ∷ second ∷ [])) ∷ drop 6 (all_callbacks (first ∷ second ∷ [])) ∷ []

first_request :
    requests_of parse_url one one no_gzip (messages_of (first ∷ second ∷ []))
    ≡ some (
      record {
        method = 71 ∷ [];
        keep_alive = true;
        path = 47 ∷ 97 ∷ [];
        fragment = none;
        query = [];
        headers = (65 ∷ 66 ∷ [], 3 ∷ []) ∷ (67 ∷ [], []) ∷ [];
        body = 5 ∷ 6 ∷ [];
      }
          ∷ [],
      true,
    )
unfolding verdict_of decode_query Percent.decode
first_request = refl
