-- ===== src/Http/Response/Tests.antt =====
-- src/encoder.hpp: a response whose body is long enough to be compressed, and one that is not. A numeral is one
-- character here.
use libprocess.Common.{ℕ, zero, suc, ◌≡◌, refl, true, Option, none, some, [], ◌∷◌, ◌++◌, arith}
use libprocess.Http.Pipe.{Text}
use libprocess.Http.Message.{get_header, content_length}
use libprocess.Http.Response.{BodyType, Response, date_key, crlf, lines, version, encode_response}
use libprocess.Http.Response.Framing.{IsFramed, encode_response-IsFramed}

abbrev numeral : ℕ → Text
numeral n = n ∷ []

abbrev read_numeral : Text → Option ℕ
read_numeral (n ∷ []) = some n
read_numeral _ = none

read_numeral-numeral : (n m : ℕ) → read_numeral (numeral n) ≡ some m → m ≡ n
read_numeral-numeral n m h = ground arith

abbrev to_two : Text → Option Text
to_two s = some (1 ∷ 2 ∷ [])

abbrev fill : ℕ → Text
fill zero = []
fill (suc n) = 97 ∷ fill n

abbrev ok : Text → Response
ok body = record { status = 50 ∷ []; headers = []; body_type = BodyType.in_body; body = body }

abbrev long : Response
long = ok (fill 1024)

long_is_compressed :
    get_header content_length ((date_key, 9 ∷ []) ∷ (content_length, numeral 2) ∷ [])
    ≡ some (numeral 2)
long_is_compressed = refl

short_is_written :
    encode_response numeral read_numeral to_two (9 ∷ []) true (ok (97 ∷ []))
    ≡ version
      ++ (50 ∷ [])
      ++ crlf
      ++ lines ((date_key, 9 ∷ []) ∷ (content_length, numeral 1) ∷ [])
      ++ crlf
      ++ 97 ∷ []
unfolding encode_response
short_is_written = refl

encode_response-IsFramed_example :
    IsFramed numeral read_numeral to_two read_numeral-numeral
      (9 ∷ [])
      long
      (encode_response numeral read_numeral to_two (9 ∷ []) true long)
encode_response-IsFramed_example =
    encode_response-IsFramed numeral read_numeral to_two read_numeral-numeral (9 ∷ []) long true
      refl (omega arith) (λ v h. absurd cc)
