-- ===== src/Http/Percent/Tests.antt =====
-- Percent-encoding (src/http.cpp) at a few strings, and the theorems at them.
use libprocess.Common.{◌≡◌, refl, [], ◌∷◌, arith, All}
use libprocess.Http.Pipe.{Text}
use libprocess.Http.Percent.{
  encode, encode_byte, hex_digit, escapes, contains, special, hex_value, is_hex_digit, decode,
  Decoded,
}
use libprocess.Http.Percent.RoundTrip.{
  IsByte, IsBytes, IsSafe, decode-encode, decode-IsBytes, encode-IsSafe,
}

-- "a /" and a byte above 127
abbrev mixed : Text
mixed = 97 ∷ 32 ∷ 47 ∷ 200 ∷ []

mixed_encoded : encode mixed [] ≡ 97 ∷ 37 ∷ 50 ∷ 48 ∷ 37 ∷ 50 ∷ 70 ∷ 37 ∷ 67 ∷ 56 ∷ []
unfolding encode encode_byte escapes contains special hex_digit
mixed_encoded = refl

mixed-IsByte : All IsByte mixed
mixed-IsByte = ground arith

decode-encode_example : decode (encode mixed (97 ∷ [])) ≡ Decoded.decoded mixed
decode-encode_example = decode-encode mixed (97 ∷ []) mixed-IsByte

encode-IsSafe_example : All IsSafe (encode mixed [])
encode-IsSafe_example = encode-IsSafe mixed [] mixed-IsByte

-- "a+%4a"
abbrev spelled : Text
spelled = 97 ∷ 43 ∷ 37 ∷ 52 ∷ 97 ∷ []

spelled_decoded : decode spelled ≡ Decoded.decoded (97 ∷ 32 ∷ 74 ∷ [])
unfolding decode hex_value is_hex_digit
spelled_decoded = refl

spelled-IsByte : All IsByte spelled
spelled-IsByte = ground arith

decode-IsBytes_example : IsBytes (decode spelled)
decode-IsBytes_example = decode-IsBytes spelled spelled-IsByte
