-- ===== src/Http/Percent.antt =====
-- src/http.cpp: percent-encoding, `http::encode` and `http::decode`. A string is a list of bytes,
-- and a byte is a number below 256.
pub mod RoundTrip
mod Tests
use libprocess.Common.{
  ℕ, ◌+◌, ◌-◌, ◌*◌, ◌/◌, ◌%◌, ◌==◌, ltb, leb, Bool, true, false, not, ◌&&◌, ◌||◌, Option, none,
  some, List, [], ◌∷◌, ◌++◌, if◌then◌else◌,
}
use libprocess.Http.Pipe.{Text}

unfoldable pub contains : ℕ → Text → Bool
contains c [] = false
contains c (d ∷ ds) = if d == c then true else contains c ds

-- The cases of the switch: $ & + , / : ; = ? @ space " < > # % { } | \ ^ ~ [ ] `
unfoldable pub special : Text
special =
    36 ∷ 38 ∷ 43 ∷ 44 ∷ 47 ∷ 58 ∷ 59 ∷ 61 ∷ 63 ∷ 64 ∷ 32 ∷ 34 ∷ 60 ∷ 62 ∷ 35 ∷ 37 ∷ 123 ∷ 125 ∷ 124
    ∷ 92 ∷ 94 ∷ 126 ∷ 91 ∷ 93 ∷ 96 ∷ []

-- One digit of `std::hex << std::uppercase`.
unfoldable pub hex_digit : ℕ → ℕ
hex_digit d = if ltb d 10 then 48 + d else 55 + d

unfoldable pub escapes : Text → ℕ → Bool
unfolding contains special
escapes additional c = contains c special || (ltb c 32 || ltb 127 c || contains c additional)

unfoldable pub encode_byte : Text → ℕ → Text
encode_byte additional c =
    if escapes additional c then 37 ∷ hex_digit (c / 16) ∷ hex_digit (c % 16) ∷ [] else c ∷ []

-- `http::encode`
unfoldable pub encode : Text → Text → Text
encode [] additional = []
encode (c ∷ s) additional = encode_byte additional c ++ encode s additional

-- `isxdigit`, and the value of a digit that `std::hex` reads.
unfoldable pub is_hex_digit : ℕ → Bool
is_hex_digit c = (leb 48 c && leb c 57) || (leb 65 c && leb c 70) || (leb 97 c && leb c 102)

unfoldable pub hex_value : ℕ → ℕ
hex_value c = if leb c 57 then c - 48 else if leb c 70 then c - 55 else c - 87

-- A decoded string, the malformed escape, or the ABORT on a value above UCHAR_MAX.
pub data Decoded : Type 0 where
  decoded malformed : Text → Decoded
  aborts : Decoded

abbrev pub prepend : ℕ → Decoded → Decoded
prepend c (Decoded.decoded s) = Decoded.decoded (c ∷ s)
prepend c r = r

abbrev pub plain : ℕ → ℕ
plain c = if c == 43 then 32 else c

abbrev pub escaped : ℕ → Decoded → Decoded
escaped l r = if leb l 255 then prepend l r else Decoded.aborts

-- `http::decode`
unfoldable pub decode : Text → Decoded
decode [] = Decoded.decoded []
decode (c ∷ []) = if c == 37 then Decoded.malformed (c ∷ []) else Decoded.decoded (plain c ∷ [])
decode (c ∷ a ∷ []) = elim (c == 37) [
  | true ↦ Decoded.malformed (c ∷ a ∷ [])
  | false ↦ prepend (plain c) (decode (a ∷ []))
]
decode (c ∷ a ∷ b ∷ s) = elim (c == 37) [
  | true ↦ elim (is_hex_digit a && is_hex_digit b) [
    | true ↦ escaped (hex_value a * 16 + hex_value b) (decode s)
    | false ↦ Decoded.malformed (c ∷ a ∷ b ∷ [])
  ]
  | false ↦ prepend (plain c) (decode (a ∷ b ∷ s))
]
