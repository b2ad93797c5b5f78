-- ===== src/Http/Percent/RoundTrip.antt =====
-- src/http.cpp: `http::decode` undoes `http::encode`, and what both can produce.
use libprocess.Common.{
  ℕ, ◌+◌, ◌*◌, ◌/◌, ◌%◌, ◌≤◌, ◌<◌, ◌≡◌, ◌≢◌, refl, ◌⊎◌, inl, inr, ◌==◌, leb, Bool, true, false,
  ◌&&◌, [], ◌∷◌, ◌++◌, arith, if_cases, All, All-append, Bool-cases,
}
use libprocess.Http.Pipe.{Text}
use libprocess.Http.Percent.{
  contains, special, hex_digit, escapes, encode_byte, encode, is_hex_digit, hex_value, Decoded,
  prepend, plain, escaped, decode,
}

abbrev pub IsByte : ℕ → Type 0
IsByte c = c ≤ 255

hex_digit_read :
    (d : ℕ) → d < 16 → (is_hex_digit (hex_digit d) ≡ true) × (hex_value (hex_digit d) ≡ d)
unfolding is_hex_digit hex_digit hex_value
hex_digit_read d h = ground arith

decode-plain : (c : ℕ) (s : Text) → c ≢ 37 → decode (c ∷ s) ≡ prepend (plain c) (decode s)
unfolding decode
decode-plain c [] n = ground arith
decode-plain c (a ∷ []) n = ground arith
decode-plain c (a ∷ b ∷ s) n = ground arith

decode_escape :
    (a b : ℕ) (s : Text)
    → is_hex_digit a ≡ true
    → is_hex_digit b ≡ true
    → decode (37 ∷ a ∷ b ∷ s) ≡ escaped (hex_value a * 16 + hex_value b) (decode s)
unfolding decode
decode_escape a b s h k = ground arith

-- A byte that stays as it is is neither an escape nor one that `decode` reads as a space.
unescaped_plain :
    (additional : Text) (c : ℕ) → escapes additional c ≡ false → (c ≢ 37) × (plain c ≡ c)
unfolding escapes
unescaped_plain additional c h = ground arith

escape_read :
    (c : ℕ) (s : Text)
    → IsByte c
    → decode (37 ∷ hex_digit (c / 16) ∷ hex_digit (c % 16) ∷ s) ≡ prepend c (decode s)
escape_read c s h =
    let high = hex_digit_read (c / 16) (omega arith) in
    let low = hex_digit_read (c % 16) (omega arith) in
    ground
      (arith, high, low, decode_escape (hex_digit (c / 16)) (hex_digit (c % 16)) s high.0 low.0)

decode-encode_byte :
    (additional : Text) (c : ℕ) (s : Text)
    → IsByte c
    → decode (encode_byte additional c ++ s) ≡ prepend c (decode s)
unfolding encode_byte
decode-encode_byte additional c s h = elim (Bool-cases (escapes additional c)) [
  | inl e ↦ rw e (escape_read c s h)
  | inr e ↦ let u = unescaped_plain additional c e in rw e (ground (arith, u, decode-plain c s u.0))
]

-- For every string of bytes and every set of additional characters, decoding the encoded string
-- gives the string back.
pub decode-encode :
    (s additional : Text) → All IsByte s → decode (encode s additional) ≡ Decoded.decoded s
unfolding encode
decode-encode [] additional h = unfold decode in refl
decode-encode (c ∷ s) additional h = ground (
  arith,
  decode-encode_byte additional c (encode s additional) h.0,
  decode-encode s additional h.1,
)

hex_value_small : (a : ℕ) → is_hex_digit a ≡ true → hex_value a < 16
unfolding is_hex_digit hex_value
hex_value_small a h = ground arith

-- What `decode` may return: a string of bytes, or a malformed escape.
abbrev pub IsBytes : Decoded → Type 0
IsBytes (Decoded.decoded s) = All IsByte s
IsBytes (Decoded.malformed e) = Unit
IsBytes Decoded.aborts = ⊥

prepend-IsBytes : (c : ℕ) (r : Decoded) → IsByte c → IsBytes r → IsBytes (prepend c r)
prepend-IsBytes c (Decoded.decoded s) h k = (h, k)
prepend-IsBytes c (Decoded.malformed e) h k = tt
prepend-IsBytes c Decoded.aborts h k = elim k [ ]

plain-IsByte : (c : ℕ) → IsByte c → IsByte (plain c)
plain-IsByte c h = ground arith

escaped-IsBytes :
    (a b : ℕ) (r : Decoded)
    → (is_hex_digit a && is_hex_digit b) ≡ true
    → IsBytes r
    → IsBytes (escaped (hex_value a * 16 + hex_value b) r)
escaped-IsBytes a b r d k =
    let both : (is_hex_digit a ≡ true) × (is_hex_digit b ≡ true) = ground arith in
    let high = hex_value_small a both.0 in
    let low = hex_value_small b both.1 in
    let small : hex_value a * 16 + hex_value b ≤ 255 = omega (arith, high, low) in
    let not_small : leb (hex_value a * 16 + hex_value b) 255 ≢ false = ground (arith, small) in
    if_cases IsBytes (leb (hex_value a * 16 + hex_value b) 255) (λ _. prepend-IsBytes _ r small k)
      (λ n. absurd (not_small n))

test_cases :
    (b : Bool) (x y : Decoded)
    → (b ≡ true → IsBytes x)
    → (b ≡ false → IsBytes y)
    → IsBytes (elim b [ true ↦ x | false ↦ y ])
test_cases true x y f g = f refl
test_cases false x y f g = g refl

-- Decoding any string of bytes gives a string of bytes or reports a malformed escape: the ABORT on
-- a value above UCHAR_MAX is never reached.
pub decode-IsBytes : (s : Text) → All IsByte s → IsBytes (decode s)
unfolding decode
decode-IsBytes [] h = tt
decode-IsBytes (c ∷ []) h = if_cases IsBytes (c == 37) (λ _. tt) (λ _. (plain-IsByte c h.0, tt))
decode-IsBytes (c ∷ a ∷ []) h =
    test_cases (c == 37) _ _ (λ _. tt)
      (λ _.
        prepend-IsBytes (plain c) (decode (a ∷ [])) (plain-IsByte c h.0)
          (decode-IsBytes (a ∷ []) h.1))
decode-IsBytes (c ∷ a ∷ b ∷ s) h =
    test_cases (c == 37) _ _
      (λ _.
        test_cases (is_hex_digit a && is_hex_digit b) _ _
          (λ d. escaped-IsBytes a b (decode s) d (decode-IsBytes s h.1.1.1)) (λ _. tt))
      (λ _.
        prepend-IsBytes (plain c) (decode (a ∷ b ∷ s)) (plain-IsByte c h.0)
          (decode-IsBytes (a ∷ b ∷ s) h.1))

-- A printable byte, or DEL, that is an escape or no special one.
abbrev pub IsSafe : ℕ → Type 0
IsSafe c = ((contains c special ≡ false) ⊎ (c ≡ 37)) × (32 ≤ c) × (c ≤ 127)

hex_digit-IsSafe : (d : ℕ) → d < 16 → IsSafe (hex_digit d)
unfolding hex_digit contains special
hex_digit-IsSafe d h = ground arith

unescaped-IsSafe : (additional : Text) (c : ℕ) → escapes additional c ≡ false → IsSafe c
unfolding escapes
unescaped-IsSafe additional c h = ground arith

encode_byte-IsSafe : (additional : Text) (c : ℕ) → IsByte c → All IsSafe (encode_byte additional c)
unfolding encode_byte
encode_byte-IsSafe additional c h =
    if_cases (All IsSafe) (escapes additional c)
      (λ _. (
        (inr refl, omega arith, omega arith),
        (hex_digit-IsSafe (c / 16) (omega arith), (hex_digit-IsSafe (c % 16) (omega arith), tt)),
      ))
      (λ e. (unescaped-IsSafe additional c e, tt))

-- An encoded string of bytes holds no control character below 32, no byte above 127, and, but for
-- the % of its escapes, no reserved and no unsafe character.
pub encode-IsSafe : (s additional : Text) → All IsByte s → All IsSafe (encode s additional)
unfolding encode
encode-IsSafe [] additional h = tt
encode-IsSafe (c ∷ s) additional h =
    All-append IsSafe (encode_byte additional c) (encode s additional)
      (encode_byte-IsSafe additional c h.0) (encode-IsSafe s additional h.1)
