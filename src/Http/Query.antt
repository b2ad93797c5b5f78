-- ===== src/Http/Query.antt =====
-- src/http.cpp: `query::decode` and `query::encode`. The tokens and the halves of a token are what
-- `strings::tokenize(query, ";&")` and `strings::split(token, "=", 2)` of stout give. A map of strings
-- is a list of pairs, in the order in which it is traversed.
use libprocess.Common.{
  Bool, true, false, Option, none, some, List, [], ◌∷◌, ◌++◌, if◌then◌else◌, ◌==◌,
}
use libprocess.Http.Pipe.{Text}
use libprocess.Http.Percent.{Decoded, decode, encode}

abbrev pub same_text : Text → Text → Bool
same_text [] [] = true
same_text (a ∷ s) (b ∷ t) = if a == b then same_text s t else false
same_text _ _ = false

abbrev pub Pairs : Type 0
Pairs = List (Text × Text)

-- `result[key] = value`
abbrev pub assign_pair : Text → Text → Pairs → Pairs
assign_pair k v [] = (k, v) ∷ []
assign_pair k v ((j, w) ∷ ps) = if same_text j k then (j, v) ∷ ps else (j, w) ∷ assign_pair k v ps

-- None for an error of `http::decode`.
abbrev pub decoded_text : Decoded → Option Text
decoded_text (Decoded.decoded s) = some s
decoded_text _ = none

abbrev pub assign_decoded : Option Text → Option Text → Pairs → Option Pairs
assign_decoded (some k) (some v) ps = some (assign_pair k v ps)
assign_decoded _ _ ps = none

abbrev pub decode_pair : List Text → Pairs → Option Pairs
decode_pair (k ∷ []) ps = assign_decoded (decoded_text (decode k)) (some []) ps
decode_pair (k ∷ v ∷ []) ps = assign_decoded (decoded_text (decode k)) (decoded_text (decode v)) ps
decode_pair [] ps = some ps
decode_pair (k ∷ _) ps = elim (decoded_text (decode k)) [ none ↦ none | some _ ↦ some ps ]

module _ (tokenize split : Text → List Text) where
  unfoldable pub decode_tokens : List Text → Pairs → Option Pairs
  decode_tokens [] ps = some ps
  decode_tokens (t ∷ ts) ps = elim (decode_pair (split t) ps) [
    | none ↦ none
    | some ps' ↦ decode_tokens ts ps'
  ]

  unfoldable pub decode_query : Text → Option Pairs
  unfolding decode_tokens
  decode_query query = decode_tokens (tokenize query) []

-- `query::encode`; `strings::remove` takes the last & away.
abbrev pub encode_pair : Text × Text → Text
encode_pair (k, []) = encode k []
encode_pair (k, c ∷ v) = encode k [] ++ 61 ∷ encode (c ∷ v) []

unfoldable pub encode_query : Pairs → Text
encode_query [] = []
encode_query (p ∷ []) = encode_pair p
encode_query (p ∷ q ∷ ps) = encode_pair p ++ 38 ∷ encode_query (q ∷ ps)
