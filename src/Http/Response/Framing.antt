-- ===== src/Http/Response/Framing.antt =====
-- src/encoder.hpp: the body of an encoded response is what its Content-Length header announces.
use mathlib.Core.Path.{subst}
use libprocess.Common.{
  ℕ, ◌≤◌, ◌≡◌, ◌⊎◌, refl, sym, ap, ◌∙◌, inl, inr, Bool, true, false, Option, none, some, [], ◌∷◌,
  ◌++◌, append-nil, append_assoc, arith, if◌then◌else◌, length, take, total, total-append,
  Option-cases,
}
use libprocess.Http.Pipe.{Text}
use libprocess.Http.Query.{Pairs}
use libprocess.Http.Message.{
  set_header, same_key, get_header, content_encoding, content_length, gzip,
}
use libprocess.Http.Response.{
  BodyType, Response, date_key, crlf, colon, version, lines, set_compressed, compress, limit,
  write_response, encode_response,
}
use libprocess.Http.Response.Headers.{
  counts, counts-set_other, counts-set_same, counts-absent, counts-present, get_header-other,
  get_header-same, get_header-append, get_header-last,
}

lines-append : (hs gs : Pairs) → lines (hs ++ gs) ≡ lines hs ++ lines gs
lines-append [] gs = refl
lines-append ((k, v) ∷ hs) gs =
    ap (λ u. k ++ colon ++ v ++ crlf ++ u) (lines-append hs gs) ∙ simp (append_assoc)

take-length : (s : Text) → take (length s) s ≡ s
take-length [] = refl
take-length (c ∷ s) = ap (λ u. c ∷ u) (take-length s)

limit-all :
    (o : Option ℕ) (body : Text) → ((n : ℕ) → o ≡ some n → n ≡ length body) → limit o body ≡ body
limit-all none body h = refl
limit-all (some n) body h = rw (h n refl) (ground (arith, take-length body))

module _ (stringify : ℕ → Text) (numify : Text → Option ℕ) (gzip_compress : Text → Option Text)
    (numify-stringify : (n m : ℕ) → numify (stringify n) ≡ some m → m ≡ n) (date : Text)
    (r : Response) where
  -- What a body is in the encoded response: as it was given, or compressed.
  abbrev pub IsBody : Pairs → Text → Type 0
  IsBody hs payload =
      ((payload ≡ r.body)
        × (get_header content_encoding hs ≡ get_header content_encoding r.headers))
      ⊎ ((gzip_compress r.body ≡ some payload) × (get_header content_encoding hs ≡ some gzip))

  -- Every header but those that the encoder sets is one of the response, with its value.
  abbrev pub IsKept : Pairs → Type 0
  IsKept hs =
      (k : Text)
      → same_key date_key k ≡ false
      → same_key content_length k ≡ false
      → same_key content_encoding k ≡ false
      → get_header k hs ≡ get_header k r.headers

  -- The text has one Content-Length header, with the size of what comes after the headers.
  pub record IsFramed (text : Text) : Type 0 where
    pub headers : Pairs
    pub payload : Text
    pub is_written : text ≡ version ++ r.status ++ crlf ++ lines headers ++ crlf ++ payload
    pub measured : get_header content_length headers ≡ some (stringify (length payload))
    pub once : total (counts content_length) headers ≡ 1
    pub dated : get_header date_key headers ≡ some date
    pub is_body : IsBody headers payload
    pub kept : IsKept headers

  -- The headers before a missing Content-Length is added.
  record IsReady (p : Pairs × Text) : Type 0 where
    consistent :
        (get_header content_length p.0 ≡ none)
        ⊎ (get_header content_length p.0 ≡ some (stringify (length p.1)))
    at_most_once : total (counts content_length) p.0 ≤ 1
    dated : get_header date_key p.0 ≡ some date
    is_body : IsBody p.0 p.1
    kept : IsKept p.0

  compressed-IsReady :
      (b : Bool) (o : Option Text) (hs : Pairs)
      → gzip_compress r.body ≡ o
      → IsReady (hs, r.body)
      → IsReady (if b then set_compressed stringify o hs r.body else (hs, r.body))
  compressed-IsReady false o hs e v = v
  compressed-IsReady true none hs e v = v
  compressed-IsReady true (some c) hs e v =
      let n = stringify (length c) in
      let hs' = set_header content_length n hs in
      record {
        consistent = inr (
            get_header-other content_length content_encoding gzip hs' refl
            ∙ get_header-same content_length n hs refl);
        at_most_once = omega (
          arith,
          counts-set_other content_length content_encoding gzip hs' refl,
          counts-set_same content_length n hs refl v.at_most_once,
        );
        dated =
            get_header-other date_key content_encoding gzip hs' refl
            ∙ get_header-other date_key content_length n hs refl
            ∙ v.dated;
        is_body = inr (e, get_header-same content_encoding gzip hs' refl);
        kept = λ k d l c.
            get_header-other k content_encoding gzip hs' c
            ∙ get_header-other k content_length n hs l
            ∙ v.kept k d l c;
      }

  compress-IsReady :
      (accepts : Bool) (hs : Pairs)
      → IsReady (hs, r.body)
      → IsReady (compress stringify numify gzip_compress accepts r hs)
  unfolding compress
  compress-IsReady accepts hs v = compressed-IsReady _ (gzip_compress r.body) hs refl v

  still-IsBody :
      (hs : Pairs) (body : Text)
      → IsBody hs body
      → IsBody (hs ++ (content_length, stringify (length body)) ∷ []) body
  still-IsBody hs body (inl (x, y)) =
      inl
        (x, get_header-append content_encoding hs content_length (stringify (length body)) refl ∙ y)
  still-IsBody hs body (inr (x, y)) =
      inr
        (x, get_header-append content_encoding hs content_length (stringify (length body)) refl ∙ y)

  write_response-IsFramed :
      (hs : Pairs) (body : Text)
      → IsReady (hs, body)
      → IsFramed
          (write_response stringify numify gzip_compress BodyType.in_body r.status (hs, body))
  write_response-IsFramed hs body v = elim v.consistent [
    | inl x ↦ rw x (record {
      headers = hs ++ (content_length, stringify (length body)) ∷ [];
      payload = body;
      is_written = simp (lines-append, append_assoc);
      measured = get_header-last content_length (stringify (length body)) hs refl x;
      once =
          rw
            (
              total-append (counts content_length) hs
                  ((content_length, stringify (length body)) ∷ []),
              counts-absent content_length hs x,
            )
            refl;
      dated = get_header-append date_key hs content_length (stringify (length body)) refl ∙ v.dated;
      is_body = still-IsBody hs body v.is_body;
      kept = λ k d l c.
          get_header-append k hs content_length (stringify (length body)) l ∙ v.kept k d l c;
    })
    | inr x ↦
        rw
          (
            x,
            limit-all (numify (stringify (length body))) body
                (λ n. numify-stringify (length body) n),
          )
          (record {
            headers = hs;
            payload = body;
            is_written = simp (append-nil, append_assoc);
            measured = x;
            once = omega (
              arith,
              v.at_most_once,
              counts-present content_length (stringify (length body)) hs x,
            );
            dated = v.dated;
            is_body = v.is_body;
            kept = v.kept;
          })
  ]

  -- A response with a body, whose Content-Length header, if it is given, is the size of the body, is encoded as the status
  -- line, headers and what the body became, for a numeral that is read as its number or not at all: the headers are one
  -- Content-Length with the size of what comes after them, the date, a Content-Encoding that is gzip where the body was
  -- compressed, and for every other name what the response has for it.
  pub encode_response-IsFramed :
      (accepts : Bool)
      → r.body_type ≡ BodyType.in_body
      → total (counts content_length) r.headers ≤ 1
      → ((v : Text) → get_header content_length r.headers ≡ some v → v ≡ stringify (length r.body))
      → IsFramed (encode_response stringify numify gzip_compress date accepts r)
  unfolding encode_response
  encode_response-IsFramed accepts b one given =
      let hs = set_header date_key date r.headers in
      let ready : IsReady (hs, r.body) = record {
        consistent = elim (Option-cases (get_header content_length r.headers)) [
          | inl x ↦ inl (get_header-other content_length date_key date r.headers refl ∙ x)
          | inr (w, x) ↦ inr (
              get_header-other content_length date_key date r.headers refl
              ∙ x
              ∙ ap some (given w x))
        ];
        at_most_once = omega (arith, counts-set_other content_length date_key date r.headers refl);
        dated = get_header-same date_key date r.headers refl;
        is_body = inl (refl, get_header-other content_encoding date_key date r.headers refl);
        kept = λ k d l c. get_header-other k date_key date r.headers d;
      } in
      subst
        (λ t. IsFramed (
          write_response stringify numify gzip_compress t r.status
            (compress stringify numify gzip_compress accepts r hs)))
        (sym b) (write_response-IsFramed _ _ (compress-IsReady accepts hs ready))
