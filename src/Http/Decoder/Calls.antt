-- ===== src/Http/Decoder/Calls.antt =====
-- src/decoder.hpp: a `DataDecoder` does the same in one call of `decode` and in many.
use libprocess.Common.{
  ◌≡◌, refl, sym, ap, ◌∙◌, inl, inr, Bool, true, false, Option, none, some, List, [], ◌∷◌, ◌++◌,
  append-nil, append_assoc, leb, length, Bool-cases,
}
use libprocess.Http.Pipe.{Text}
use libprocess.Http.Query.{Pairs, decode_query}
use libprocess.Http.Message.{
  ParserCallback, get_header, content_encoding, is_gzip, UrlParts, Request, or_else, CallbackResult,
}
use mathlib.Core.Path.{subst}
use libprocess.Http.Decoder.Fragments.{handed_out}
use libprocess.Http.Decoder.{
  DataDecoder, begin_message, complete_body, complete_query, complete_url, on_request, with_request,
  call, after_execute, execute, decode_requests, heard, add_requests, decode_all,
}

-- A decoder that has more requests to hand out, before its own.
abbrev pub behind : List Request → DataDecoder → DataDecoder
behind rs d = record d { requests = rs ++ d.requests }

abbrev pub results_behind : List Request → CallbackResult DataDecoder → CallbackResult DataDecoder
results_behind rs (CallbackResult.success d) = CallbackResult.success (behind rs d)
results_behind rs (CallbackResult.failure d) = CallbackResult.failure (behind rs d)
results_behind rs CallbackResult.aborts = CallbackResult.aborts

abbrev pub concat : List (List ParserCallback) → List ParserCallback
concat [] = []
concat (cs ∷ css) = cs ++ concat css

module _ (parse_url : Text → Option UrlParts) (tokenize split : Text → List Text)
    (decompress : Text → Option Text) where
  complete_body-behind :
      (rs : List Request) (s : Option Text) (r : Request) (d : DataDecoder)
      → complete_body parse_url tokenize split decompress s r (behind rs d)
        ≡ results_behind rs (complete_body parse_url tokenize split decompress s r d)
  complete_body-behind rs none r d = refl
  complete_body-behind rs (some s) r d = elim (Bool-cases (leb (length s) 127)) [
    | inl e ↦ rw (e, append_assoc rs d.requests) refl
    | inr e ↦ rw e refl
  ]

  complete_query-behind :
      (rs : List Request) (q : Option Pairs) (r : Request) (d : DataDecoder)
      → complete_query parse_url tokenize split decompress q r (behind rs d)
        ≡ results_behind rs (complete_query parse_url tokenize split decompress q r d)
  complete_query-behind rs none r d = refl
  complete_query-behind rs (some q) r d =
      elim (Bool-cases (is_gzip (get_header content_encoding r.headers))) [
        | inl e ↦ rw e (complete_body-behind rs (decompress r.body) (record r { query = q }) d)
        | inr e ↦ rw (e, append_assoc rs d.requests) refl
      ]

  complete_url-behind :
      (rs : List Request) (u : Option UrlParts) (r : Request) (d : DataDecoder)
      → complete_url parse_url tokenize split decompress u r (behind rs d)
        ≡ results_behind rs (complete_url parse_url tokenize split decompress u r d)
  unfolding decode_query
  complete_url-behind rs none r d = refl
  complete_url-behind rs (some u) r d =
      complete_query-behind rs (decode_query tokenize split (or_else u.query d.query)) _
        (record d { query = or_else u.query d.query })

  on_request-behind :
      (rs : List Request) (c : ParserCallback) (r : Request) (d : DataDecoder)
      → on_request parse_url tokenize split decompress c r (behind rs d)
        ≡ results_behind rs (on_request parse_url tokenize split decompress c r d)
  unfolding on_request
  on_request-behind rs (ParserCallback.url s) r d = refl
  on_request-behind rs (ParserCallback.header_field s) r d = refl
  on_request-behind rs (ParserCallback.header_value s) r d = refl
  on_request-behind rs (ParserCallback.headers_complete i) r d = refl
  on_request-behind rs (ParserCallback.body s) r d = refl
  on_request-behind rs ParserCallback.message_complete r d =
      complete_url-behind rs (parse_url d.url) r d
  on_request-behind rs ParserCallback.message_begin r d = refl
  on_request-behind rs ParserCallback.other r d = refl

  with_request-behind :
      (rs : List Request) (o : Option Request) (c : ParserCallback) (d : DataDecoder)
      → with_request parse_url tokenize split decompress o c (behind rs d)
        ≡ results_behind rs (with_request parse_url tokenize split decompress o c d)
  unfolding with_request
  with_request-behind rs none c d = refl
  with_request-behind rs (some r) c d = on_request-behind rs c r d

  begin_message-behind :
      (rs : List Request) (b : Bool) (o : Option Request) (d : DataDecoder)
      → begin_message parse_url tokenize split decompress b o (behind rs d)
        ≡ results_behind rs (begin_message parse_url tokenize split decompress b o d)
  begin_message-behind rs false none d = refl
  begin_message-behind rs false (some r) d = refl
  begin_message-behind rs true o d = refl

  call-behind :
      (rs : List Request) (c : ParserCallback) (d : DataDecoder)
      → call parse_url tokenize split decompress c (behind rs d)
        ≡ results_behind rs (call parse_url tokenize split decompress c d)
  unfolding call
  call-behind rs ParserCallback.message_begin d = begin_message-behind rs d.failure d.request d
  call-behind rs ParserCallback.other d = refl
  call-behind rs (ParserCallback.url s) d =
      with_request-behind rs d.request (ParserCallback.url s) d
  call-behind rs (ParserCallback.header_field s) d =
      with_request-behind rs d.request (ParserCallback.header_field s) d
  call-behind rs (ParserCallback.header_value s) d =
      with_request-behind rs d.request (ParserCallback.header_value s) d
  call-behind rs (ParserCallback.headers_complete i) d =
      with_request-behind rs d.request (ParserCallback.headers_complete i) d
  call-behind rs (ParserCallback.body s) d =
      with_request-behind rs d.request (ParserCallback.body s) d
  call-behind rs ParserCallback.message_complete d =
      with_request-behind rs d.request ParserCallback.message_complete d

  -- The parser goes on with the callbacks of a later call.
  abbrev goes_on : List ParserCallback → CallbackResult DataDecoder → CallbackResult DataDecoder
  goes_on cs (CallbackResult.success d) = execute parse_url tokenize split decompress cs d
  goes_on cs (CallbackResult.failure d) = CallbackResult.failure d
  goes_on cs CallbackResult.aborts = CallbackResult.aborts

  abbrev first : List ParserCallback → CallbackResult DataDecoder → CallbackResult DataDecoder
  first cs r = elim r [
    | CallbackResult.success d' ↦ execute parse_url tokenize split decompress cs d'
    | CallbackResult.failure d' ↦ CallbackResult.failure d'
    | CallbackResult.aborts ↦ CallbackResult.aborts
  ]

  begins_behind :
      (rs : List Request) (cs : List ParserCallback)
      → ((d : DataDecoder)
          → execute parse_url tokenize split decompress cs (behind rs d)
            ≡ results_behind rs (execute parse_url tokenize split decompress cs d))
      → (r : CallbackResult DataDecoder)
      → first cs (results_behind rs r) ≡ results_behind rs (first cs r)
  begins_behind rs cs h (CallbackResult.success d) = h d
  begins_behind rs cs h (CallbackResult.failure d) = refl
  begins_behind rs cs h CallbackResult.aborts = refl

  execute-behind :
      (rs : List Request) (cs : List ParserCallback) (d : DataDecoder)
      → execute parse_url tokenize split decompress cs (behind rs d)
        ≡ results_behind rs (execute parse_url tokenize split decompress cs d)
  unfolding execute
  execute-behind rs [] d = refl
  execute-behind rs (c ∷ cs) d =
      ap (first cs) (call-behind rs c d)
      ∙ begins_behind rs cs (execute-behind rs cs) (call parse_url tokenize split decompress c d)

  first_append :
      (cs ds : List ParserCallback)
      → ((d : DataDecoder)
          → execute parse_url tokenize split decompress (cs ++ ds) d
            ≡ goes_on ds (execute parse_url tokenize split decompress cs d))
      → (r : CallbackResult DataDecoder) → first (cs ++ ds) r ≡ goes_on ds (first cs r)
  first_append cs ds h (CallbackResult.success d) = h d
  first_append cs ds h (CallbackResult.failure d) = refl
  first_append cs ds h CallbackResult.aborts = refl

  execute-append :
      (cs ds : List ParserCallback) (d : DataDecoder)
      → execute parse_url tokenize split decompress (cs ++ ds) d
        ≡ goes_on ds (execute parse_url tokenize split decompress cs d)
  unfolding execute
  execute-append [] ds d = refl
  execute-append (c ∷ cs) ds d =
      first_append cs ds (execute-append cs ds) (call parse_url tokenize split decompress c d)

  -- A callback that succeeds leaves the decoder as failed as it was.
  abbrev Keeps : Bool → CallbackResult DataDecoder → Type 0
  Keeps b (CallbackResult.success d) = d.failure ≡ b
  Keeps b _ = Unit

  complete_body-Keeps :
      (s : Option Text) (r : Request) (d : DataDecoder)
      → Keeps d.failure (complete_body parse_url tokenize split decompress s r d)
  complete_body-Keeps none r d = tt
  complete_body-Keeps (some s) r d = elim (Bool-cases (leb (length s) 127)) [
    | inl e ↦ rw e refl
    | inr e ↦ rw e tt
  ]

  complete_query-Keeps :
      (q : Option Pairs) (r : Request) (d : DataDecoder)
      → Keeps d.failure (complete_query parse_url tokenize split decompress q r d)
  complete_query-Keeps none r d = tt
  complete_query-Keeps (some q) r d =
      elim (Bool-cases (is_gzip (get_header content_encoding r.headers))) [
        | inl e ↦ rw e (complete_body-Keeps (decompress r.body) (record r { query = q }) d)
        | inr e ↦ rw e refl
      ]

  complete_url-Keeps :
      (u : Option UrlParts) (r : Request) (d : DataDecoder)
      → Keeps d.failure (complete_url parse_url tokenize split decompress u r d)
  unfolding decode_query
  complete_url-Keeps none r d = tt
  complete_url-Keeps (some u) r d =
      complete_query-Keeps (decode_query tokenize split (or_else u.query d.query)) _
        (record d { query = or_else u.query d.query })

  with_request-Keeps :
      (o : Option Request) (c : ParserCallback) (d : DataDecoder)
      → Keeps d.failure (with_request parse_url tokenize split decompress o c d)
  unfolding with_request on_request
  with_request-Keeps none c d = tt
  with_request-Keeps (some r) (ParserCallback.url s) d = refl
  with_request-Keeps (some r) (ParserCallback.header_field s) d = refl
  with_request-Keeps (some r) (ParserCallback.header_value s) d = refl
  with_request-Keeps (some r) (ParserCallback.headers_complete i) d = refl
  with_request-Keeps (some r) (ParserCallback.body s) d = refl
  with_request-Keeps (some r) ParserCallback.message_complete d =
      complete_url-Keeps (parse_url d.url) r d
  with_request-Keeps (some r) ParserCallback.message_begin d = refl
  with_request-Keeps (some r) ParserCallback.other d = refl

  begin_message-Keeps :
      (b : Bool) (o : Option Request) (d : DataDecoder)
      → Keeps d.failure (begin_message parse_url tokenize split decompress b o d)
  begin_message-Keeps false none d = refl
  begin_message-Keeps false (some r) d = tt
  begin_message-Keeps true o d = tt

  call-Keeps :
      (c : ParserCallback) (d : DataDecoder)
      → Keeps d.failure (call parse_url tokenize split decompress c d)
  unfolding call
  call-Keeps ParserCallback.message_begin d = begin_message-Keeps d.failure d.request d
  call-Keeps ParserCallback.other d = refl
  call-Keeps (ParserCallback.url s) d = with_request-Keeps d.request (ParserCallback.url s) d
  call-Keeps (ParserCallback.header_field s) d =
      with_request-Keeps d.request (ParserCallback.header_field s) d
  call-Keeps (ParserCallback.header_value s) d =
      with_request-Keeps d.request (ParserCallback.header_value s) d
  call-Keeps (ParserCallback.headers_complete i) d =
      with_request-Keeps d.request (ParserCallback.headers_complete i) d
  call-Keeps (ParserCallback.body s) d = with_request-Keeps d.request (ParserCallback.body s) d
  call-Keeps ParserCallback.message_complete d =
      with_request-Keeps d.request ParserCallback.message_complete d

  first-Keeps :
      (b : Bool) (cs : List ParserCallback)
      → ((d : DataDecoder)
          → d.failure ≡ b
          → Keeps b (execute parse_url tokenize split decompress cs d))
      → (r : CallbackResult DataDecoder) → Keeps b r
      → Keeps b (first cs r)
  first-Keeps b cs h (CallbackResult.success d) k = h d k
  first-Keeps b cs h (CallbackResult.failure d) k = tt
  first-Keeps b cs h CallbackResult.aborts k = tt

  execute-Keeps :
      (b : Bool) (cs : List ParserCallback) (d : DataDecoder)
      → d.failure ≡ b
      → Keeps b (execute parse_url tokenize split decompress cs d)
  unfolding execute
  execute-Keeps b [] d e = e
  execute-Keeps b (c ∷ cs) d e =
      first-Keeps b cs (execute-Keeps b cs) (call parse_url tokenize split decompress c d)
        (subst (λ f. Keeps f (call parse_url tokenize split decompress c d)) e (call-Keeps c d))

  abbrev more : List Request → Option (List Request × Bool) → Option (List Request × Bool)
  more rs none = none
  more rs (some (out, failed)) = some (rs ++ out, failed)

  handed_out-add_requests :
      (rs : List Request) (o : Option (DataDecoder × List Request))
      → handed_out (add_requests parse_url tokenize split decompress rs o) ≡ more rs (handed_out o)
  handed_out-add_requests rs none = refl
  handed_out-add_requests rs (some (d, out)) = refl

  -- The calls of `decode` after one in which the parser did this.
  abbrev later_calls :
      List (List ParserCallback) → CallbackResult DataDecoder → Option (List Request × Bool)
  later_calls css r = handed_out (elim (after_execute parse_url tokenize split decompress r) [
    | none ↦ none
    | some (d, rs) ↦
        add_requests parse_url tokenize split decompress rs
          (decode_all parse_url tokenize split decompress css d)
  ])

  decode_all-cons :
      (cs : List ParserCallback) (css : List (List ParserCallback)) (d : DataDecoder) (b : Bool)
      → d.failure ≡ b
      → handed_out (decode_all parse_url tokenize split decompress (cs ∷ css) d)
        ≡ later_calls css (
            execute parse_url tokenize split decompress
              (heard parse_url tokenize split decompress b cs)
              d)
  unfolding decode_all decode_requests
  decode_all-cons cs css d b e =
      ap
        (λ f. later_calls css (
          execute parse_url tokenize split decompress
            (heard parse_url tokenize split decompress f cs) d))
        e

  -- Nothing is heard once the decoder has failed.
  decode_all-failed :
      (css : List (List ParserCallback)) (d : DataDecoder)
      → d.failure ≡ true
      → d.requests ≡ []
      → handed_out (decode_all parse_url tokenize split decompress css d) ≡ some ([], true)
  unfolding decode_all execute
  decode_all-failed [] d e q = ap (λ b. some ([], b)) e
  decode_all-failed (cs ∷ css) d e q =
      decode_all-cons cs css d true e
      ∙ handed_out-add_requests d.requests _
      ∙ ap (more d.requests) (decode_all-failed css (record d { requests = [] }) e refl)
      ∙ ap (λ rs. some (rs ++ [], true)) q

  handed_out-behind :
      (rs : List Request) (r : CallbackResult DataDecoder)
      → handed_out (after_execute parse_url tokenize split decompress (results_behind rs r))
        ≡ more rs (handed_out (after_execute parse_url tokenize split decompress r))
  handed_out-behind rs (CallbackResult.success d) = refl
  handed_out-behind rs (CallbackResult.failure d) = refl
  handed_out-behind rs CallbackResult.aborts = refl

  later_calls-goes_on :
      (css : List (List ParserCallback)) (r : CallbackResult DataDecoder)
      → ((d : DataDecoder)
          → d.failure ≡ false
          → d.requests ≡ []
          → handed_out (decode_all parse_url tokenize split decompress css d)
            ≡ handed_out (decode_requests parse_url tokenize split decompress (concat css) d))
      → Keeps false r
      → later_calls css r
        ≡ handed_out (after_execute parse_url tokenize split decompress (goes_on (concat css) r))
  unfolding decode_requests
  later_calls-goes_on css (CallbackResult.success d) h k =
      let d' = record d { requests = [] } in
      handed_out-add_requests d.requests _
      ∙ ap (more d.requests) (h d' k refl)
      ∙ sym (
          handed_out-behind d.requests
            (execute parse_url tokenize split decompress (concat css) d'))
      ∙ ap (λ r. handed_out (after_execute parse_url tokenize split decompress r))
          (sym (execute-behind d.requests (concat css) d')
            ∙ ap
                (λ rs.
                  execute parse_url tokenize split decompress (concat css)
                    (record d { requests = rs }))
                (append-nil d.requests))
  later_calls-goes_on css (CallbackResult.failure d) h k =
      handed_out-add_requests d.requests _
      ∙ ap (more d.requests)
          (decode_all-failed css (record d { requests = []; failure = true }) refl refl)
      ∙ ap (λ rs. some (rs, true)) (append-nil d.requests)
  later_calls-goes_on css CallbackResult.aborts h k = refl

  -- Many calls of `decode` hand out what one call with all the callbacks does.
  pub decode_all-concat :
      (css : List (List ParserCallback)) (d : DataDecoder)
      → d.failure ≡ false
      → d.requests ≡ []
      → handed_out (decode_all parse_url tokenize split decompress css d)
        ≡ handed_out (decode_requests parse_url tokenize split decompress (concat css) d)
  unfolding decode_all decode_requests execute
  decode_all-concat [] d e q = ap (λ rs. some (rs, d.failure)) (sym q)
  decode_all-concat (cs ∷ css) d e q =
      decode_all-cons cs css d false e
      ∙ later_calls-goes_on css (execute parse_url tokenize split decompress cs d)
          (decode_all-concat css) (execute-Keeps false cs d e)
      ∙ ap (λ r. handed_out (after_execute parse_url tokenize split decompress r))
          (sym (execute-append cs (concat css) d))
