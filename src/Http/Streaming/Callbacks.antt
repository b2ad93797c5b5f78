-- ===== src/Http/Streaming/Callbacks.antt =====
-- src/decoder.hpp: what each callback of a `StreamingRequestDecoder` does.
use libprocess.Common.{
  ℕ, suc, at, ◌≡◌, refl, ap, ◌⊎◌, inl, inr, true, false, Option, none, some, List, [], ◌∷◌, ◌++◌,
  Bool-cases,
}
use libprocess.Http.Pipe.{Text}
use libprocess.Http.Query.{Pairs, decode_query}
use libprocess.Http.Message.{Info, ParserCallback, UrlParts, Request, or_else, CallbackResult}
use libprocess.Http.Streaming.{
  WriterCall, Gzip, Streaming, stream_query, stream_url, write_decompressed, write_body,
  is_unfinished, call_stream,
}
use libprocess.Http.Streaming.System.{Phase, is_head, is_content, pipes_of}
use libprocess.Http.Streaming.Sound.{Fits}

-- What a callback leaves alone.
abbrev pub Same : {D : Type 0} → Streaming D → Streaming D → Type 0
Same d d' =
    (d'.writer ≡ d.writer)
    × (d'.pipes ≡ d.pipes)
    × (d'.calls ≡ d.calls)
    × (d'.requests ≡ d.requests)

-- A callback that leaves the pipes and the requests alone.
abbrev pub Done : {D : Type 0} → Phase → Streaming D → CallbackResult (Streaming D) → Type 0
Done p d (CallbackResult.success d') = Fits p d' × Same d d'
Done p d (CallbackResult.failure d') = Same d d'
Done p d CallbackResult.aborts = ⊥

-- The end of the head.
abbrev pub HeadDone : {D : Type 0} → Streaming D → CallbackResult (Streaming D) → Type 0
HeadDone d (CallbackResult.success d') =
    Fits Phase.content d'
    × (d'.writer ≡ some d.pipes)
    × (d'.pipes ≡ suc d.pipes)
    × (d'.calls ≡ d.calls)
    × (pipes_of d'.requests ≡ pipes_of d.requests ++ d.pipes ∷ [])
HeadDone d (CallbackResult.failure d') = Fits Phase.skips d' × Same d d'
HeadDone d CallbackResult.aborts = ⊥

-- Callbacks that call the writer.
abbrev pub ContentDone : {D : Type 0} → ℕ → Streaming D → CallbackResult (Streaming D) → Type 0
ContentDone n d (CallbackResult.success d') =
    Fits Phase.content d'
    × (d'.writer ≡ d.writer)
    × ((s : Text) × (d'.calls ≡ at d.calls n (d.calls n ++ WriterCall.writes s ∷ [])))
    × (d'.pipes ≡ d.pipes)
    × (d'.requests ≡ d.requests)
ContentDone n d (CallbackResult.failure d') = Same d d'
ContentDone n d CallbackResult.aborts = ⊥

abbrev pub EndDone : {D : Type 0} → ℕ → Streaming D → CallbackResult (Streaming D) → Type 0
EndDone n d (CallbackResult.success d') =
    Fits Phase.between d'
    × (d'.calls ≡ at d.calls n (d.calls n ++ WriterCall.closes ∷ []))
    × (d'.pipes ≡ d.pipes)
    × (d'.requests ≡ d.requests)
EndDone n d (CallbackResult.failure d') =
    (d'.writer ≡ d.writer)
    × ((s : Text) × (d'.calls ≡ at d.calls n (d.calls n ++ WriterCall.fails s ∷ [])))
    × (d'.pipes ≡ d.pipes)
    × (d'.requests ≡ d.requests)
EndDone n d CallbackResult.aborts = ⊥

module _ (parse_url : Text → Option UrlParts) (tokenize split : Text → List Text) (gz : Gzip)
    (unfinished stop_message delete_message : Text) where
  open gz use {Decompressor, start, decompress, finished}

  pub call-begin :
      (d : Streaming Decompressor)
      → Fits Phase.between d
      → Done Phase.head d
          (call_stream parse_url tokenize split gz unfinished ParserCallback.message_begin d)
  unfolding call_stream
  call-begin d (f, r, w) = simp (f, r, w) ((refl, (_, refl), refl), (refl, refl, refl, refl))

  pub call-head :
      (c : ParserCallback) (d : Streaming Decompressor)
      → is_head c ≡ true
      → Fits Phase.head d
      → Done Phase.head d (call_stream parse_url tokenize split gz unfinished c d)
  unfolding call_stream
  call-head (ParserCallback.url s) d h (f, (r, e), w) =
      simp e ((f, (r, refl), w), (refl, refl, refl, refl))
  call-head (ParserCallback.header_field s) d h (f, (r, e), w) =
      simp e ((f, (_, refl), w), (refl, refl, refl, refl))
  call-head (ParserCallback.header_value s) d h (f, (r, e), w) =
      simp e ((f, (r, refl), w), (refl, refl, refl, refl))
  call-head ParserCallback.other d h x = (x, (refl, refl, refl, refl))
  call-head ParserCallback.message_begin d h x = absurd (cc)
  call-head ParserCallback.message_complete d h x = absurd (cc)
  call-head (ParserCallback.body s) d h x = absurd (cc)
  call-head (ParserCallback.headers_complete i) d h x = absurd (cc)

  write_decompressed-ContentDone :
      (n : ℕ) (result : Option (Decompressor × Text)) (d : Streaming Decompressor)
      → Fits Phase.content d
      → ContentDone n d (write_decompressed parse_url tokenize split gz n result d)
  write_decompressed-ContentDone n none d x = (refl, refl, refl, refl)
  write_decompressed-ContentDone n (some (z, s)) d x = (x, refl, (s, refl), refl, refl)

  write_body-ContentDone :
      (s : Text) (n : ℕ) (z : Option Decompressor) (d : Streaming Decompressor)
      → Fits Phase.content d
      → ContentDone n d (write_body parse_url tokenize split gz s n z d)
  write_body-ContentDone s n none d x = (x, refl, (s, refl), refl, refl)
  write_body-ContentDone s n (some z) d x = write_decompressed-ContentDone n (decompress s z) d x

  pub call-content :
      (c : ParserCallback) (n : ℕ) (d : Streaming Decompressor)
      → is_content c ≡ true
      → d.writer ≡ some n
      → Fits Phase.content d
      → (Done Phase.content d (call_stream parse_url tokenize split gz unfinished c d))
        ⊎ (ContentDone n d (call_stream parse_url tokenize split gz unfinished c d))
  unfolding call_stream
  call-content (ParserCallback.body s) n d h w (f, r, x) =
      inr (simp w (write_body-ContentDone s n d.decompressor d (f, r, x)))
  call-content (ParserCallback.header_field s) n d h w (f, r, x) =
      inl (simp r (refl, refl, refl, refl))
  call-content (ParserCallback.header_value s) n d h w (f, r, x) =
      inl (simp r (refl, refl, refl, refl))
  call-content ParserCallback.other n d h w x = inl (x, (refl, refl, refl, refl))
  call-content ParserCallback.message_begin n d h w x = absurd (cc)
  call-content ParserCallback.message_complete n d h w x = absurd (cc)
  call-content (ParserCallback.url s) n d h w x = absurd (cc)
  call-content (ParserCallback.headers_complete i) n d h w x = absurd (cc)

  pub call-end :
      (n : ℕ) (d : Streaming Decompressor)
      → d.writer ≡ some n
      → Fits Phase.content d
      → EndDone n d
          (call_stream parse_url tokenize split gz unfinished ParserCallback.message_complete d)
  unfolding call_stream
  call-end n d w (f, r, x) =
      elim (Bool-cases (is_unfinished parse_url tokenize split gz d.decompressor)) [
        | inl e ↦ simp (w, e) (refl, (unfinished, refl), refl, refl)
        | inr e ↦ simp (w, e) ((f, r, refl), refl, refl, refl)
      ]

  pub call-skipped :
      (d : Streaming Decompressor)
      → Fits Phase.skips d
      → Done Phase.between d
          (call_stream parse_url tokenize split gz unfinished ParserCallback.message_complete d)
  unfolding call_stream
  call-skipped d (f, w) = simp (w, f) (refl, refl, refl, refl)

  -- The end of the head, by what the URL and its query give.
  pipes_of-append :
      (rs : List (Request × ℕ)) (r : Request) (n : ℕ)
      → pipes_of (rs ++ (r, n) ∷ []) ≡ pipes_of rs ++ n ∷ []
  pipes_of-append [] r n = refl
  pipes_of-append ((q, m) ∷ rs) r n = ap (λ ns. m ∷ ns) (pipes_of-append rs r n)

  query-HeadDone :
      (pairs : Option Pairs) (r : Request) (d : Streaming Decompressor)
      → d.failure ≡ false
      → d.writer ≡ none
      → HeadDone d (stream_query parse_url tokenize split gz pairs r d)
  query-HeadDone none r d f w = ((refl, w), (refl, refl, refl, refl))
  query-HeadDone (some q) r d f w =
      simp w ((f, refl, (d.pipes, refl)), refl, refl, refl, pipes_of-append d.requests _ d.pipes)

  url-HeadDone :
      (parts : Option UrlParts) (r : Request) (d : Streaming Decompressor)
      → d.failure ≡ false
      → d.writer ≡ none
      → HeadDone d (stream_url parse_url tokenize split gz parts r d)
  unfolding decode_query
  url-HeadDone none r d f w = ((refl, w), (refl, refl, refl, refl))
  url-HeadDone (some u) r d f w =
      let query = or_else u.query d.query in
      query-HeadDone (decode_query tokenize split query)
        (record r { path = or_else u.path r.path; fragment = u.fragment })
        (record d { query = query }) f w

  pub call-headers :
      (i : Info) (d : Streaming Decompressor)
      → Fits Phase.head d
      → HeadDone d
          (call_stream parse_url tokenize split gz unfinished (ParserCallback.headers_complete i) d)
  unfolding call_stream
  call-headers i d (f, (r, e), w) = simp e (url-HeadDone (parse_url d.url) _ _ f w)
