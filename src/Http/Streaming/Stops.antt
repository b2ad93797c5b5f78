-- ===== src/Http/Streaming/Stops.antt =====
-- src/decoder.hpp: a `StreamingRequestDecoder` goes on, or stops and ends its writer.
use libprocess.Common.{
  ℕ, ◌<◌, ◌≡◌, refl, sym, ap, ◌∙◌, ◌⊎◌, inl, inr, false, Option, none, some, List, ◌++◌, arith,
  Option-cases,
}
use libprocess.Http.Pipe.{Text}
use libprocess.Http.Message.{UrlParts, Request, CallbackResult}
use libprocess.Http.Streaming.{WriterCall, Gzip, Streaming, fail_body, stop}
use libprocess.Http.Streaming.System.{Phase, System, pipes_of, after}
use libprocess.Http.Streaming.Sound.{
  Script, follow, script_from-append, script, writing, is_pipe, is_over, expected, below, Sound,
}
use libprocess.Http.Streaming.Callbacks.{Same, Done}

module _ (parse_url : Text → Option UrlParts) (tokenize split : Text → List Text) (gz : Gzip)
    (unfinished stop_message delete_message : Text) where
  open gz use {Decompressor, start, decompress, finished}

  -- The end of a writer, where the decoder stops or is deleted.
  pub fail_body-scripts :
      (m : Text) (d : Streaming Decompressor)
      → ((k : ℕ) → is_pipe d.writer k ≡ false → script (d.calls k) ≡ expected none d.pipes k)
      → ((k : ℕ)
          → d.writer ≡ some k
          → (k < d.pipes) × (follow (script (d.calls k)) (WriterCall.fails m) ≡ Script.ended))
      → (k : ℕ)
      → script ((fail_body parse_url tokenize split gz m d.writer d).calls k)
        ≡ expected none d.pipes k
  fail_body-scripts m d others own k = elim (Option-cases d.writer) [
    | inl e ↦ simp e (others k (rw e refl))
    | inr (n, e) ↦ simp e (
        ground (
          arith,
          e,
          others k,
          own n e,
          script_from-append Script.opened (d.calls n) (WriterCall.fails m),
        ))
  ]

  pub fail_body-pipes :
      (m : Text) (w : Option ℕ) (d : Streaming Decompressor)
      → (fail_body parse_url tokenize split gz m w d).pipes ≡ d.pipes
  fail_body-pipes m none d = refl
  fail_body-pipes m (some n) d = refl

  pub fail_body-requests :
      (m : Text) (w : Option ℕ) (d : Streaming Decompressor)
      → (fail_body parse_url tokenize split gz m w d).requests ≡ d.requests
  fail_body-requests m none d = refl
  fail_body-requests m (some n) d = refl

  pub fail_body-writer :
      (m : Text) (w : Option ℕ) (d : Streaming Decompressor)
      → (fail_body parse_url tokenize split gz m w d).writer ≡ d.writer
  fail_body-writer m none d = refl
  fail_body-writer m (some n) d = refl

  pub own_after :
      (s : System Decompressor) (requests : List (Request × ℕ)) (pipes : ℕ)
      → Sound s
      → pipes ≡ s.decoder.pipes
      → requests ≡ s.decoder.requests
      → s.handed ++ pipes_of requests ≡ below pipes
  own_after s requests pipes v n r =
      ap (λ rs. s.handed ++ pipes_of rs) r ∙ v.own_pipes ∙ ap below (sym n)

  pub stops-Sound :
      (s : System Decompressor) (d : Streaming Decompressor)
      → Sound s
      → d.pipes ≡ s.decoder.pipes
      → d.requests ≡ s.decoder.requests
      → ((k : ℕ) → is_pipe d.writer k ≡ false → script (d.calls k) ≡ expected none d.pipes k)
      → ((k : ℕ)
          → d.writer ≡ some k
          → (k < d.pipes)
            × (follow (script (d.calls k)) (WriterCall.fails stop_message) ≡ Script.ended))
      → Sound (record s {
        phase = Phase.stopped;
        decoder = stop parse_url tokenize split gz stop_message d;
      })
  unfolding stop
  stops-Sound s d v n r others own = record {
    fits = (refl, refl);
    scripts = λ k.
        fail_body-scripts stop_message d others own k
        ∙ ap (λ p. expected none p k) (sym (fail_body-pipes stop_message d.writer d));
    in_range = λ k h. absurd (cc);
    current = λ h. refl;
    own_pipes =
        own_after s _ _ v (fail_body-pipes stop_message d.writer d ∙ n)
          (fail_body-requests stop_message d.writer d ∙ r);
    whole = v.whole;
  }

  writing-cases : (p : Phase) (w : Option ℕ) → (writing p w ≡ w) ⊎ (writing p w ≡ none)
  writing-cases Phase.content w = inl refl
  writing-cases Phase.fails w = inl refl
  writing-cases Phase.between w = inr refl
  writing-cases Phase.head w = inr refl
  writing-cases Phase.skips w = inr refl
  writing-cases Phase.fails_ended w = inr refl
  writing-cases Phase.stopped w = inr refl
  writing-cases Phase.deleted w = inr refl

  -- A callback that leaves the pipes alone.
  pub others_of :
      (s : System Decompressor)
      → Sound s
      → (k : ℕ) → is_pipe s.decoder.writer k ≡ false
      → script (s.decoder.calls k) ≡ expected none s.decoder.pipes k
  others_of s v k x = elim (writing-cases s.phase s.decoder.writer) [
    | inl e ↦ v.scripts k ∙ rw e (rw x refl)
    | inr e ↦ v.scripts k ∙ rw e refl
  ]

  opened_below : (k n : ℕ) → k < n → expected (some k) n k ≡ Script.opened
  opened_below k n h = ground arith

  ended_below : (k n : ℕ) → k < n → expected none n k ≡ Script.ended
  ended_below k n h = ground arith

  pub own_of :
      (s : System Decompressor)
      → Sound s
      → (m : Text) (k : ℕ) → s.decoder.writer ≡ some k
      → (k < s.decoder.pipes)
        × (follow (script (s.decoder.calls k)) (WriterCall.fails m) ≡ Script.ended)
  own_of s v m k w = elim (writing-cases s.phase s.decoder.writer) [
    | inl h ↦
        let e =
          v.scripts k
          ∙ ap (λ x. expected x s.decoder.pipes k) (h ∙ w)
          ∙ opened_below k s.decoder.pipes (v.in_range k w) in
        (v.in_range k w, ap (λ x. follow x (WriterCall.fails m)) e)
    | inr h ↦
        let e =
          v.scripts k
          ∙ ap (λ x. expected x s.decoder.pipes k) h
          ∙ ended_below k s.decoder.pipes (v.in_range k w) in
        (v.in_range k w, ap (λ x. follow x (WriterCall.fails m)) e)
  ]

  pub stops_unchanged-Sound :
      (s : System Decompressor) (d : Streaming Decompressor)
      → Sound s
      → Same s.decoder d
      → Sound (record s {
        phase = Phase.stopped;
        decoder = stop parse_url tokenize split gz stop_message d;
      })
  stops_unchanged-Sound s d v (w, n, c, r) =
      stops-Sound s d v n r (λ k x. rw (c, n) (others_of s v k (rw w at x)))
        (λ k x. rw (c, n) (own_of s v stop_message k (sym w ∙ x)))

  pub fails-Sound :
      (s : System Decompressor) (d : Streaming Decompressor)
      → Sound s
      → is_over s.phase ≡ false
      → Same s.decoder d
      → Sound (record s { phase = Phase.fails; decoder = d })
  fails-Sound s d v h (w, n, c, r) = record {
    fits = tt;
    scripts = λ k.
        ap (λ calls. script (calls k)) c
        ∙ v.scripts k
        ∙ ap (λ x. expected x s.decoder.pipes k) (v.current h ∙ sym w)
        ∙ ap (λ m. expected d.writer m k) (sym n);
    in_range = λ k e. rw n (v.in_range k (sym w ∙ e));
    current = λ e. refl;
    own_pipes = own_after s d.requests d.pipes v n r;
    whole = v.whole;
  }

  pub goes_on-Sound :
      (p : Phase) (c : CallbackResult (Streaming Decompressor)) (s : System Decompressor)
      → Sound s
      → is_over s.phase ≡ false
      → ((w : Option ℕ) → s.decoder.writer ≡ w → writing p w ≡ w)
      → Done p s.decoder c
      → Sound (after parse_url tokenize split gz unfinished stop_message delete_message p c s)
  goes_on-Sound p (CallbackResult.success d) s v h cur (f, (w, n, c, r)) = record {
    fits = f;
    scripts = λ k.
        ap (λ calls. script (calls k)) c
        ∙ v.scripts k
        ∙ ap (λ x. expected x s.decoder.pipes k) (v.current h ∙ sym (cur d.writer (sym w) ∙ w))
        ∙ ap (λ m. expected (writing p d.writer) m k) (sym n);
    in_range = λ k e. rw n (v.in_range k (sym w ∙ e));
    current = λ e. cur d.writer (sym w);
    own_pipes = own_after s d.requests d.pipes v n r;
    whole = v.whole;
  }
  goes_on-Sound p (CallbackResult.failure d) s v h cur same = fails-Sound s d v h same
  goes_on-Sound p CallbackResult.aborts s v h cur x = absurd x
