-- ===== src/Http/Streaming/History.antt =====
-- src/decoder.hpp: what holds in every history of a `StreamingRequestDecoder`.
use mathlib.Core.Path.{subst}
use libprocess.Common.{
  ℕ, ◌<◌, ◌≡◌, refl, sym, ap, ◌∙◌, inl, inr, true, false, Option, none, List, [], ◌++◌, append-nil,
  arith, if◌then◌else◌,
}
use libprocess.Http.Pipe.{Text}
use libprocess.Http.Message.{UrlParts, ParserCallback, CallbackResult}
use libprocess.Http.Streaming.{Gzip, Streaming, call_stream, delete}
use libprocess.Http.Streaming.System.{
  Phase, is_deleted, System, pipes_of, Step, begins, reads_head, ends_head, reads_content,
  completes, skips_body, finds_error, stops, hands_out, deletes, Reach, here, next,
}
use libprocess.Http.Streaming.Sound.{
  Script, script, writing, is_pipe, expected, below, Fits, Sound, start-Sound,
}
use libprocess.Http.Streaming.Callbacks.{
  call-begin, call-head, call-content, call-end, call-skipped, call-headers,
}
use libprocess.Http.Streaming.Stops.{
  fail_body-scripts, fail_body-pipes, fail_body-requests, fail_body-writer, own_after, others_of,
  own_of, stops_unchanged-Sound, goes_on-Sound,
}
use libprocess.Http.Streaming.Ends.{head-Sound, content-Sound, end-Sound}

Fits-hands_out :
    {D : Type 0} (p : Phase) (d : Streaming D) → Fits p d → Fits p (record d { requests = [] })
Fits-hands_out Phase.between d f = f
Fits-hands_out Phase.head d f = f
Fits-hands_out Phase.content d f = f
Fits-hands_out Phase.skips d f = f
Fits-hands_out Phase.stopped d f = f
Fits-hands_out Phase.fails d f = f
Fits-hands_out Phase.fails_ended d f = f
Fits-hands_out Phase.deleted d f = f

module _ (parse_url : Text → Option UrlParts) (tokenize split : Text → List Text) (gz : Gzip)
    (unfinished stop_message delete_message : Text) where
  open gz use {Decompressor}

  phase-Fits : (p : Phase) (s : System Decompressor) → Sound s → s.phase ≡ p → Fits p s.decoder
  phase-Fits p s v e = subst (λ q. Fits q s.decoder) e v.fits

  deletes-Sound :
      (s : System Decompressor)
      → Sound s
      → is_deleted s.phase ≡ false
      → Sound (record s {
        phase = Phase.deleted;
        decoder = delete parse_url tokenize split gz delete_message s.decoder;
      })
  unfolding delete
  deletes-Sound s v h = record {
    fits = tt;
    scripts = λ k.
        fail_body-scripts parse_url tokenize split gz unfinished stop_message delete_message
          delete_message s.decoder
          (others_of parse_url tokenize split gz unfinished stop_message delete_message s v)
          (own_of parse_url tokenize split gz unfinished stop_message delete_message s v
            delete_message)
          k
        ∙ ap (λ p. expected none p k)
            (sym (
              fail_body-pipes parse_url tokenize split gz unfinished stop_message delete_message
                delete_message s.decoder.writer s.decoder));
    in_range = λ n e.
        rw
          (fail_body-pipes parse_url tokenize split gz unfinished stop_message delete_message
            delete_message s.decoder.writer s.decoder)
          (v.in_range n (
            sym (
              fail_body-writer parse_url tokenize split gz unfinished stop_message delete_message
                delete_message s.decoder.writer s.decoder)
            ∙ e));
    current = λ x. absurd (cc);
    own_pipes =
        own_after parse_url tokenize split gz unfinished stop_message delete_message s _ _ v
          (fail_body-pipes parse_url tokenize split gz unfinished stop_message delete_message
            delete_message s.decoder.writer s.decoder)
          (fail_body-requests parse_url tokenize split gz unfinished stop_message delete_message
            delete_message s.decoder.writer s.decoder);
    whole = v.whole;
  }

  hands_out-Sound :
      (s : System Decompressor)
      → Sound s
      → Sound (record s {
        decoder = record s.decoder { requests = [] };
        handed = s.handed ++ pipes_of s.decoder.requests;
      })
  hands_out-Sound s v = record {
    fits = Fits-hands_out s.phase s.decoder v.fits;
    scripts = v.scripts;
    in_range = v.in_range;
    current = v.current;
    own_pipes = append-nil (s.handed ++ pipes_of s.decoder.requests) ∙ v.own_pipes;
    whole = v.whole;
  }

  step-Sound :
      {s t : System Decompressor}
      → Step parse_url tokenize split gz unfinished stop_message delete_message s t
      → Sound s
      → Sound t
  step-Sound {s = s} (begins e) v =
      let f = phase-Fits Phase.between s v e in
      goes_on-Sound parse_url tokenize split gz unfinished stop_message delete_message Phase.head _
        s v (rw e refl) (λ w x. sym f.2 ∙ x)
        (call-begin parse_url tokenize split gz unfinished stop_message delete_message s.decoder f)
  step-Sound {s = s} (reads_head c h e) v =
      let f = phase-Fits Phase.head s v e in
      goes_on-Sound parse_url tokenize split gz unfinished stop_message delete_message Phase.head _
        s v (rw e refl) (λ w x. sym f.2 ∙ x)
        (call-head parse_url tokenize split gz unfinished stop_message delete_message c s.decoder h
          f)
  step-Sound {s = s} (ends_head i e) v =
      let f = phase-Fits Phase.head s v e in
      head-Sound parse_url tokenize split gz unfinished stop_message delete_message _ s v e f.2 (
        call-headers parse_url tokenize split gz unfinished stop_message delete_message i s.decoder
          f)
  step-Sound {s = s} (reads_content c h e) v =
      let f = phase-Fits Phase.content s v e in
      elim (call-content parse_url tokenize split gz unfinished stop_message delete_message c f.2.0
        s.decoder h f.2.1 f) [
          | inl x ↦
              goes_on-Sound parse_url tokenize split gz unfinished stop_message delete_message
                Phase.content _ s v (rw e refl) (λ w y. refl) x
          | inr x ↦
              content-Sound parse_url tokenize split gz unfinished stop_message delete_message f.2.0
                _ s v e f.2.1 x
        ]
  step-Sound {s = s} (completes e) v =
      let f = phase-Fits Phase.content s v e in
      end-Sound parse_url tokenize split gz unfinished stop_message delete_message f.2.0 _ s v e
        f.2.1
        (call-end parse_url tokenize split gz unfinished stop_message delete_message f.2.0 s.decoder
          f.2.1 f)
  step-Sound {s = s} (skips_body e) v =
      let f = phase-Fits Phase.skips s v e in
      goes_on-Sound parse_url tokenize split gz unfinished stop_message delete_message Phase.between
        _ s v (rw e refl) (λ w x. sym f.1 ∙ x)
        (call-skipped parse_url tokenize split gz unfinished stop_message delete_message s.decoder
          f)
  step-Sound {s = s} (finds_error h) v =
      stops_unchanged-Sound parse_url tokenize split gz unfinished stop_message delete_message s
        s.decoder v (refl, refl, refl, refl)
  step-Sound {s = s} (stops h) v =
      stops_unchanged-Sound parse_url tokenize split gz unfinished stop_message delete_message s
        s.decoder v (refl, refl, refl, refl)
  step-Sound {s = s} (hands_out h) v = hands_out-Sound s v
  step-Sound {s = s} (deletes h) v = deletes-Sound s v h

  reach-Sound :
      {s : System Decompressor}
      → Reach parse_url tokenize split gz unfinished stop_message delete_message s
      → Sound s
  reach-Sound here = start-Sound Decompressor
  reach-Sound (next r s) = step-Sound s (reach-Sound r)

  begins_failed :
      (d : Streaming Decompressor)
      → d.failure ≡ true
      → call_stream parse_url tokenize split gz unfinished ParserCallback.message_begin d
        ≡ CallbackResult.aborts
  unfolding call_stream
  begins_failed d e = rw e refl

  -- Where no message begins in a decoder that has failed: no CHECK fails, every request has a pipe of its own, in
  -- order, and the calls on the writer of each pipe are strings while its body is read, and after that an
  -- end that nothing but failures follow, which the pipe ignores; so when the decoder has stopped or was
  -- deleted, every pipe has ended. If a message does begin in a decoder that has failed, a CHECK fails.
  pub pipes_end :
      (s : System Decompressor)
      → Reach parse_url tokenize split gz unfinished stop_message delete_message s
      → (s.aborted ≡ false)
        × (s.decoder.failure ≡ true
            → call_stream parse_url tokenize split gz unfinished ParserCallback.message_begin
                s.decoder
              ≡ CallbackResult.aborts)
        × (s.handed ++ pipes_of s.decoder.requests ≡ below s.decoder.pipes)
        × ((n : ℕ)
            → n < s.decoder.pipes
            → script (s.decoder.calls n) ≡ (
                if is_pipe (writing s.phase s.decoder.writer) n
                then Script.opened
                else Script.ended))
  pipes_end s r =
      let v = reach-Sound r in
      (v.whole, begins_failed s.decoder, v.own_pipes, λ n h. v.scripts n ∙ ground (arith, h))
