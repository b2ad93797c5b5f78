-- ===== src/Http/Streaming/Ends.antt =====
-- src/decoder.hpp: the pipe of a `StreamingRequestDecoder` is made, written and closed.
use libprocess.Common.{
  ℕ, ◌≡◌, refl, sym, ap, ◌∙◌, Option, none, some, List, [], ◌∷◌, ◌++◌, append_assoc, arith,
}
use libprocess.Http.Pipe.{Text}
use libprocess.Http.Message.{UrlParts, CallbackResult}
use libprocess.Http.Streaming.{WriterCall, Gzip, Streaming}
use libprocess.Http.Streaming.System.{Phase, System, pipes_of, after, after_headers, after_complete}
use libprocess.Http.Streaming.Sound.{Script, script_from-append, script, below, Sound}
use libprocess.Http.Streaming.Callbacks.{HeadDone, ContentDone, EndDone}
use libprocess.Http.Streaming.Stops.{own_after, fails-Sound}

module _ (parse_url : Text → Option UrlParts) (tokenize split : Text → List Text) (gz : Gzip)
    (unfinished stop_message delete_message : Text) where
  open gz use {Decompressor, start, decompress, finished}

  pub head-Sound :
      (c : CallbackResult (Streaming Decompressor)) (s : System Decompressor)
      → Sound s
      → s.phase ≡ Phase.head
      → s.decoder.writer ≡ none
      → HeadDone s.decoder c
      → Sound (after_headers parse_url tokenize split gz unfinished stop_message delete_message c s)
  head-Sound (CallbackResult.success d) s v h e (f, w, n, c, r) = record {
    fits = f;
    scripts = λ k. ground (arith, w, n, c, e, h, v.scripts k, ap (λ calls. script (calls k)) c);
    in_range = λ k x. ground (arith, w, n, x);
    current = λ x. refl;
    own_pipes =
        ap (λ ns. s.handed ++ ns) r
        ∙ sym (append_assoc s.handed (pipes_of s.decoder.requests) (s.decoder.pipes ∷ []))
        ∙ ap (λ ns. ns ++ s.decoder.pipes ∷ []) v.own_pipes
        ∙ ap below (sym n);
    whole = v.whole;
  }
  head-Sound (CallbackResult.failure d) s v h e (f, (w, n, c, r)) = record {
    fits = f;
    scripts = λ k. ground (arith, w, n, c, e, h, v.scripts k, ap (λ calls. script (calls k)) c);
    in_range = λ k x. ground (arith, w, e, x);
    current = λ x. ground (arith, w, e);
    own_pipes =
        own_after parse_url tokenize split gz unfinished stop_message delete_message s d.requests
          d.pipes v n r;
    whole = v.whole;
  }
  head-Sound CallbackResult.aborts s v h e x = absurd x

  pub content-Sound :
      (n : ℕ) (c : CallbackResult (Streaming Decompressor)) (s : System Decompressor)
      → Sound s
      → s.phase ≡ Phase.content
      → s.decoder.writer ≡ some n
      → ContentDone n s.decoder c
      → Sound (
          after parse_url tokenize split gz unfinished stop_message delete_message Phase.content c
            s)
  content-Sound n (CallbackResult.success d) s v h e (f, w, (t, c), m, r) = record {
    fits = f;
    scripts = λ k. ground (
      arith,
      w,
      m,
      e,
      h,
      v.scripts k,
      v.in_range n e,
      ap (λ calls. script (calls k)) c,
      script_from-append Script.opened (s.decoder.calls n) (WriterCall.writes t),
    );
    in_range = λ k x. rw m (v.in_range k (sym w ∙ x));
    current = λ x. refl;
    own_pipes =
        own_after parse_url tokenize split gz unfinished stop_message delete_message s d.requests
          d.pipes v m r;
    whole = v.whole;
  }
  content-Sound n (CallbackResult.failure d) s v h e same =
      fails-Sound parse_url tokenize split gz unfinished stop_message delete_message s d v
        (rw h refl) same
  content-Sound n CallbackResult.aborts s v h e x = absurd x

  pub end-Sound :
      (n : ℕ) (c : CallbackResult (Streaming Decompressor)) (s : System Decompressor)
      → Sound s
      → s.phase ≡ Phase.content
      → s.decoder.writer ≡ some n
      → EndDone n s.decoder c
      → Sound
          (after_complete parse_url tokenize split gz unfinished stop_message delete_message c s)
  end-Sound n (CallbackResult.success d) s v h e (f, c, m, r) = record {
    fits = f;
    scripts = λ k. ground (
      arith,
      m,
      e,
      h,
      v.scripts k,
      v.in_range n e,
      ap (λ calls. script (calls k)) c,
      script_from-append Script.opened (s.decoder.calls n) WriterCall.closes,
    );
    in_range = λ k x. absurd (ground (arith, f, x));
    current = λ x. ground (arith, f);
    own_pipes =
        own_after parse_url tokenize split gz unfinished stop_message delete_message s d.requests
          d.pipes v m r;
    whole = v.whole;
  }
  end-Sound n (CallbackResult.failure d) s v h e (w, (t, c), m, r) = record {
    fits = tt;
    scripts = λ k. ground (
      arith,
      m,
      e,
      h,
      v.scripts k,
      v.in_range n e,
      ap (λ calls. script (calls k)) c,
      script_from-append Script.opened (s.decoder.calls n) (WriterCall.fails t),
    );
    in_range = λ k x. rw m (v.in_range k (sym w ∙ x));
    current = λ x. absurd (cc);
    own_pipes =
        own_after parse_url tokenize split gz unfinished stop_message delete_message s d.requests
          d.pipes v m r;
    whole = v.whole;
  }
  end-Sound n CallbackResult.aborts s v h e x = absurd x
