-- ===== src/Http/Decoder/Whole.antt =====
-- src/decoder.hpp: `DataDecoder` gives the same requests however the messages are cut in fragments.
use libprocess.Common.{◌≡◌, Bool, true, false, Option, none, some, List, [], ◌∷◌, ◌++◌}
use libprocess.Http.Pipe.{Text}
use libprocess.Http.Message.{Reading, UrlParts, Request, CallbackResult}
use libprocess.Http.Decoder.{DataDecoder}
use libprocess.Http.Decoder.Fragments.{Fragments, Verdict}

module _ (parse_url : Text → Option UrlParts) (tokenize split : Text → List Text)
    (decompress : Text → Option Text) where
  abbrev idle : Reading → Text → Text → List Request → DataDecoder
  idle h q u rs = record {
    failure = false;
    reading = h;
    query = q;
    url = u;
    request = none;
    requests = rs;
  }

  -- What the last callback of a message does, by the verdict of the message.
  abbrev Ends : Verdict → List Request → CallbackResult DataDecoder → Type 0
  Ends (Verdict.accepted r) rs c =
      (h : Reading) × (q : Text) × (u : Text) × (c
        ≡ CallbackResult.success (idle h q u (rs ++ r ∷ [])))
  Ends Verdict.refused rs c = (d : DataDecoder) × (c ≡ CallbackResult.failure d) × (d.requests ≡ rs)
  Ends Verdict.aborted rs c = c ≡ CallbackResult.aborts

  -- What the callbacks of many messages do.
  abbrev Runs : Option (List Request × Bool) → List Request → CallbackResult DataDecoder → Type 0
  Runs none rs c = c ≡ CallbackResult.aborts
  Runs (some (out, false)) rs c =
      (d : DataDecoder) × (c ≡ CallbackResult.success d)
      × (d.requests ≡ rs ++ out)
      × (d.failure ≡ false)
  Runs (some (out, true)) rs c =
      (d : DataDecoder) × (c ≡ CallbackResult.failure d) × (d.requests ≡ rs ++ out)
