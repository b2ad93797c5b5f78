-- ===== src/Http/Streaming/Sound.antt =====
-- src/decoder.hpp: what holds in every history of a `StreamingRequestDecoder`.
use libprocess.Common.{
  ℕ, zero, suc, ◌<◌, ◌≡◌, refl, Bool, true, false, Option, none, some, List, [], ◌∷◌, ◌++◌, arith,
  if◌then◌else◌, ltb, ◌==◌,
}
use libprocess.Http.Message.{Request}
use libprocess.Http.Streaming.{WriterCall, Streaming}
use libprocess.Http.Streaming.System.{Phase, System, start_system, pipes_of}

-- The calls on a writer: strings, then an end, and after that only failures, which do nothing more.
pub data Script : Type 0 where
  opened ended broken : Script

abbrev pub follow : Script → WriterCall → Script
follow Script.opened (WriterCall.writes s) = Script.opened
follow Script.opened _ = Script.ended
follow Script.ended (WriterCall.fails s) = Script.ended
follow _ _ = Script.broken

abbrev pub script_from : Script → List WriterCall → Script
script_from state [] = state
script_from state (c ∷ cs) = script_from (follow state c) cs

pub script_from-append :
    (state : Script) (cs : List WriterCall) (c : WriterCall)
    → script_from state (cs ++ c ∷ []) ≡ follow (script_from state cs) c
script_from-append state [] c = refl
script_from-append state (b ∷ cs) c = script_from-append (follow state b) cs c

abbrev pub script : List WriterCall → Script
script cs = script_from Script.opened cs

-- The pipe that is being written.
abbrev pub writing : Phase → Option ℕ → Option ℕ
writing Phase.content w = w
writing Phase.fails w = w
writing _ w = none

abbrev pub is_over : Phase → Bool
is_over Phase.fails_ended = true
is_over Phase.deleted = true
is_over _ = false

abbrev pub is_pipe : Option ℕ → ℕ → Bool
is_pipe none n = false
is_pipe (some m) n = m == n

abbrev pub expected : Option ℕ → ℕ → ℕ → Script
expected w pipes n =
    if ltb n pipes then (if is_pipe w n then Script.opened else Script.ended) else Script.opened

-- The numbers below a number, in order.
abbrev pub below : ℕ → List ℕ
below zero = []
below (suc n) = below n ++ n ∷ []

-- What holds of the fields in each phase.
abbrev pub Fits : {D : Type 0} → Phase → Streaming D → Type 0
Fits Phase.between d = (d.failure ≡ false) × (d.request ≡ none) × (d.writer ≡ none)
Fits Phase.head d = (d.failure ≡ false) × ((r : Request) × (d.request ≡ some r)) × (d.writer ≡ none)
Fits Phase.content d = (d.failure ≡ false) × (d.request ≡ none) × ((n : ℕ) × (d.writer ≡ some n))
Fits Phase.skips d = (d.failure ≡ true) × (d.writer ≡ none)
Fits Phase.stopped d = (d.failure ≡ true) × (d.writer ≡ none)
Fits Phase.fails d = Unit
Fits Phase.fails_ended d = Unit
Fits Phase.deleted d = Unit

pub record Sound {D : Type 0} (s : System D) : Type 0 where
  pub fits : Fits s.phase s.decoder
  pub scripts :
      (n : ℕ)
      → script (s.decoder.calls n) ≡ expected (writing s.phase s.decoder.writer) s.decoder.pipes n
  pub in_range : (n : ℕ) → s.decoder.writer ≡ some n → n < s.decoder.pipes
  pub current : is_over s.phase ≡ false → writing s.phase s.decoder.writer ≡ s.decoder.writer
  pub own_pipes : s.handed ++ pipes_of s.decoder.requests ≡ below s.decoder.pipes
  pub whole : s.aborted ≡ false

pub start-Sound : (D : Type 0) → Sound (start_system D)
start-Sound D = record {
  fits = (refl, refl, refl);
  scripts = λ n. ground arith;
  in_range = λ n e. absurd (cc);
  current = λ e. refl;
  own_pipes = refl;
  whole = refl;
}
