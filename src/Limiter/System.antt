-- ===== src/Limiter/System.antt =====
-- include/process/limiter.hpp: histories of a `RateLimiterProcess`.
use libprocess.Common.{
  ℕ, ◌≤◌, ◌≡◌, Bool, true, false, Option, none, some, List, [], ◌∷◌, ◌++◌, if◌then◌else◌,
}
use libprocess.Limiter.{Limiter, new_limiter, Answer, discard, acquire, on_delay}

-- `asked` are the promises that were made, `left` those that were taken off the queue or never stood in it, `done`
-- those that are done, each in order, and `permits` the times of the permits, the latest first.
pub record System : Type 0 where
  pub limiter : Limiter
  pub now : ℕ
  pub asked : List ℕ
  pub left : List Answer
  pub done : List Answer
  pub permits : List ℕ
  pub aborted : Bool

abbrev pub start : ℕ → System
start now = record {
  limiter = new_limiter now;
  now = now;
  asked = [];
  left = [];
  done = [];
  permits = [];
  aborted = false;
}

abbrev pub promises_of : List Answer → List ℕ
promises_of [] = []
promises_of (a ∷ more) = a.promise ∷ promises_of more

abbrev pub permits_at : ℕ → List Answer → List ℕ
permits_at t [] = []
permits_at t (a ∷ more) = let rest = permits_at t more in if a.permit then t ∷ rest else rest

-- What taking promises off the queue completes: those that were discarded are done already.
abbrev pub with_permit : List Answer → List Answer
with_permit [] = []
with_permit (a ∷ more) = let rest = with_permit more in if a.permit then a ∷ rest else rest

abbrev pub permitted : List Answer → List ℕ
permitted [] = []
permitted (a ∷ more) = let rest = permitted more in if a.permit then a.promise ∷ rest else rest

abbrev pub refused : List Answer → List ℕ
refused [] = []
refused (a ∷ more) = let rest = refused more in if a.permit then rest else a.promise ∷ rest

abbrev pub discards_at : ℕ → Limiter × List Answer → System → System
discards_at t (l, more) s = record s { limiter = l; now = t; done = s.done ++ more }

abbrev pub answers : ℕ → Limiter × List Answer → System → System
answers t (l, more) s = record s {
  limiter = l;
  now = t;
  left = s.left ++ more;
  done = s.done ++ with_permit more;
  permits = permits_at t more ++ s.permits;
}

abbrev pub answers_unless : ℕ → Option (Limiter × List Answer) → System → System
answers_unless t none s = record s { aborted = true }
answers_unless t (some r) s = answers t r s

module _ (interval : ℕ) where
  -- Time does not go back, and a delayed call comes when it is due or later.
  pub data Step (s : System) : System → Type 0 where
    asks :
        (p t : ℕ)
        → s.now ≤ t
        → Step s
            (answers t (acquire interval p t s.limiter) (record s { asked = s.asked ++ p ∷ [] }))
    discards : (p t : ℕ) → s.now ≤ t → Step s (discards_at t (discard p s.limiter) s)
    comes :
        (before : List ℕ) (due : ℕ) (behind : List ℕ) (t : ℕ)
        → s.limiter.delays ≡ before ++ due ∷ behind
        → due ≤ t
        → s.now ≤ t
        → Step s (
            answers_unless t
              (on_delay interval t (record s.limiter { delays = before ++ behind }))
              s)

  pub data Reach (t : ℕ) : System → Type 0 where
    here : Reach t (start t)
    next : {r s : System} → Reach t r → Step r s → Reach t s
