-- ===== src/SocketManager/Links/Notice.antt =====
-- src/process.cpp: the linkers of one PID are told that it exited.
use libprocess.Common.{
  ℕ, at, ◌≡◌, ◌≤◌, refl, inl, inr, Option, some, List, [], ◌∷◌, arith, if◌then◌else◌, ◌==◌, ==_iff,
  Option-cases,
}
use libprocess.SocketManager.Links.{remove_member, members, unless_empty, Exited, notify}
use libprocess.SocketManager.Links.Sets.{
  times, tells, left_of, times-remove_member, members-unless_empty,
}

-- Each of them is told once, and has no link to the PID any more.
pub record Told (u : ℕ) (ps : List ℕ) (linkees : ℕ → Option (List ℕ))
    (result : Option ((ℕ → Option (List ℕ)) × List Exited)) : Type 0 where
  pub after : ℕ → Option (List ℕ)
  pub events : List Exited
  pub whole : result ≡ some (after, events)
  pub unlinks :
      (q v : ℕ)
      → times v (members (after q)) ≡ (
          if v == u
          then left_of (times q ps) (times v (members (linkees q)))
          else times v (members (linkees q)))
  pub tells_once : (q v : ℕ) → tells q v events ≡ (if v == u then times q ps else 0)

entry_at :
    (q v u p : ℕ) (us : List ℕ) (k : ℕ → Option (List ℕ))
    → k p ≡ some us
    → times v (members (at k p (unless_empty (remove_member u us)) q))
      ≡ (if p == q then (if u == v then 0 else times v us) else times v (members (k q)))
entry_at q v u p us k e =
    ground (arith, e, members-unless_empty (remove_member u us), times-remove_member u v us)

notify-whole :
    (u p : ℕ) (ps us : List ℕ) (k after : ℕ → Option (List ℕ)) (es : List Exited)
    → k p ≡ some us
    → notify u ps (at k p (unless_empty (remove_member u us))) ≡ some (after, es)
    → notify u (p ∷ ps) k ≡ some (after, record { linker = p; linkee = u } ∷ es)
unfolding notify
notify-whole u p ps us k after es e w = rw (notify, e, w) refl

pub notify_tells :
    (u : ℕ) (ps : List ℕ) (k : ℕ → Option (List ℕ))
    → ((q : ℕ) → times q ps ≤ times u (members (k q)))
    → ((q : ℕ) → times q ps ≤ 1)
    → Told u ps k (notify u ps k)
unfolding notify
notify_tells u [] k h o = record {
  after = k;
  events = [];
  whole = refl;
  unlinks = λ q v. ground arith;
  tells_once = λ q v. ground arith;
}
notify_tells u (p ∷ ps) k h o = elim (Option-cases (k p)) [
  | inl e ↦ absurd (ground (arith, e, h p, ==_iff p p))
  | inr (us, e) ↦
      let k' = at k p (unless_empty (remove_member u us)) in
      let v =
        notify_tells u ps k' (λ q. ground (arith, e, h q, o q, entry_at q u u p us k e))
          (λ q. ground (arith, o q)) in
      record {
        after = v.after;
        events = record { linker = p; linkee = u } ∷ v.events;
        whole = notify-whole u p ps us k v.after v.events e v.whole;
        unlinks = λ q w. ground (arith, e, h q, o q, v.unlinks q w, entry_at q w u p us k e);
        tells_once = λ q w. ground (arith, v.tells_once q w);
      }
]
