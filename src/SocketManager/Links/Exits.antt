-- ===== src/SocketManager/Links/Exits.antt =====
-- src/process.cpp: the linkees of an address exit (`SocketManager::exited`).
use libprocess.Common.{
  ℕ, zero, suc, at, ◌≡◌, ◌≤◌, refl, inl, inr, Option, none, some, List, [], ◌∷◌, ◌++◌, arith,
  ==_iff, Option-cases,
}
use libprocess.SocketManager.Links.{Links, members, Exited, notify, clear_linkee, clear_linkees}
use libprocess.SocketManager.Links.Sets.{times, tells, left_of, tells-append}
use libprocess.SocketManager.Links.Notice.{Told, notify_tells}

-- The maps of linkers and linkees are converse.
pub record Mirror (l : Links) : Type 0 where
  pub converse : (p u : ℕ) → times u (members (l.linkees p)) ≡ times p (members (l.linkers u))
  pub once : (p u : ℕ) → times p (members (l.linkers u)) ≤ 1

abbrev pub present : Option (List ℕ) → ℕ
present none = 0
present (some ps) = 1

abbrev pub removed : ℕ → Option (List ℕ) → Option (List ℕ)
removed zero o = o
removed (suc n) o = none

abbrev pub kept : ℕ → ℕ → ℕ
kept zero n = 0
kept (suc m) n = n

-- These linkees are gone, and each of their linkers was told once.
pub record Cleared (us : List ℕ) (l : Links) (result : Option (Links × List Exited)) : Type 0 where
  pub after : Links
  pub events : List Exited
  pub whole : result ≡ some (after, events)
  pub mirror : Mirror after
  pub linkers_after : (u : ℕ) → after.linkers u ≡ removed (times u us) (l.linkers u)
  pub remotes_after : (a : ℕ) → after.remotes a ≡ l.remotes a
  pub tells_once :
      (p u : ℕ) → tells p u events ≡ kept (times u us) (times p (members (l.linkers u)))

none_left : (n : ℕ) → left_of n n ≡ 0
none_left zero = refl
none_left (suc n) = refl

notify_all :
    (u : ℕ) (ps : List ℕ) (l : Links)
    → Mirror l
    → l.linkers u ≡ some ps
    → Told u ps l.linkees (notify u ps l.linkees)
notify_all u ps l m e =
    notify_tells u ps l.linkees (λ q. ground (arith, e, m.converse q u))
      (λ q. ground (arith, e, m.once q u))

-- One linkee.
pub clears_linkee :
    (u : ℕ) (ps : List ℕ) (l : Links)
    → Mirror l
    → l.linkers u ≡ some ps
    → Cleared (u ∷ []) l (clear_linkee u (some ps) l)
clears_linkee u ps l m e =
    let t = notify_all u ps l m e in
    record {
      after = record l { linkees = t.after; linkers = at l.linkers u none };
      events = t.events;
      whole = rw (clear_linkee, t.whole) refl;
      mirror = record {
        converse = λ p v. ground (arith, e, t.unlinks p v, m.converse p v, none_left (times p ps));
        once = λ p v. ground (arith, m.once p v);
      };
      linkers_after = λ v. ground arith;
      remotes_after = λ a. refl;
      tells_once = λ p v. ground (arith, e, t.tells_once p v);
    }

clear_linkees-whole :
    (u : ℕ) (us ps : List ℕ) (l l' l'' : Links) (es fs : List Exited)
    → l.linkers u ≡ some ps
    → clear_linkee u (some ps) l ≡ some (l', es)
    → clear_linkees us l' ≡ some (l'', fs)
    → clear_linkees (u ∷ us) l ≡ some (l'', es ++ fs)
unfolding clear_linkees
clear_linkees-whole u us ps l l' l'' es fs e w x = rw (clear_linkees, e, w, x) refl

pub clears_linkees :
    (us : List ℕ) (l : Links)
    → Mirror l
    → ((u : ℕ) → times u us ≤ 1)
    → ((u : ℕ) → times u us ≤ present (l.linkers u))
    → Cleared us l (clear_linkees us l)
unfolding clear_linkees
clears_linkees [] l m o h = record {
  after = l;
  events = [];
  whole = refl;
  mirror = m;
  linkers_after = λ u. refl;
  remotes_after = λ a. refl;
  tells_once = λ p u. refl;
}
clears_linkees (u ∷ us) l m o h = elim (Option-cases (l.linkers u)) [
  | inl e ↦ absurd (ground (arith, e, h u, ==_iff u u))
  | inr (ps, e) ↦
      let c = clears_linkee u ps l m e in
      let d =
        clears_linkees us c.after c.mirror (λ v. ground (arith, o v))
          (λ v. ground (arith, o v, h v, c.linkers_after v)) in
      record {
        after = d.after;
        events = c.events ++ d.events;
        whole = clear_linkees-whole u us ps l c.after d.after c.events d.events e c.whole d.whole;
        mirror = d.mirror;
        linkers_after = λ v. ground (arith, o v, c.linkers_after v, d.linkers_after v);
        remotes_after = λ a. ground (arith, c.remotes_after a, d.remotes_after a);
        tells_once = λ p v. ground (
          arith,
          o v,
          c.linkers_after v,
          c.tells_once p v,
          d.tells_once p v,
          tells-append p v c.events d.events,
        );
      }
]
