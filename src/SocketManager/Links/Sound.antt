-- ===== src/SocketManager/Links/Sound.antt =====
-- src/process.cpp: what `SocketManager::link` and `exited` of an address do to the links.
use libprocess.Common.{
  ℕ, at, ◌≡◌, refl, inl, inr, Bool, if◌then◌else◌, ◌==◌, Bool-cases, Option, none, some, List, [],
  ◌∷◌, arith,
}
use libprocess.SocketManager.Links.{
  Links, Exited, members, clear_linkees, add_link, link_process, exited_address,
}
use libprocess.SocketManager.Links.Sets.{times, tells, times-add_member}
use libprocess.SocketManager.Links.Exits.{Mirror, clears_linkees}
use libprocess.SocketManager.Links.Drops.{Remote}
use libprocess.SocketManager.Links.History.{Op, apply, pairs_after, told_of}

-- How often a linker is linked to a linkee.
abbrev pub linked : Links → ℕ → ℕ → ℕ
linked l p u = times p (members (l.linkers u))

module _ (address pid : ℕ → ℕ) (here : ℕ) where
  pub record Inv (l : Links) : Type 0 where
    pub mirror : Mirror l
    pub remote : Remote address here l

  -- An operation that fails no CHECK, and does what it promises.
  pub record Does (o : Op) (l : Links) (result : Option (Links × List Exited)) : Type 0 where
    pub after : Links
    pub events : List Exited
    pub whole : result ≡ some (after, events)
    pub inv : Inv after
    pub pairs : (q v : ℕ) → linked after q v ≡ pairs_after address pid here o (linked l) q v
    pub told : (q v : ℕ) → tells q v events ≡ told_of address pid here o (linked l) q v

  add_link-Inv : (p u : ℕ) (l : Links) → Inv l → Inv (add_link address here p u l)
  add_link-Inv p u l i = record {
    mirror = record {
      converse = λ q v. ground (
        arith,
        i.mirror.converse q v,
        i.mirror.once p u,
        i.mirror.converse p u,
        times-add_member p q (members (l.linkers u)),
        times-add_member u v (members (l.linkees p)),
      );
      once = λ q v. ground (
        arith,
        i.mirror.once q v,
        i.mirror.once p u,
        times-add_member p q (members (l.linkers u)),
      );
    };
    remote = λ a v. ground (
      arith,
      i.remote a v,
      i.remote (address u) u,
      times-add_member u v (members (l.remotes (address u))),
    );
  }

  add_link-linked :
      (p u : ℕ) (l : Links)
      → Inv l
      → (q v : ℕ)
      → linked (add_link address here p u l) q v
        ≡ (if q == p then (if v == u then 1 else linked l q v) else linked l q v)
  add_link-linked p u l i q v =
      ground (arith, i.mirror.once p u, times-add_member p q (members (l.linkers u)))

  pub links_does :
      (creates : Bool) (p u : ℕ) (l : Links)
      → Inv l
      → Does (Op.links creates p u) l (apply address pid here (Op.links creates p u) l)
  unfolding link_process
  links_does creates p u l i = elim (Bool-cases (address u == here)) [
    | inl x ↦ record {
      after = add_link address here p u l;
      events = [];
      whole = rw x refl;
      inv = add_link-Inv p u l i;
      pairs = λ q v. (rw x (add_link-linked p u l i q v));
      told = λ q v. rw x refl;
    }
    | inr x ↦ elim (Bool-cases creates) [
      | inl y ↦ record {
        after = add_link address here p u l;
        events = [];
        whole = rw (x, y) refl;
        inv = add_link-Inv p u l i;
        pairs = λ q v. (rw (x, y) (add_link-linked p u l i q v));
        told = λ q v. rw (x, y) refl;
      }
      | inr y ↦ record {
        after = l;
        events = record { linker = p; linkee = u } ∷ [];
        whole = rw (x, y) refl;
        inv = i;
        pairs = λ q v. rw (x, y) refl;
        told = λ q v. ground (arith, x, y);
      }
    ]
  ]

  pub lose_none :
      (a : ℕ) (l : Links) → Inv l → l.remotes a ≡ none → Does (Op.loses a) l (exited_address a l)
  unfolding exited_address
  lose_none a l i n = record {
    after = l;
    events = [];
    whole = rw (exited_address, n) refl;
    inv = i;
    pairs = λ q v. ground (arith, n, i.remote a v);
    told = λ q v. ground (arith, n, i.remote a v);
  }

  exited_address-whole :
      (a : ℕ) (us : List ℕ) (l l' : Links) (es : List Exited)
      → l.remotes a ≡ some us
      → clear_linkees us l ≡ some (l', es)
      → exited_address a l ≡ some (record l' { remotes = at l'.remotes a none }, es)
  unfolding exited_address
  exited_address-whole a us l l' es n w = rw (exited_address, n, w) refl

  pub lose_some :
      (a : ℕ) (us : List ℕ) (l : Links)
      → Inv l
      → l.remotes a ≡ some us
      → Does (Op.loses a) l (exited_address a l)
  lose_some a us l i n =
      let c =
        clears_linkees us l i.mirror (λ u. ground (arith, n, i.remote a u))
          (λ u. ground (arith, n, i.remote a u)) in
      record {
        after = record c.after { remotes = at c.after.remotes a none };
        events = c.events;
        whole = exited_address-whole a us l c.after c.events n c.whole;
        inv = record {
          mirror = record { converse = c.mirror.converse; once = c.mirror.once };
          remote = λ b v.
              ground (arith, n, i.remote a v, i.remote b v, c.remotes_after b, c.linkers_after v);
        };
        pairs = λ q v. ground (arith, n, i.remote a v, c.linkers_after v);
        told = λ q v. ground (arith, n, i.remote a v, c.tells_once q v);
      }
