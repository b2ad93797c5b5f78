-- ===== src/SocketManager/Links/Exiting.antt =====
-- src/process.cpp: what `SocketManager::exited` of a process does to the links.
use libprocess.Common.{
  ℕ, at, ◌≡◌, refl, inl, inr, false, Option, none, some, List, [], arith, if◌then◌else◌, ◌==◌,
  Option-cases,
}
use libprocess.SocketManager.Links.{
  Links, Exited, has, clear_linkee, drop_process, drop_linkees, exited_process,
}
use libprocess.SocketManager.Links.Sets.{has-times}
use libprocess.SocketManager.Links.Exits.{clears_linkee}
use libprocess.SocketManager.Links.Drops.{drops_linkees}
use libprocess.SocketManager.Links.History.{Op}
use libprocess.SocketManager.Links.Sound.{linked, Inv, Does}

module _ (address pid : ℕ → ℕ) (here : ℕ) where
  -- A process that exits: first it is no linker any more, ...
  record Unlinked (p : ℕ) (l : Links) (result : Option Links) : Type 0 where
    after : Links
    whole : result ≡ some after
    inv : Inv address pid here after
    pairs : (q v : ℕ) → linked after q v ≡ (if q == p then 0 else linked l q v)

  drop_process-whole :
      (p : ℕ) (us : List ℕ) (l l' : Links)
      → drop_linkees address here p us l ≡ some l'
      → drop_process address here p (some us) l
        ≡ some (record l' { linkees = at l'.linkees p none })
  unfolding drop_process
  drop_process-whole p us l l' w = rw (drop_process, w) refl

  unlinks :
      (p : ℕ) (l : Links)
      → Inv address pid here l
      → Unlinked p l (drop_process address here p (l.linkees p) l)
  unfolding drop_process
  unlinks p l i = elim (Option-cases (l.linkees p)) [
    | inl n ↦ rw n (record {
      after = l;
      whole = refl;
      inv = i;
      pairs = λ q v. ground (arith, n, i.mirror.converse p v);
    })
    | inr (us, n) ↦
        let d =
          drops_linkees address here p us l i.remote
            (λ u. ground (arith, n, i.mirror.converse p u, i.mirror.once p u))
            (λ u. ground (arith, n, i.mirror.converse p u)) in
        rw n (record {
          after = record d.after { linkees = at d.after.linkees p none };
          whole = drop_process-whole p us l d.after d.whole;
          inv = record {
            mirror = record {
              converse = λ q v. ground (
                arith,
                n,
                i.mirror.converse q v,
                i.mirror.once q v,
                d.linkees_after q,
                d.linkers_after q v,
              );
              once = λ q v.
                  ground (arith, n, i.mirror.converse q v, i.mirror.once q v, d.linkers_after q v);
            };
            remote = d.remote;
          };
          pairs = λ q v.
              ground (arith, n, i.mirror.converse q v, i.mirror.once q v, d.linkers_after q v);
        })
  ]

  -- ... and then its linkers are told, the process itself not among them.
  exited_none :
      (p : ℕ) (l l' : Links)
      → drop_process address here p (l.linkees p) l ≡ some l'
      → l'.linkers (pid p) ≡ none
      → exited_process address here p (pid p) l ≡ some (l', [])
  unfolding exited_process
  exited_none p l l' w n = rw (exited_process, w, n) refl

  exited_some :
      (p : ℕ) (ps : List ℕ) (l l' l'' : Links) (es : List Exited)
      → drop_process address here p (l.linkees p) l ≡ some l'
      → l'.linkers (pid p) ≡ some ps
      → has p ps ≡ false
      → clear_linkee (pid p) (some ps) l' ≡ some (l'', es)
      → exited_process address here p (pid p) l ≡ some (l'', es)
  unfolding exited_process
  exited_some p ps l l' l'' es w n h x = rw (exited_process, w, n, h, x) refl

  module _ (local : (p : ℕ) → address (pid p) ≡ here) where
    pub exits_does :
        (p : ℕ) (l : Links)
        → Inv address pid here l
        → Does address pid here (Op.exits p) l (exited_process address here p (pid p) l)
    exits_does p l i =
        let u = unlinks p l i in
        elim (Option-cases (u.after.linkers (pid p))) [
          | inl n ↦ record {
            after = u.after;
            events = [];
            whole = exited_none p l u.after u.whole n;
            inv = u.inv;
            pairs = λ q v. ground (arith, n, u.pairs q v, u.pairs q (pid p));
            told = λ q v. ground (arith, n, u.pairs q v);
          }
          | inr (ps, n) ↦
              let c = clears_linkee (pid p) ps u.after u.inv.mirror n in
              record {
                after = c.after;
                events = c.events;
                whole =
                    exited_some p ps l u.after c.after c.events u.whole n
                      (has-times p ps (ground (arith, n, u.pairs p (pid p)))) c.whole;
                inv = record {
                  mirror = c.mirror;
                  remote = λ a v.
                      ground
                        (arith, n, local p, u.inv.remote a v, c.remotes_after a, c.linkers_after v);
                };
                pairs = λ q v. ground (arith, n, u.pairs q v, c.linkers_after v);
                told = λ q v. ground (arith, n, u.pairs q v, c.tells_once q v);
              }
        ]
