-- ===== src/SocketManager/Links/Drops.antt =====
-- src/process.cpp: the links of a process that exits (`SocketManager::exited`).
use libprocess.Common.{
  ℕ, at, ◌≡◌, ◌≤◌, refl, ◌⊎◌, inl, inr, false, Option, none, some, List, [], ◌∷◌, arith,
  if◌then◌else◌, ◌==◌, ==_iff, Bool-cases, Option-cases,
}
use libprocess.SocketManager.Links.{
  Links, remove_member, members, unless_empty, drop_remote, drop_linker, drop_linkees,
}
use libprocess.SocketManager.Links.Sets.{times, left_of, times-remove_member, members-unless_empty}
use libprocess.SocketManager.Links.Exits.{present}

List-cases : (xs : List ℕ) → (xs ≡ []) ⊎ ((y : ℕ) × (ys : List ℕ) × (xs ≡ y ∷ ys))
List-cases [] = inl refl
List-cases (y ∷ ys) = inr (y, ys, refl)

module _ (address : ℕ → ℕ) (here : ℕ) where
  -- The linkees at a remote address are those that have linkers.
  abbrev pub Remote : Links → Type 0
  Remote l =
      (a u : ℕ)
      → times u (members (l.remotes a))
        ≡ (if address u == a then (if a == here then 0 else present (l.linkers u)) else 0)

  pub record Dropped (p : ℕ) (us : List ℕ) (l : Links) (result : Option Links) : Type 0 where
    pub after : Links
    pub whole : result ≡ some after
    pub linkees_after : (q : ℕ) → after.linkees q ≡ l.linkees q
    pub linkers_after :
        (q u : ℕ)
        → times q (members (after.linkers u)) ≡ (
            if q == p
            then left_of (times u us) (times q (members (l.linkers u)))
            else times q (members (l.linkers u)))
    pub remote : Remote after

  clears_last :
      (p u : ℕ) (ps us : List ℕ) (l : Links)
      → Remote l
      → l.linkers u ≡ some ps
      → remove_member p ps ≡ []
      → l.remotes (address u) ≡ some us
      → (address u == here) ≡ false
      → Dropped p
          (u ∷ [])
          l
          (drop_remote address here u (some us) (record l { linkers = at l.linkers u none }))
  clears_last p u ps us l r e x y n = record {
    after = record l {
      linkers = at l.linkers u none;
      remotes = at l.remotes (address u) (unless_empty (remove_member u us));
    };
    whole = refl;
    linkees_after = λ q. refl;
    linkers_after = λ q v. ground (arith, e, x, times-remove_member p q ps);
    remote = λ a v. ground (
      arith,
      e,
      y,
      n,
      r a v,
      members-unless_empty (remove_member u us),
      times-remove_member u v us,
    );
  }

  drops_one :
      (p u : ℕ) (ps : List ℕ) (l : Links)
      → Remote l
      → l.linkers u ≡ some ps
      → Dropped p (u ∷ []) l (drop_linker address here p u (some ps) l)
  drops_one p u ps l r e = elim (List-cases (remove_member p ps)) [
    | inr (q, qs, x) ↦ rw x (record {
      after = record l { linkers = at l.linkers u (some (q ∷ qs)) };
      whole = refl;
      linkees_after = λ q'. refl;
      linkers_after = λ q' v. ground (arith, e, x, times-remove_member p q' ps);
      remote = λ a v. ground (arith, e, r a v);
    })
    | inl x ↦ elim (Bool-cases (address u == here)) [
      | inl n ↦
          rw (x, n)
            (record {
              after = record l { linkers = at l.linkers u none };
              whole = refl;
              linkees_after = λ q'. refl;
              linkers_after = λ q' v. ground (arith, e, x, times-remove_member p q' ps);
              remote = λ a v. ground (arith, e, n, r a v);
            })
      | inr n ↦ elim (Option-cases (l.remotes (address u))) [
        | inl y ↦ absurd (ground (arith, e, y, n, r (address u) u, ==_iff (address u) (address u)))
        | inr (us, y) ↦ rw (x, n, y) (clears_last p u ps us l r e x y n)
      ]
    ]
  ]

  drop_linkees-whole :
      (p u : ℕ) (us ps : List ℕ) (l l' l'' : Links)
      → l.linkers u ≡ some ps
      → drop_linker address here p u (some ps) l ≡ some l'
      → drop_linkees address here p us l' ≡ some l''
      → drop_linkees address here p (u ∷ us) l ≡ some l''
  unfolding drop_linkees
  drop_linkees-whole p u us ps l l' l'' e w x = rw (drop_linkees, e, w, x) refl

  pub drops_linkees :
      (p : ℕ) (us : List ℕ) (l : Links)
      → Remote l
      → ((u : ℕ) → times u us ≤ 1)
      → ((u : ℕ) → times u us ≤ times p (members (l.linkers u)))
      → Dropped p us l (drop_linkees address here p us l)
  unfolding drop_linkees
  drops_linkees p [] l r o h = record {
    after = l;
    whole = refl;
    linkees_after = λ q. refl;
    linkers_after = λ q u. ground arith;
    remote = r;
  }
  drops_linkees p (u ∷ us) l r o h = elim (Option-cases (l.linkers u)) [
    | inl e ↦ absurd (ground (arith, e, h u, ==_iff u u))
    | inr (ps, e) ↦
        let c = drops_one p u ps l r e in
        let d =
          drops_linkees p us c.after c.remote (λ v. ground (arith, o v))
            (λ v. ground (arith, o v, h v, c.linkers_after p v)) in
        record {
          after = d.after;
          whole = drop_linkees-whole p u us ps l c.after d.after e c.whole d.whole;
          linkees_after = λ q. ground (arith, c.linkees_after q, d.linkees_after q);
          linkers_after = λ q v. ground (arith, o v, c.linkers_after q v, d.linkers_after q v);
          remote = d.remote;
        }
  ]
