-- ===== src/SocketManager/Links/Promise.antt =====
-- src/process.cpp: the links of `SocketManager` keep their promise.
use libprocess.Common.{
  ℕ, ◌≡◌, refl, inl, inr, some, List, [], ◌∷◌, ◌++◌, arith, Option-cases, fun_ext,
}
use libprocess.SocketManager.Links.{Links, no_links, Exited}
use libprocess.SocketManager.Links.Sets.{tells, tells-append}
use libprocess.SocketManager.Links.History.{Op, apply, run, pairs_after, all_pairs, all_told}
use libprocess.SocketManager.Links.Sound.{linked, Inv, Does, links_does, lose_none, lose_some}
use libprocess.SocketManager.Links.Exiting.{exits_does}

module _ (address pid : ℕ → ℕ) (here : ℕ) (local : (p : ℕ) → address (pid p) ≡ here) where
  does :
      (o : Op) (l : Links)
      → Inv address pid here l
      → Does address pid here o l (apply address pid here o l)
  does (Op.links creates p u) l i = links_does address pid here creates p u l i
  does (Op.loses a) l i = elim (Option-cases (l.remotes a)) [
    | inl n ↦ lose_none address pid here a l i n
    | inr (us, n) ↦ lose_some address pid here a us l i n
  ]
  does (Op.exits p) l i = exits_does address pid here local p l i

  run-cons :
      (o : Op) (os : List Op) (l l' l'' : Links) (es fs : List Exited)
      → apply address pid here o l ≡ some (l', es)
      → run address pid here os l' ≡ some (l'', fs)
      → run address pid here (o ∷ os) l ≡ some (l'', es ++ fs)
  unfolding run
  run-cons o os l l' l'' es fs w x = rw (run, w, x) refl

  -- Pairs that are equal have equal fates.
  pairs_agree :
      (os : List Op) (f g : ℕ → ℕ → ℕ)
      → ((q v : ℕ) → f q v ≡ g q v)
      → (q v : ℕ)
      → (all_pairs address pid here os f q v ≡ all_pairs address pid here os g q v)
        × (all_told address pid here os f q v ≡ all_told address pid here os g q v)
  pairs_agree os f g e q v = rw (fun_ext (λ x. fun_ext (e x))) (refl, refl)

  run_does :
      (os : List Op) (l : Links)
      → Inv address pid here l
      → (l' : Links) × (es : List Exited) × (run address pid here os l ≡ some (l', es))
        × ((q v : ℕ)
            → (linked l' q v ≡ all_pairs address pid here os (linked l) q v)
              × (tells q v es ≡ all_told address pid here os (linked l) q v))
  unfolding run
  run_does [] l i = (l, [], refl, λ q v. (refl, refl))
  run_does (o ∷ os) l i =
      let d = does o l i in
      let (l', es, w, h) = run_does os d.after d.inv in
      (
        l',
        d.events ++ es,
        run-cons o os l d.after l' d.events es d.whole w,
        λ q v.
            (let agree =
                pairs_agree os (linked d.after) (pairs_after address pid here o (linked l)) d.pairs
                  q v in
              ground (arith, h q v, agree, d.told q v, tells-append q v d.events es)),
      )

  -- If every process of this library has its address, then in every history from no links no CHECK
  -- fails, a process is linked to a PID exactly if the promise says so, and it was told that the PID
  -- exited exactly as often as promised: once for each link that was there when the address of the
  -- PID was lost, or when the process of the PID exited and was not itself the linker, and once for each call of
  -- `link` that could not create the socket that it needed, which makes no link.
  pub links_keep_promise :
      (os : List Op)
      → (l : Links) × (es : List Exited) × (run address pid here os no_links ≡ some (l, es))
        × ((q v : ℕ)
            → (linked l q v ≡ all_pairs address pid here os (λ p u. 0) q v)
              × (tells q v es ≡ all_told address pid here os (λ p u. 0) q v))
  links_keep_promise os = run_does os no_links (record {
    mirror = record { converse = λ p u. refl; once = λ p u. ground arith };
    remote = λ a u. ground arith;
  })
