-- ===== src/SocketManager/Sending/Send.antt =====
-- src/process.cpp: both versions of `SocketManager::send`.
use libprocess.Common.{
  ℕ, ◌≡◌, refl, ◌⊎◌, inl, inr, at, Bool, true, false, Option, none, some, [], ◌∷◌, ◌++◌,
  append_assoc, append-nil, arith, Bool-cases, Option-cases,
}
use libprocess.SocketManager.{
  send_encoder, queue_or_send, dispose_unless, send_temporary, send_message,
}
use libprocess.SocketManager.Sockets
use libprocess.SocketManager.Sockets.Added
use libprocess.SocketManager.System.{System, does, hands, opens, Fresh, here_only, target, made_for}
use libprocess.SocketManager.Sending.{Sound, changes_one}

-- Data is sent on a socket that is there: a loop starts, or the data is queued for the loop.
hands_on-Sound :
    (e s : ℕ) (g : System)
    → Sound g
    → g.manager.sockets s ≡ true
    → let after = queue_or_send e s (g.manager.outgoing s) g.manager in
      Sound (does after.1 (hands e (some s) (record g { manager = after.0 })))
hands_on-Sound e s g v there =
    let in_order = (v.sent s).in_order there in
    let i = Sockets.queue_or_send-Inv e s g.manager v.inv there in
    elim (Option-cases (g.manager.outgoing s)) [
      | inl o ↦ rw o (
          changes_one s g _ v (rw o at i) v.whole (λ t h. ground (arith, h))
            (record {
              one_loop = λ h. ground (arith, o, there, (v.sent s).one_loop);
              in_order = λ h. ground (
                arith,
                o,
                in_order,
                append-nil (g.started s),
                append-nil (g.started s ++ e ∷ []),
              );
              at_most_one = ground (arith, o, there, (v.sent s).one_loop);
            }))
      | inr (es, o) ↦ rw o (
          changes_one s g _ v (rw o at i) v.whole (λ t h. ground (arith, h))
            (record {
              one_loop = λ h. ground (arith, o, there, (v.sent s).one_loop);
              in_order = λ h. ground (arith, o, in_order, append_assoc (g.started s) es (e ∷ []));
              at_most_one = ground (arith, o, there, (v.sent s).one_loop);
            }))
    ]

-- Only the sockets to be disposed of change.
with_dispose-Sound :
    (dispose : ℕ → Bool) (g : System)
    → Sound g
    → Sockets.Inv (record g.manager { dispose = dispose })
    → Sound (record g { manager = record g.manager { dispose = dispose } })
with_dispose-Sound dispose g v i = record { inv = i; whole = v.whole; sent = v.sent }

sends-Sound :
    (e : ℕ) (persist : Bool) (s : ℕ) (g : System)
    → Sound g
    → (persist ≡ true) ⊎ ((g.manager.addresses s ≡ none) ⊎ (g.manager.dispose s ≡ true))
    → g.manager.sockets s ≡ true
    → let after = queue_or_send e s (g.manager.outgoing s) (dispose_unless persist s g.manager) in
      Sound (does after.1 (hands e (some s) (record g { manager = after.0 })))
sends-Sound e true s g v p there = hands_on-Sound e s g v there
sends-Sound e false s g v (inl wrong) there = absurd (cc)
sends-Sound e false s g v (inr p) there =
    let i = Sockets.disposes-Inv s g.manager v.inv there p in
    hands_on-Sound e s _ (with_dispose-Sound (at g.manager.dispose s true) g v i) there

pub sends_encoder-Sound :
    (e : ℕ) (persist : Bool) (s : ℕ) (g : System)
    → Sound g
    → (persist ≡ true) ⊎ (g.manager.addresses s ≡ none)
    → Sound (
        does (send_encoder e persist s g.manager).1 (
          hands e
            (here_only (g.manager.sockets s) s)
            (record g { manager = (send_encoder e persist s g.manager).0 })))
unfolding send_encoder
sends_encoder-Sound e persist s g v p = elim (Bool-cases (g.manager.sockets s)) [
  | inl there ↦
      rw there (sends-Sound e persist s g v (elim p [ inl q ↦ inl q | inr q ↦ inr (inl q) ]) there)
  | inr gone ↦ rw gone v
]

-- A message to an address, by its persistent socket, by its temporary one, or by a new one.
makes_temporary-Sound :
    (e x s : ℕ) (g : System)
    → Sound g
    → g.manager.temps x ≡ none
    → Fresh g (some s)
    → Sound (
        does (send_temporary e x (some s) g.manager).1 (
          hands e
            (some s)
            (opens (some s) [] (record g { manager = (send_temporary e x (some s) g.manager).0 }))))
makes_temporary-Sound e x s g v n f =
    let (gone, l) = f s refl in
    let i = Added.adds_temporary-Inv e x s g.manager v.inv gone n in
    rw gone (
      changes_one s g _ v (rw gone at i) v.whole (λ t h. ground (arith, h))
        (record {
          one_loop = λ h. ground (arith, l);
          in_order = λ h. ground (arith);
          at_most_one = ground (arith, l);
        }))

pub messages-Sound :
    (e x : ℕ) (created : Option ℕ) (g : System)
    → Sound g
    → Fresh g created
    → Sound (
        does (send_message e x created g.manager).1 (
          hands e (target x created g.manager) (
            opens
              (made_for x created g.manager)
              []
              (record g { manager = (send_message e x created g.manager).0 }))))
unfolding send_message
messages-Sound e x created g v f = elim (Option-cases (g.manager.persists x)) [
  | inr (s, p) ↦
      let there = Sockets.live_of_address s x g.manager v.inv (v.inv.persist_of x s p).0 in
      rw (p, there) (sends-Sound e true s g v (inl refl) there)
  | inl p ↦ elim (Option-cases (g.manager.temps x)) [
    | inr (s, q) ↦
        let (a, d) = v.inv.temp_of x s q in
        let there = Sockets.live_of_address s x g.manager v.inv a in
        rw (p, q, there) (sends-Sound e false s g v (inr (inr d)) there)
    | inl q ↦ elim (Option-cases created) [
      | inl c ↦ rw (p, q, c) v
      | inr (s, c) ↦ rw (p, q, c) (makes_temporary-Sound e x s g v q (rw c at f))
    ]
  ]
]
