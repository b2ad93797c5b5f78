-- ===== src/SocketManager/Sending/Advance.antt =====
-- src/process.cpp: the loop that sends on a socket goes on (`SocketManager::next`), and `close`.
use libprocess.Common.{
  ℕ, suc, ◌≡◌, refl, inl, inr, at, true, false, Option, none, some, List, [], ◌∷◌, append_assoc,
  arith, ◌==◌, ==_iff, Bool-cases, Option-cases,
}
use libprocess.SocketManager.{
  SocketManager, Next, forget_temporary, dispose_of, terminate_proxy, next, close,
}
use libprocess.SocketManager.Sockets
use libprocess.SocketManager.Sockets.Removed
use libprocess.SocketManager.System.{System, does}
use libprocess.SocketManager.Sending.{Sound, changes_one}

-- `next`, by a loop: there is more to send, ...
sends_next-Sound :
    (s n e : ℕ) (es : List ℕ) (g : System)
    → Sound g
    → g.manager.sockets s ≡ true
    → g.loops s ≡ suc n
    → g.manager.outgoing s ≡ some (e ∷ es)
    → Sound (
        does (Next.sends s e) (record g {
          manager = record g.manager { outgoing = at g.manager.outgoing s (some es) };
          loops = at g.loops s n;
        }))
sends_next-Sound s n e es g v there l o =
    let moved = append_assoc (g.started s) (e ∷ []) es in
    let in_order = (v.sent s).in_order there in
    changes_one s g _ v (Sockets.sets_outgoing-Inv s es g.manager v.inv there) v.whole
      (λ t h. ground (arith, h))
      (record {
        one_loop = λ h. ground (arith, l, o, there, (v.sent s).one_loop);
        in_order = λ h. ground (arith, o, moved, in_order);
        at_most_one = ground (arith, l, (v.sent s).at_most_one);
      })

-- ... or the socket is idle, ...
stops-Sound :
    (s n : ℕ) (g : System)
    → Sound g
    → g.manager.sockets s ≡ true
    → g.loops s ≡ suc n
    → g.manager.outgoing s ≡ some []
    → Sound (record g {
      manager = record g.manager { outgoing = at g.manager.outgoing s none };
      loops = at g.loops s n;
    })
stops-Sound s n g v there l o =
    let in_order = (v.sent s).in_order there in
    changes_one s g _ v (Sockets.clears_outgoing-Inv s g.manager v.inv) v.whole
      (λ t h. ground (arith, h))
      (record {
        one_loop = λ h. ground (arith, l, o, there, (v.sent s).one_loop);
        in_order = λ h. ground (arith, o, in_order);
        at_most_one = ground (arith, l, (v.sent s).at_most_one);
      })

does-terminate_proxy : (p : Option ℕ) (g : System) → does (terminate_proxy p) g ≡ g
does-terminate_proxy none g = refl
does-terminate_proxy (some p) g = refl

-- ... or it is let go, ...
pub lets_go-Sound :
    (s n : ℕ) (m : SocketManager) (g : System)
    → Sound g
    → g.loops s ≡ suc n
    → Sockets.Inv m
    → m.sockets s ≡ false
    → ((t : ℕ)
        → (t == s) ≡ false
        → (m.sockets t ≡ g.manager.sockets t) × (m.outgoing t ≡ g.manager.outgoing t))
    → Sound (record g { manager = m; loops = at g.loops s n })
lets_go-Sound s n m g v l i gone same =
    changes_one s g _ v i v.whole (λ t h. ground (arith, h, same t h))
      (record {
        one_loop = λ h. absurd (cc);
        in_order = λ h. absurd (cc);
        at_most_one = ground (arith, l, (v.sent s).at_most_one);
      })

temporary_of :
    (s x : ℕ) (m : SocketManager)
    → Sockets.Inv m
    → m.dispose s ≡ true
    → m.addresses s ≡ some x
    → m.temps x ≡ some s
temporary_of s x m v d a = ground (arith, d, a, v.address_of s x, v.persist_of x s)

disposes-Sound :
    (s n : ℕ) (g : System)
    → Sound g
    → g.manager.sockets s ≡ true
    → g.loops s ≡ suc n
    → g.manager.dispose s ≡ true
    → let idle = record g.manager { outgoing = at g.manager.outgoing s none } in
      let after = dispose_of s (forget_temporary (g.manager.addresses s) s idle) idle in
      Sound (does after.1 (record g { manager = after.0; loops = at g.loops s n }))
disposes-Sound s n g v there l d = elim (Option-cases (g.manager.addresses s)) [
  | inl a ↦
      rw (a, does-terminate_proxy (g.manager.proxies s))
        (lets_go-Sound s n _ g v l (Removed.drops_inbound-Inv s g.manager v.inv a) (ground arith)
          (λ t h. ground (arith, h)))
  | inr (x, a) ↦
      let temp = temporary_of s x g.manager v.inv d a in
      rw (a, temp, (==_iff s s).1 refl, does-terminate_proxy (g.manager.proxies s))
        (lets_go-Sound s n _ g v l (Removed.drops_temporary-Inv s x g.manager v.inv there a temp)
          (ground arith) (λ t h. ground (arith, h)))
]

-- ... or it was closed.
pub next-Sound :
    (s n : ℕ) (g : System)
    → Sound g
    → g.loops s ≡ suc n
    → Sound (
        does
          (next s g.manager).1
          (record g { manager = (next s g.manager).0; loops = at g.loops s n }))
unfolding next
next-Sound s n g v l = elim (Bool-cases (g.manager.sockets s)) [
  | inl there ↦ elim (Option-cases (g.manager.outgoing s)) [
    | inl o ↦ absurd (ground (arith, l, o, there, (v.sent s).one_loop))
    | inr ([], o) ↦ elim (Bool-cases (g.manager.dispose s)) [
      | inl d ↦ rw (there, o, d) (disposes-Sound s n g v there l d)
      | inr d ↦ rw (there, o, d) (stops-Sound s n g v there l o)
    ]
    | inr (e ∷ es, o) ↦ rw (there, o) (sends_next-Sound s n e es g v there l o)
  ]
  | inr gone ↦ rw gone (lets_go-Sound s n g.manager g v l v.inv gone (λ t h. (refl, refl)))
]

pub closes-Sound :
    (s : ℕ) (g : System) → Sound g → Sound (record g { manager = (close s g.manager).0 })
unfolding close
closes-Sound s g v = elim (Bool-cases (g.manager.sockets s)) [
  | inl there ↦
      changes_one s g _ v (Removed.close-Inv s g.manager v.inv) v.whole
        (λ t h. ground (arith, h, there))
        (record {
          one_loop = λ h. ground (arith, h, there);
          in_order = λ h. ground (arith, h, there);
          at_most_one = (v.sent s).at_most_one;
        })
  | inr gone ↦ rw gone v
]
