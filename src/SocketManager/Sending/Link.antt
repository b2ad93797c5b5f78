-- ===== src/SocketManager/Sending/Link.antt =====
-- src/process.cpp: `SocketManager::accepted`, `link`, `link_connect`, `proxy` and `unproxy`.
use libprocess.Common.{
  ℕ, suc, at, ◌≡◌, ◌≤◌, refl, inl, inr, Bool, true, false, Option, none, some, [], arith, ◌==◌,
  Bool-cases, Option-cases,
}
use libprocess.SocketManager.{
  Next, accepted, queue_of, move_address, swap_rest, link_by, link_socket, close, downgrade_link,
  proxy, unproxy,
}
use libprocess.SocketManager.Sockets
use libprocess.SocketManager.Sockets.Added
use libprocess.SocketManager.Sockets.Removed
use libprocess.SocketManager.System.{System, does, opens, Fresh, linked, taken_over, queue_at}
use libprocess.SocketManager.Sending.{Sound, changes_one}
use libprocess.SocketManager.Sending.Advance.{lets_go-Sound}

pub accepts-Sound :
    (s : ℕ) (g : System)
    → Sound g
    → Fresh g (some s)
    → Sound (
        does
          (accepted s g.manager).1
          (opens (some s) [] (record g { manager = (accepted s g.manager).0 })))
unfolding accepted
accepts-Sound s g v f =
    let (n, l) = f s refl in
    let q = v.inv.queued_live s n in
    rw n (
      changes_one s g _ v (Sockets.adds_inbound-Inv s g.manager v.inv) v.whole
        (λ t h. ground (arith, h))
        (record {
          one_loop = λ h. ground (arith, l, q);
          in_order = λ h. ground (arith, q);
          at_most_one = ground (arith, l);
        }))

-- A new persistent socket, or one that takes over from another.
makes_persistent-Sound :
    (x s : ℕ) (reconnect : Bool) (g : System)
    → Sound g
    → g.manager.persists x ≡ none
    → Fresh g (some s)
    → Sound (
        does (link_by x reconnect none (some s) g.manager).1 (
          opens
            (some s)
            []
            (record g { manager = (link_by x reconnect none (some s) g.manager).0 })))
makes_persistent-Sound x s reconnect g v n f =
    let (gone, l) = f s refl in
    let i = Added.adds_persistent-Inv x s g.manager v.inv gone n in
    rw gone (
      changes_one s g _ v (rw gone at i) v.whole (λ t h. ground (arith, h))
        (record {
          one_loop = λ h. ground (arith, l);
          in_order = λ h. ground (arith);
          at_most_one = ground (arith, l);
        }))

takes_over-Sound :
    (x from to : ℕ) (loops : ℕ → ℕ) (g : System)
    → Sound g
    → ((t : ℕ) → (t == from) ≡ false → loops t ≡ g.loops t)
    → loops from ≤ 1
    → g.manager.sockets from ≡ true
    → g.manager.addresses from ≡ some x
    → Fresh g (some to)
    → Sound (
        does (Next.connects to none) (
          opens (some to) (queue_of (g.manager.outgoing from)) (record g {
            manager = move_address x from to (swap_rest from to g.manager);
            loops = loops;
          })))
takes_over-Sound x from to loops g v same most there a f =
    let (gone, l) = f to refl in
    record {
      inv = Added.swaps-Inv from to x g.manager v.inv there gone a;
      whole = v.whole;
      sent = λ t. record {
        one_loop = λ h. ground (arith, l, gone, there, h, same t, same to, (v.sent t).one_loop);
        in_order = λ h. ground (arith, l, gone, there, h, (v.sent t).in_order);
        at_most_one = ground (arith, l, gone, there, most, same t, same to, (v.sent t).at_most_one);
      };
    }

pub links-Sound :
    (x : ℕ) (reconnect : Bool) (created : Option ℕ) (g : System)
    → Sound g
    → Fresh g created
    → Sound (
        does (link_socket x reconnect created g.manager).1 (
          opens
            (linked reconnect (g.manager.persists x) created)
            (queue_at (g.manager.persists x) g.manager)
            (record g { manager = (link_socket x reconnect created g.manager).0 })))
unfolding link_socket
links-Sound x reconnect created g v f = elim (Option-cases (g.manager.persists x)) [
  | inl p ↦ elim (Option-cases created) [
    | inl c ↦ rw (p, c) v
    | inr (s, c) ↦ rw (p, c) (makes_persistent-Sound x s reconnect g v p (rw c at f))
  ]
  | inr (old, p) ↦ elim (Bool-cases reconnect) [
    | inr r ↦ rw (p, r) v
    | inl r ↦ elim (Option-cases created) [
      | inl c ↦ rw (p, r, c) v
      | inr (s, c) ↦
          let a = (v.inv.persist_of x old p).0 in
          let there = Sockets.live_of_address old x g.manager v.inv a in
          let gone = (f s c).0 in
          rw (p, r, c, there, gone, a)
            (takes_over-Sound x old s g.loops g v (λ t h. refl) (v.sent old).at_most_one there a
              (rw c at f))
    ]
  ]
]

pub downgrades-Sound :
    (s n : ℕ) (created : Option ℕ) (g : System)
    → Sound g
    → g.loops s ≡ suc n
    → Fresh g created
    → (g.manager.sockets s ≡ true → (address : ℕ) × (g.manager.addresses s ≡ some address))
    → Sound (
        does (downgrade_link s created g.manager).1 (
          opens
            (taken_over (g.manager.sockets s) created)
            (queue_of (g.manager.outgoing s))
            (record g {
              manager = (downgrade_link s created g.manager).0;
              loops = at g.loops s n;
            })))
unfolding downgrade_link close
downgrades-Sound s n created g v l f addressed = elim (Bool-cases (g.manager.sockets s)) [
  | inr gone ↦ rw gone (lets_go-Sound s n g.manager g v l v.inv gone (λ t h. (refl, refl)))
  | inl there ↦ elim (Option-cases created) [
    | inl c ↦
        rw (there, c)
          (lets_go-Sound s n (close s g.manager).0 g v l (Removed.close-Inv s g.manager v.inv)
            (ground (arith, there)) (λ t h. ground (arith, h, there)))
    | inr (to, c) ↦
        let (x, a) = addressed there in
        let gone = (f to c).0 in
        rw (c, there, gone, a)
          (takes_over-Sound x s to (at g.loops s n) g v (λ t h. ground (arith, h))
            (ground (arith, l, (v.sent s).at_most_one)) there a (rw c at f))
  ]
]

pub proxies-Sound :
    (s made : ℕ) (g : System) → Sound g → Sound (record g { manager = (proxy s made g.manager).0 })
unfolding proxy
proxies-Sound s made g v = elim (Bool-cases (g.manager.sockets s)) [
  | inr gone ↦ rw gone v
  | inl there ↦ elim (Option-cases (g.manager.proxies s)) [
    | inr (p, e) ↦ rw (there, e) v
    | inl e ↦
        rw (there, e)
          (record {
            inv = Sockets.proxies-Inv s (some made) g.manager v.inv (inl there);
            whole = v.whole;
            sent = v.sent;
          })
  ]
]

pub unproxies-Sound :
    (s : ℕ) (g : System) → Sound g → Sound (record g { manager = unproxy s g.manager })
unfolding unproxy
unproxies-Sound s g v = record {
  inv = Sockets.proxies-Inv s none g.manager v.inv (inr refl);
  whole = v.whole;
  sent = v.sent;
}
