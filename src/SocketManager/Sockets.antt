-- ===== src/SocketManager/Sockets.antt =====
-- src/process.cpp: how the maps of `SocketManager` belong together, and that every operation keeps
-- them so.
pub mod Added
pub mod Removed
use libprocess.Common.{
  ℕ, at, ◌≡◌, ◌≢◌, refl, ◌⊎◌, inl, inr, Bool, true, false, not, ◌&&◌, ◌||◌, Option, none, some,
  List, [], ◌∷◌, ◌++◌, arith, if◌then◌else◌, ◌==◌, ==_iff, Bool-cases, Option-cases,
}
use libprocess.SocketManager.{
  SocketManager, no_sockets, Next, accepted, send_encoder, queue_or_send, dispose_unless, send_on,
  send_temporary, send_by, send_message, forget_temporary, forget_socket, dispose_of, next_of, next,
  close_address, close, swap_address, move_address, swap_rest, swap_implementing_socket, link_by,
  link_socket, proxy, unproxy,
}

-- A temporary socket is to be disposed of, a persistent one is not, and a socket that has an address is
-- one of the two.
pub record Inv (m : SocketManager) : Type 0 where
  pub queued_live : (s : ℕ) → m.sockets s ≡ false → m.outgoing s ≡ none
  pub disposed_live : (s : ℕ) → m.sockets s ≡ false → m.dispose s ≡ false
  pub proxied_live : (s : ℕ) → m.sockets s ≡ false → m.proxies s ≡ none
  pub addressed_live : (s : ℕ) → m.sockets s ≡ false → m.addresses s ≡ none
  pub temp_of : (a s : ℕ) → m.temps a ≡ some s → (m.addresses s ≡ some a) × (m.dispose s ≡ true)
  pub persist_of :
      (a s : ℕ) → m.persists a ≡ some s → (m.addresses s ≡ some a) × (m.dispose s ≡ false)
  pub address_of :
      (s a : ℕ) → m.addresses s ≡ some a → (m.temps a ≡ some s) ⊎ (m.persists a ≡ some s)

pub no_sockets-Inv : Inv no_sockets
no_sockets-Inv = record {
  queued_live = λ s h. refl;
  disposed_live = λ s h. refl;
  proxied_live = λ s h. refl;
  addressed_live = λ s h. refl;
  temp_of = λ a s h. absurd (cc);
  persist_of = λ a s h. absurd (cc);
  address_of = λ s a h. absurd (cc);
}

pub adds_inbound-Inv :
    (s : ℕ) (m : SocketManager) → Inv m → Inv (record m { sockets = at m.sockets s true })
adds_inbound-Inv s m v = record {
  queued_live = λ t h. ground (arith, h, v.queued_live t);
  disposed_live = λ t h. ground (arith, h, v.disposed_live t);
  proxied_live = λ t h. ground (arith, h, v.proxied_live t);
  addressed_live = λ t h. ground (arith, h, v.addressed_live t);
  temp_of = v.temp_of;
  persist_of = v.persist_of;
  address_of = v.address_of;
}

pub live_of_address :
    (s x : ℕ) (m : SocketManager) → Inv m → m.addresses s ≡ some x → m.sockets s ≡ true
live_of_address s x m v e = ground (arith, e, v.addressed_live s)

pub sets_outgoing-Inv :
    (s : ℕ) (es : List ℕ) (m : SocketManager)
    → Inv m
    → m.sockets s ≡ true
    → Inv (record m { outgoing = at m.outgoing s (some es) })
sets_outgoing-Inv s es m v l = record {
  queued_live = λ t h. ground (arith, h, v.queued_live t, l);
  disposed_live = v.disposed_live;
  proxied_live = v.proxied_live;
  addressed_live = v.addressed_live;
  temp_of = v.temp_of;
  persist_of = v.persist_of;
  address_of = v.address_of;
}

pub clears_outgoing-Inv :
    (s : ℕ) (m : SocketManager) → Inv m → Inv (record m { outgoing = at m.outgoing s none })
clears_outgoing-Inv s m v = record {
  queued_live = λ t h. ground (arith, h, v.queued_live t);
  disposed_live = v.disposed_live;
  proxied_live = v.proxied_live;
  addressed_live = v.addressed_live;
  temp_of = v.temp_of;
  persist_of = v.persist_of;
  address_of = v.address_of;
}

-- Data is queued, or starts to be sent, on a socket that is there.
pub queue_or_send-Inv :
    (e s : ℕ) (m : SocketManager)
    → Inv m
    → m.sockets s ≡ true
    → Inv (queue_or_send e s (m.outgoing s) m).0
queue_or_send-Inv e s m v l = elim (Option-cases (m.outgoing s)) [
  | inl o ↦ rw o (sets_outgoing-Inv s [] m v l)
  | inr (es, o) ↦ rw o (sets_outgoing-Inv s (es ++ e ∷ []) m v l)
]

pub disposes-Inv :
    (s : ℕ) (m : SocketManager)
    → Inv m
    → m.sockets s ≡ true
    → (m.addresses s ≡ none) ⊎ (m.dispose s ≡ true)
    → Inv (record m { dispose = at m.dispose s true })
disposes-Inv s m v l (inl n) = record {
  queued_live = λ t h. ground (arith, h, v.queued_live t, l, n);
  disposed_live = λ t h. ground (arith, h, v.disposed_live t, l, n);
  proxied_live = λ t h. ground (arith, h, v.proxied_live t, l, n);
  addressed_live = λ t h. ground (arith, h, v.addressed_live t, l, n);
  temp_of = λ a t h. ground (arith, h, v.temp_of a t, l, n);
  persist_of = λ a t h. ground (arith, h, v.persist_of a t, l, n);
  address_of = λ t a h. ground (arith, h, v.address_of t a, l, n);
}
disposes-Inv s m v l (inr n) = record {
  queued_live = λ t h. ground (arith, h, v.queued_live t, l, n);
  disposed_live = λ t h. ground (arith, h, v.disposed_live t, l, n);
  proxied_live = λ t h. ground (arith, h, v.proxied_live t, l, n);
  addressed_live = λ t h. ground (arith, h, v.addressed_live t, l, n);
  temp_of = λ a t h. ground (arith, h, v.temp_of a t, l, n);
  persist_of = λ a t h. ground (arith, h, v.persist_of a t, l, n);
  address_of = λ t a h. ground (arith, h, v.address_of t a, l, n);
}

pub proxies-Inv :
    (s : ℕ) (p : Option ℕ) (m : SocketManager)
    → Inv m
    → (m.sockets s ≡ true) ⊎ (p ≡ none)
    → Inv (record m { proxies = at m.proxies s p })
proxies-Inv s p m v l = record {
  queued_live = v.queued_live;
  disposed_live = v.disposed_live;
  proxied_live = λ t h. ground (arith, h, v.proxied_live t);
  addressed_live = v.addressed_live;
  temp_of = v.temp_of;
  persist_of = v.persist_of;
  address_of = v.address_of;
}
