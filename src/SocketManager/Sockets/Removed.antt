-- ===== src/SocketManager/Sockets/Removed.antt =====
-- src/process.cpp: sockets that `SocketManager` closes or lets go.
use libprocess.Common.{ℕ, at, ◌≡◌, inl, inr, true, none, some, arith, Option-cases}
use libprocess.SocketManager.{SocketManager, forget_socket, close}
use libprocess.SocketManager.Sockets.{Inv, live_of_address}

-- What `close` leaves of an address: one address for every socket but this one.
addressed_close-Inv :
    (s x : ℕ) (m : SocketManager)
    → Inv m
    → m.addresses s ≡ some x
    → m.sockets s ≡ true
    → Inv (close s m).0
unfolding close
addressed_close-Inv s x m v e l = record {
  queued_live = λ t h. ground (arith, h, v.queued_live t, e, l);
  disposed_live = λ t h. ground (arith, h, v.disposed_live t, e, l);
  proxied_live = λ t h. ground (arith, h, v.proxied_live t, e, l);
  addressed_live = λ t h. ground (arith, h, v.addressed_live t, e, l);
  temp_of = λ a t h. ground (arith, h, v.temp_of a t, v.persist_of x s, e, l);
  persist_of = λ a t h. ground (arith, h, v.persist_of a t, v.temp_of x s, e, l);
  address_of = λ t a h. ground (arith, h, v.address_of t a, v.temp_of x t, v.persist_of x t, e, l);
}

inbound_close-Inv : (s : ℕ) (m : SocketManager) → Inv m → m.addresses s ≡ none → Inv (close s m).0
unfolding close
inbound_close-Inv s m v e = record {
  queued_live = λ t h. ground (arith, h, v.queued_live t, e);
  disposed_live = λ t h. ground (arith, h, v.disposed_live t, e);
  proxied_live = λ t h. ground (arith, h, v.proxied_live t, e);
  addressed_live = λ t h. ground (arith, h, v.addressed_live t, e);
  temp_of = λ a t h. ground (arith, h, v.temp_of a t, e);
  persist_of = λ a t h. ground (arith, h, v.persist_of a t, e);
  address_of = λ t a h. ground (arith, h, v.address_of t a, v.temp_of a t, v.persist_of a t, e);
}

pub close-Inv : (s : ℕ) (m : SocketManager) → Inv m → Inv (close s m).0
close-Inv s m v = elim (Option-cases (m.addresses s)) [
  | inl e ↦ inbound_close-Inv s m v e
  | inr (x, e) ↦ addressed_close-Inv s x m v e (live_of_address s x m v e)
]

-- The temporary socket that `next` lets go.
pub drops_temporary-Inv :
    (s x : ℕ) (m : SocketManager)
    → Inv m
    → m.sockets s ≡ true
    → m.addresses s ≡ some x
    → m.temps x ≡ some s
    → Inv (
        forget_socket s (record m {
          outgoing = at m.outgoing s none;
          temps = at m.temps x none;
          addresses = at m.addresses s none;
        }))
drops_temporary-Inv s x m v l e n = record {
  queued_live = λ t h. ground (arith, h, v.queued_live t);
  disposed_live = λ t h. ground (arith, h, v.disposed_live t);
  proxied_live = λ t h. ground (arith, h, v.proxied_live t);
  addressed_live = λ t h. ground (arith, h, v.addressed_live t);
  temp_of = λ a t h. ground (arith, h, v.temp_of a t, e);
  persist_of = λ a t h. ground (arith, h, v.persist_of a t, v.temp_of x s, n, e);
  address_of = λ t a h. ground (arith, h, v.address_of t a, v.temp_of x t, v.persist_of x t, e);
}

pub drops_inbound-Inv :
    (s : ℕ) (m : SocketManager)
    → Inv m
    → m.addresses s ≡ none
    → Inv (forget_socket s (record m { outgoing = at m.outgoing s none }))
drops_inbound-Inv s m v e = record {
  queued_live = λ t h. ground (arith, h, v.queued_live t);
  disposed_live = λ t h. ground (arith, h, v.disposed_live t);
  proxied_live = λ t h. ground (arith, h, v.proxied_live t);
  addressed_live = λ t h. ground (arith, h, v.addressed_live t);
  temp_of = λ a t h. ground (arith, h, v.temp_of a t, e);
  persist_of = λ a t h. ground (arith, h, v.persist_of a t, e);
  address_of = λ t a h. ground (arith, h, v.address_of t a, e);
}
