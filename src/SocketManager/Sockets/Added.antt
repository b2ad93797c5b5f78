-- ===== src/SocketManager/Sockets/Added.antt =====
-- src/process.cpp: sockets that `SocketManager` adds, or puts in the place of others.
use libprocess.Common.{ℕ, ◌≡◌, true, false, none, some, arith}
use libprocess.SocketManager.{SocketManager, send_temporary, move_address, swap_rest, link_by}
use libprocess.SocketManager.Sockets.{Inv}

-- A new socket for an address that has none of its kind.
pub adds_temporary-Inv :
    (e x s : ℕ) (m : SocketManager)
    → Inv m
    → m.sockets s ≡ false
    → m.temps x ≡ none
    → Inv (send_temporary e x (some s) m).0
adds_temporary-Inv e x s m v f n = record {
  queued_live = λ t h. ground (arith, h, v.queued_live t, f, n);
  disposed_live = λ t h. ground (arith, h, v.disposed_live t, f, n);
  proxied_live = λ t h. ground (arith, h, v.proxied_live t, f, n);
  addressed_live = λ t h. ground (arith, h, v.addressed_live t, f, n);
  temp_of = λ a t h. ground (arith, h, v.temp_of a t, v.addressed_live s, v.temp_of a s, f, n);
  persist_of =
      λ a t h. ground (arith, h, v.persist_of a t, v.addressed_live s, v.persist_of a s, f, n);
  address_of = λ t a h. ground (arith, h, v.address_of t a, v.addressed_live s, f, n);
}

pub adds_persistent-Inv :
    (x s : ℕ) (m : SocketManager)
    → Inv m
    → m.sockets s ≡ false
    → m.persists x ≡ none
    → Inv (link_by x false none (some s) m).0
adds_persistent-Inv x s m v f n = record {
  queued_live = λ t h. ground (arith, h, v.queued_live t, f, n);
  disposed_live = λ t h. ground (arith, h, v.disposed_live t, f, n);
  proxied_live = λ t h. ground (arith, h, v.proxied_live t, f, n);
  addressed_live = λ t h. ground (arith, h, v.addressed_live t, f, n);
  temp_of = λ a t h. ground (arith, h, v.temp_of a t, v.addressed_live s, v.temp_of a s, f, n);
  persist_of = λ a t h.
      ground
        (arith, h, v.persist_of a t, v.addressed_live s, v.disposed_live s, v.persist_of a s, f, n);
  address_of = λ t a h. ground (arith, h, v.address_of t a, v.addressed_live s, f, n);
}

pub swaps-Inv :
    (from to x : ℕ) (m : SocketManager)
    → Inv m
    → m.sockets from ≡ true
    → m.sockets to ≡ false
    → m.addresses from ≡ some x
    → Inv (move_address x from to (swap_rest from to m))
swaps-Inv from to x m v l f e = record {
  queued_live = λ t h. ground (arith, h, v.queued_live t, l, f, e);
  disposed_live = λ t h. ground (arith, h, v.disposed_live t, l, f, e);
  proxied_live = λ t h. ground (arith, h, v.proxied_live t, l, f, e);
  addressed_live = λ t h. ground (arith, h, v.addressed_live t, l, f, e);
  temp_of = λ a t h. ground (
    arith,
    h,
    v.temp_of a t,
    v.temp_of x from,
    v.persist_of x from,
    v.addressed_live to,
    v.address_of from x,
    l,
    f,
    e,
  );
  persist_of = λ a t h. ground (
    arith,
    h,
    v.persist_of a t,
    v.temp_of x from,
    v.persist_of x from,
    v.addressed_live to,
    v.disposed_live to,
    v.address_of from x,
    l,
    f,
    e,
  );
  address_of = λ t a h. ground (
    arith,
    h,
    v.address_of t a,
    v.temp_of x from,
    v.persist_of x from,
    v.temp_of x t,
    v.persist_of x t,
    v.addressed_live to,
    v.address_of from x,
    l,
    f,
    e,
  );
}
