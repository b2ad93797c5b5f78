-- ===== src/SocketManager/Sending.antt =====
-- src/process.cpp: the loops that send on the sockets of `SocketManager`.
pub mod Advance
pub mod Send
pub mod Link
pub mod History
use libprocess.Common.{
  ℕ, suc, ◌+◌, ◌≡◌, ◌≢◌, ◌≤◌, refl, sym, ◌∙◌, ◌⊎◌, inl, inr, at, Bool, true, false, Option, none,
  some, List, [], ◌∷◌, ◌++◌, append_assoc, append-nil, arith, if◌then◌else◌, ◌==◌, ==_iff,
  Bool-cases, Option-cases,
}
use libprocess.SocketManager.{
  SocketManager, no_sockets, Next, accepted, send_encoder, queue_or_send, dispose_unless, send_on,
  send_temporary, send_by, send_message, forget_temporary, forget_socket, dispose_of,
  terminate_proxy, next_of, next, close_address, close, queue_of, swap_address, move_address,
  swap_rest, swap_implementing_socket, link_by, link_socket, proxy, unproxy,
}
use libprocess.SocketManager.Sockets
use libprocess.SocketManager.System.{
  System, start, begins, list_of, does, hands, opens, Fresh, here_only, target, made_for, linked,
  queue_at, Step, accepts, sends, messages, continues, closes, links, proxies, unproxies, Reach,
  here, follows,
}

abbrev pub loops_for : Option (List ℕ) → ℕ
loops_for none = 0
loops_for (some es) = 1

-- What holds of one socket.
pub record Sent (there : Bool) (queue : Option (List ℕ)) (loops : ℕ) (handed started : List ℕ)
    : Type 0 where
  pub one_loop : there ≡ true → loops ≡ loops_for queue
  pub in_order : there ≡ true → started ++ queue_of queue ≡ handed
  pub at_most_one : loops ≤ 1

pub record Sound (g : System) : Type 0 where
  pub inv : Sockets.Inv g.manager
  pub sent :
      (s : ℕ)
      → Sent (g.manager.sockets s) (g.manager.outgoing s) (g.loops s) (g.handed s) (g.started s)
  pub whole : g.aborted ≡ false

pub start-Sound : Sound start
start-Sound = record {
  inv = Sockets.no_sockets-Inv;
  sent = λ s. record {
    one_loop = λ h. absurd (cc);
    in_order = λ h. absurd (cc);
    at_most_one = omega arith;
  };
  whole = refl;
}

-- A state in which only one socket has changed.
abbrev pub Same : System → System → ℕ → Type 0
Same g h t =
    (h.manager.sockets t ≡ g.manager.sockets t)
    × (h.manager.outgoing t ≡ g.manager.outgoing t)
    × (h.loops t ≡ g.loops t)
    × (h.handed t ≡ g.handed t)
    × (h.started t ≡ g.started t)

pub changes_one :
    (s : ℕ) (g h : System)
    → Sound g
    → Sockets.Inv h.manager
    → h.aborted ≡ false
    → ((t : ℕ) → (t == s) ≡ false → Same g h t)
    → Sent (h.manager.sockets s) (h.manager.outgoing s) (h.loops s) (h.handed s) (h.started s)
    → Sound h
changes_one s g h v i w same one = record {
  inv = i;
  whole = w;
  sent = λ t. elim (Bool-cases (t == s)) [
    | inl e ↦ rw ((==_iff t s).0 e) one
    | inr e ↦ let (a, b, c, d, f) = same t e in rw (a, b, c, d, f) (v.sent t)
  ];
}
