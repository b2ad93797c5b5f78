-- ===== src/SocketManager.antt =====
-- src/process.cpp and src/socket_manager.hpp: the sockets of `SocketManager`, with what waits to be
-- sent on each. A socket, an address, an encoder and a proxy are numbers; maps are functions. Each
-- function is one critical section, and says what its caller does next. A socket that
-- `Socket::create` makes is an argument, none where it fails.
pub mod Sockets
pub mod Links
pub mod System
pub mod Sending
mod Tests
use libprocess.Common.{
  ℕ, at, Bool, true, false, not, ◌&&◌, ◌||◌, Option, none, some, List, [], ◌∷◌, ◌++◌, if◌then◌else◌,
  ◌==◌,
}

pub record SocketManager : Type 0 where
  pub sockets : ℕ → Bool
  pub dispose : ℕ → Bool
  pub addresses : ℕ → Option ℕ
  pub temps : ℕ → Option ℕ
  pub persists : ℕ → Option ℕ
  pub outgoing : ℕ → Option (List ℕ)
  pub proxies : ℕ → Option ℕ

abbrev pub no_sockets : SocketManager
no_sockets = record {
  sockets = λ s. false;
  dispose = λ s. false;
  addresses = λ s. none;
  temps = λ a. none;
  persists = λ a. none;
  outgoing = λ s. none;
  proxies = λ s. none;
}

-- What is left to do after a critical section: nothing, to send an encoder, to connect a socket (and
-- then to send the encoder, if there is one), to terminate a proxy, or to abort on a failed CHECK.
pub data Next : Type 0 where
  nothing aborts fails_to_create : Next
  sends : (socket encoder : ℕ) → Next
  connects : (socket : ℕ) → Option ℕ → Next
  terminates : (proxy : ℕ) → Next

-- `SocketManager::accepted`
unfoldable pub accepted : ℕ → SocketManager → SocketManager × Next
accepted s m =
    if m.sockets s
    then (m, Next.aborts)
    else (record m { sockets = at m.sockets s true }, Next.nothing)

-- The sending part that both versions of `send` share, for a socket that is there.
abbrev pub queue_or_send : ℕ → ℕ → Option (List ℕ) → SocketManager → SocketManager × Next
queue_or_send e s (some es) m =
    (record m { outgoing = at m.outgoing s (some (es ++ e ∷ [])) }, Next.nothing)
queue_or_send e s none m = (record m { outgoing = at m.outgoing s (some []) }, Next.sends s e)

abbrev pub dispose_unless : Bool → ℕ → SocketManager → SocketManager
dispose_unless persist s m = if persist then m else record m { dispose = at m.dispose s true }

-- `SocketManager::send` of an encoder on a socket.
unfoldable pub send_encoder : ℕ → Bool → ℕ → SocketManager → SocketManager × Next
send_encoder e persist s m =
    if m.sockets s
    then queue_or_send e s (m.outgoing s) (dispose_unless persist s m)
    else (m, Next.nothing)

abbrev pub send_on : ℕ → Bool → ℕ → SocketManager → SocketManager × Next
send_on e persist s m =
    if m.sockets s
    then queue_or_send e s (m.outgoing s) (dispose_unless persist s m)
    else (m, Next.aborts)

abbrev pub send_temporary : ℕ → ℕ → Option ℕ → SocketManager → SocketManager × Next
send_temporary e address none m = (m, Next.fails_to_create)
send_temporary e address (some s) m = if m.sockets s then (m, Next.aborts) else (
  record m {
    sockets = at m.sockets s true;
    addresses = at m.addresses s (some address);
    temps = at m.temps address (some s);
    dispose = at m.dispose s true;
    outgoing = at m.outgoing s (some []);
  },
  Next.connects s (some e),
)

abbrev pub send_by : ℕ → ℕ → Option ℕ → Option ℕ → Option ℕ → SocketManager → SocketManager × Next
send_by e address (some s) temp created m = send_on e true s m
send_by e address none (some s) created m = send_on e false s m
send_by e address none none created m = send_temporary e address created m

-- `SocketManager::send` of a message to an address.
unfoldable pub send_message : ℕ → ℕ → Option ℕ → SocketManager → SocketManager × Next
send_message e address created m =
    send_by e address (m.persists address) (m.temps address) created m

-- `SocketManager::next`, where no more data is queued and the socket is to be disposed of.
abbrev pub has_socket : Option ℕ → ℕ → Bool
has_socket none s = false
has_socket (some t) s = t == s

abbrev pub forget_temporary : Option ℕ → ℕ → SocketManager → Option SocketManager
forget_temporary none s m = some m
forget_temporary (some address) s m =
    if has_socket (m.temps address) s
    then some (record m { temps = at m.temps address none; addresses = at m.addresses s none })
    else none

abbrev pub terminate_proxy : Option ℕ → Next
terminate_proxy none = Next.nothing
terminate_proxy (some p) = Next.terminates p

abbrev pub forget_socket : ℕ → SocketManager → SocketManager
forget_socket s m = record m {
  proxies = at m.proxies s none;
  dispose = at m.dispose s false;
  sockets = at m.sockets s false;
}

abbrev pub dispose_of : ℕ → Option SocketManager → SocketManager → SocketManager × Next
dispose_of s none m = (m, Next.aborts)
dispose_of s (some m') m = (forget_socket s m', terminate_proxy (m.proxies s))

abbrev pub next_of : ℕ → Option (List ℕ) → SocketManager → SocketManager × Next
next_of s none m = (m, Next.aborts)
next_of s (some (e ∷ es)) m = (record m { outgoing = at m.outgoing s (some es) }, Next.sends s e)
next_of s (some []) m =
    let idle = record m { outgoing = at m.outgoing s none } in
    if m.dispose s
    then dispose_of s (forget_temporary (m.addresses s) s idle) idle
    else (idle, Next.nothing)

unfoldable pub next : ℕ → SocketManager → SocketManager × Next
next s m = if m.sockets s then next_of s (m.outgoing s) m else (m, Next.nothing)

-- `SocketManager::close`: the address whose persistent socket is lost stands beside what is next.
abbrev pub close_address : Option ℕ → ℕ → SocketManager → SocketManager × Option ℕ
close_address none s m = (m, none)
close_address (some address) s m =
    let forgotten = record m { addresses = at m.addresses s none } in
    if has_socket (m.persists address) s
    then (record forgotten { persists = at m.persists address none }, some address)
    else if has_socket (m.temps address) s
    then (record forgotten { temps = at m.temps address none }, none)
    else (forgotten, none)

unfoldable pub close : ℕ → SocketManager → SocketManager × Option ℕ × Next
close s m =
    if m.sockets s
    then (let (m', lost) =
          close_address (m.addresses s) s (record m { outgoing = at m.outgoing s none }) in
        (forget_socket s m', lost, terminate_proxy (m.proxies s)))
    else (m, none, Next.nothing)

-- `SocketManager::swap_implementing_socket`; none where a CHECK fails.
abbrev pub move_address : ℕ → ℕ → ℕ → SocketManager → SocketManager
move_address address from to m = record m {
  addresses = at (at m.addresses to (some address)) from none;
  persists =
      if has_socket (m.persists address) from then at m.persists address (some to) else m.persists;
  temps =
      if not (has_socket (m.persists address) from) && has_socket (m.temps address) from
      then at m.temps address (some to)
      else m.temps;
}

abbrev pub swap_address : Option ℕ → ℕ → ℕ → SocketManager → Option SocketManager
swap_address none from to m = none
swap_address (some address) from to m = some (move_address address from to m)

abbrev pub queue_of : Option (List ℕ) → List ℕ
queue_of none = []
queue_of (some es) = es

abbrev pub swap_rest : ℕ → ℕ → SocketManager → SocketManager
swap_rest from to m = record m {
  sockets = at (at m.sockets from false) to true;
  dispose = if m.dispose from then at (at m.dispose to true) from false else m.dispose;
  outgoing = at (at m.outgoing to (some (queue_of (m.outgoing from)))) from none;
  proxies = elim (m.proxies from) [
    | none ↦ m.proxies
    | some p ↦ at (at m.proxies to (some p)) from none
  ];
}

unfoldable pub swap_implementing_socket : ℕ → ℕ → SocketManager → Option SocketManager
swap_implementing_socket from to m =
    if m.sockets from && not (m.sockets to)
    then swap_address (m.addresses from) from to (swap_rest from to m)
    else none

-- The socket part of `SocketManager::link` to a remote address.
abbrev pub connect_swapped : ℕ → Option SocketManager → SocketManager → SocketManager × Next
connect_swapped s none m = (m, Next.aborts)
connect_swapped s (some m') m = (m', Next.connects s none)

abbrev pub link_by : ℕ → Bool → Option ℕ → Option ℕ → SocketManager → SocketManager × Next
link_by address reconnect none none m = (m, Next.fails_to_create)
link_by address reconnect none (some s) m = if m.sockets s then (m, Next.aborts) else (
  record m {
    sockets = at m.sockets s true;
    addresses = at m.addresses s (some address);
    persists = at m.persists address (some s);
    outgoing = at m.outgoing s (some []);
  },
  Next.connects s none,
)
link_by address false (some old) created m = (m, Next.nothing)
link_by address true (some old) none m = (m, Next.fails_to_create)
link_by address true (some old) (some s) m = connect_swapped s (swap_implementing_socket old s m) m

unfoldable pub link_socket : ℕ → Bool → Option ℕ → SocketManager → SocketManager × Next
unfolding swap_implementing_socket
link_socket address reconnect created m = link_by address reconnect (m.persists address) created m

-- `SocketManager::link_connect` where the connection failed and may be made again without SSL.
unfoldable pub downgrade_to : ℕ → Option ℕ → SocketManager → SocketManager × Next
unfolding close swap_implementing_socket
downgrade_to s none m = ((close s m).0, Next.nothing)
downgrade_to s (some t) m = connect_swapped t (swap_implementing_socket s t m) m

unfoldable pub downgrade_link : ℕ → Option ℕ → SocketManager → SocketManager × Next
unfolding downgrade_to
downgrade_link s created m = if m.sockets s then downgrade_to s created m else (m, Next.nothing)

-- The critical section of `SocketManager::proxy`, for the proxy that it makes if there is none.
unfoldable pub proxy : ℕ → ℕ → SocketManager → SocketManager × Option ℕ
proxy s made m =
    if m.sockets s
    then elim (m.proxies s) [
      | some p ↦ (m, some p)
      | none ↦ (record m { proxies = at m.proxies s (some made) }, some made)
    ]
    else (m, none)

unfoldable pub unproxy : ℕ → SocketManager → SocketManager
unproxy s m = record m { proxies = at m.proxies s none }
