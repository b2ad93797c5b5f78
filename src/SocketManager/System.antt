-- ===== src/SocketManager/System.antt =====
-- src/process.cpp: histories of the sockets of `SocketManager`, with the loops that send on them.
use libprocess.Common.{
  ℕ, suc, ◌≡◌, ◌⊎◌, at, Bool, true, false, Option, none, some, List, [], ◌∷◌, ◌++◌,
}
use libprocess.SocketManager.{
  SocketManager, no_sockets, Next, accepted, send_encoder, send_message, next, close, queue_of,
  link_socket, downgrade_link, proxy, unproxy,
}

-- For every socket, `loops` are the loops that connect it or send on it, `handed` is what the socket
-- was handed to send since it is there, and `started` what a loop has started to send, in order.
pub record System : Type 0 where
  pub manager : SocketManager
  pub loops : ℕ → ℕ
  pub handed : ℕ → List ℕ
  pub started : ℕ → List ℕ
  pub aborted : Bool

abbrev pub start : System
start = record {
  manager = no_sockets;
  loops = λ s. 0;
  handed = λ s. [];
  started = λ s. [];
  aborted = false;
}

-- The caller does what is next.
abbrev pub begins : ℕ → List ℕ → System → System
begins s es g = record g {
  loops = at g.loops s (suc (g.loops s));
  started = at g.started s (g.started s ++ es);
}

abbrev pub list_of : Option ℕ → List ℕ
list_of none = []
list_of (some e) = e ∷ []

abbrev pub does : Next → System → System
does (Next.sends s e) g = begins s (e ∷ []) g
does (Next.connects s e) g = begins s (list_of e) g
does Next.aborts g = record g { aborted = true }
does _ g = g

-- An encoder is handed to a socket; a socket is new, with what it takes over.
abbrev pub hands : ℕ → Option ℕ → System → System
hands e none g = g
hands e (some s) g = record g { handed = at g.handed s (g.handed s ++ e ∷ []) }

abbrev pub opens : Option ℕ → List ℕ → System → System
opens none es g = g
opens (some s) es g = record g { handed = at g.handed s es; started = at g.started s [] }

abbrev pub first_of : Option ℕ → Option ℕ → Option ℕ
first_of (some s) t = some s
first_of none t = t

-- The socket that a message to an address goes to, and the one that is made for it.
abbrev pub target : ℕ → Option ℕ → SocketManager → Option ℕ
target address created m = first_of (first_of (m.persists address) (m.temps address)) created

abbrev pub unless_there : Option ℕ → Option ℕ → Option ℕ
unless_there none created = created
unless_there (some s) created = none

abbrev pub made_for : ℕ → Option ℕ → SocketManager → Option ℕ
made_for address created m = unless_there (first_of (m.persists address) (m.temps address)) created

-- What a socket that `link` makes takes over, and whether it makes one.
abbrev pub queue_at : Option ℕ → SocketManager → List ℕ
queue_at none m = []
queue_at (some s) m = queue_of (m.outgoing s)

abbrev pub linked : Bool → Option ℕ → Option ℕ → Option ℕ
linked reconnect none created = created
linked false (some s) created = none
linked true (some s) created = created

abbrev pub taken_over : Bool → Option ℕ → Option ℕ
taken_over true created = created
taken_over false created = none

abbrev pub here_only : Bool → ℕ → Option ℕ
here_only true s = some s
here_only false s = none

-- A socket that is made is not there, and nothing sends on what it replaces.
abbrev pub Fresh : System → Option ℕ → Type 0
Fresh g created = (s : ℕ) → created ≡ some s → (g.manager.sockets s ≡ false) × (g.loops s ≡ 0)

-- A socket that `send` may dispose of belongs to no address, and `next` is called by a loop. The loop of
-- a socket that `link` made may make it again without SSL: that socket has an address while it is
-- there.
pub data Step (g : System) : System → Type 0 where
  accepts :
      (s : ℕ)
      → Fresh g (some s)
      → Step g (
          does
            (accepted s g.manager).1
            (opens (some s) [] (record g { manager = (accepted s g.manager).0 })))
  sends :
      (e : ℕ) (persist : Bool) (s : ℕ)
      → (persist ≡ true) ⊎ (g.manager.addresses s ≡ none)
      → Step g (
          does (send_encoder e persist s g.manager).1 (
            hands e
              (here_only (g.manager.sockets s) s)
              (record g { manager = (send_encoder e persist s g.manager).0 })))
  messages :
      (e address : ℕ) (created : Option ℕ)
      → Fresh g created
      → Step g (
          does (send_message e address created g.manager).1 (
            hands e (target address created g.manager) (
              opens
                (made_for address created g.manager)
                []
                (record g { manager = (send_message e address created g.manager).0 }))))
  continues :
      (s : ℕ)
      → (n : ℕ) → g.loops s ≡ suc n
      → Step g (
          does
            (next s g.manager).1
            (record g { manager = (next s g.manager).0; loops = at g.loops s n }))
  closes : (s : ℕ) → Step g (record g { manager = (close s g.manager).0 })
  links :
      (address : ℕ) (reconnect : Bool) (created : Option ℕ)
      → Fresh g created
      → Step g (
          does (link_socket address reconnect created g.manager).1 (
            opens
              (linked reconnect (g.manager.persists address) created)
              (queue_at (g.manager.persists address) g.manager)
              (record g { manager = (link_socket address reconnect created g.manager).0 })))
  downgrades :
      (s n : ℕ) (created : Option ℕ)
      → g.loops s ≡ suc n
      → Fresh g created
      → (g.manager.sockets s ≡ true → (address : ℕ) × (g.manager.addresses s ≡ some address))
      → Step g (
          does (downgrade_link s created g.manager).1 (
            opens
              (taken_over (g.manager.sockets s) created)
              (queue_of (g.manager.outgoing s))
              (record g {
                manager = (downgrade_link s created g.manager).0;
                loops = at g.loops s n;
              })))
  proxies : (s made : ℕ) → Step g (record g { manager = (proxy s made g.manager).0 })
  unproxies : (s : ℕ) → Step g (record g { manager = unproxy s g.manager })

pub data Reach : System → Type 0 where
  here : Reach start
  follows : {g h : System} → Reach g → Step g h → Reach h
