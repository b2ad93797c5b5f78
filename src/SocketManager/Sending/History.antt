-- ===== src/SocketManager/Sending/History.antt =====
-- src/process.cpp: what holds in every history of the sockets of `SocketManager`.
use libprocess.Common.{ℕ, ◌≡◌, ◌≤◌, true, false, ◌++◌}
use libprocess.SocketManager.{queue_of}
use libprocess.SocketManager.Sockets
use libprocess.SocketManager.System.{
  System, Step, accepts, sends, messages, continues, closes, links, downgrades, proxies, unproxies,
  Reach, here, follows,
}
use libprocess.SocketManager.Sending.{loops_for, Sound, start-Sound}
use libprocess.SocketManager.Sending.Advance.{next-Sound, closes-Sound}
use libprocess.SocketManager.Sending.Send.{sends_encoder-Sound, messages-Sound}
use libprocess.SocketManager.Sending.Link.{
  accepts-Sound, links-Sound, downgrades-Sound, proxies-Sound, unproxies-Sound,
}

step-Sound : {g h : System} → Step g h → Sound g → Sound h
step-Sound {g = g} (accepts s f) v = accepts-Sound s g v f
step-Sound {g = g} (sends e persist s p) v = sends_encoder-Sound e persist s g v p
step-Sound {g = g} (messages e x created f) v = messages-Sound e x created g v f
step-Sound {g = g} (continues s n l) v = next-Sound s n g v l
step-Sound {g = g} (closes s) v = closes-Sound s g v
step-Sound {g = g} (links x reconnect created f) v = links-Sound x reconnect created g v f
step-Sound {g = g} (downgrades s n created l f a) v = downgrades-Sound s n created g v l f a
step-Sound {g = g} (proxies s made) v = proxies-Sound s made g v
step-Sound {g = g} (unproxies s) v = unproxies-Sound s g v

reach-Sound : {g : System} → Reach g → Sound g
reach-Sound here = start-Sound
reach-Sound (follows r s) = step-Sound s (reach-Sound r)

-- Given that a socket that is made is not in the maps, that a socket which `link_connect` downgrades is there with its address,
-- and that `send_connect` does not downgrade from SSL: in every history no CHECK of the functions that work on the maps has
-- failed, no socket has more than one loop that
-- connects it or sends on it, and a socket that is there has one exactly if it has an outgoing queue;
-- on it, what was started to send and then what is queued is what it was handed, in that order.
pub one_sender_in_order :
    (g : System)
    → Reach g
    → (g.aborted ≡ false)
      × ((s : ℕ)
          → (g.loops s ≤ 1)
            × (g.manager.sockets s ≡ true
                → (g.loops s ≡ loops_for (g.manager.outgoing s))
                  × (g.started s ++ queue_of (g.manager.outgoing s) ≡ g.handed s)))
one_sender_in_order g r =
    let v = reach-Sound r in
    (v.whole, λ s. ((v.sent s).at_most_one, λ h. ((v.sent s).one_loop h, (v.sent s).in_order h)))

-- In every history, the temporary socket of an address has that address and is to be disposed of, the
-- persistent one has it and is not to be, every socket with an address is one of the two of it, and a
-- socket that is not there has no address, no queue and no proxy and is not to be disposed of.
pub sockets_belong : (g : System) → Reach g → Sockets.Inv g.manager
sockets_belong g r = (reach-Sound r).inv
