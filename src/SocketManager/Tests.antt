-- ===== src/SocketManager/Tests.antt =====
-- src/process.cpp: a link to an address, a message to it while its socket connects, and the loop that
-- then sends the message. The theorems stand at the end of this run.
use libprocess.Common.{ℕ, at, ◌≡◌, ◌≤◌, refl, true, false, none, some, [], ◌∷◌, ◌++◌}
use libprocess.SocketManager.{send_message, next, queue_of, link_socket}
use libprocess.SocketManager.Sockets
use libprocess.SocketManager.System.{System, messages, continues, links, Reach, here, follows}
use libprocess.SocketManager.Sending.{loops_for}
use libprocess.SocketManager.Sending.History.{one_sender_in_order, sockets_belong}

abbrev busy : System
busy = record {
  manager = record {
    sockets = at (λ s. false) 7 true;
    dispose = λ s. false;
    addresses = at (λ s. none) 7 (some 9);
    temps = λ a. none;
    persists = at (λ a. none) 9 (some 7);
    outgoing = at (at (at (λ s. none) 7 (some [])) 7 (some (1 ∷ []))) 7 (some []);
    proxies = λ s. none;
  };
  loops = at (at (at (λ s. 0) 7 1) 7 0) 7 1;
  handed = at (at (λ s. []) 7 []) 7 (1 ∷ []);
  started = at (at (at (λ s. []) 7 []) 7 []) 7 (1 ∷ []);
  aborted = false;
}

busy-Reach : Reach busy
unfolding link_socket send_message next
busy-Reach =
    follows
      (follows (follows here (links 9 false (some 7) (λ s h. (refl, refl))))
        (messages 1 9 none (λ s h. absurd (cc))))
      (continues 7 0 refl)

one_sender_in_order_example :
    (busy.aborted ≡ false)
    × ((s : ℕ)
        → (busy.loops s ≤ 1)
          × (busy.manager.sockets s ≡ true
              → (busy.loops s ≡ loops_for (busy.manager.outgoing s))
                × (busy.started s ++ queue_of (busy.manager.outgoing s) ≡ busy.handed s)))
one_sender_in_order_example = one_sender_in_order busy busy-Reach

sockets_belong_example : Sockets.Inv busy.manager
sockets_belong_example = sockets_belong busy busy-Reach
