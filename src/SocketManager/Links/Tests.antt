-- ===== src/SocketManager/Links/Tests.antt =====
-- src/process.cpp: two processes link to a remote PID, and one of them to the other, which then exits
-- before the remote address is lost.
use libprocess.Common.{ℕ, zero, suc, ◌≡◌, refl, true, false, some, List, [], ◌∷◌}
use libprocess.SocketManager.Links.{Links, no_links, Exited}
use libprocess.SocketManager.Links.Sets.{tells}
use libprocess.SocketManager.Links.History.{Op, run, all_pairs, all_told}
use libprocess.SocketManager.Links.Sound.{linked}
use libprocess.SocketManager.Links.Promise.{links_keep_promise}

-- The PID 0 is at the address 1, and all others at the address 0.
abbrev address : ℕ → ℕ
address zero = 1
address (suc u) = 0

abbrev pid : ℕ → ℕ
pid p = suc p

abbrev history : List Op
history =
    Op.links true 4 0
    ∷ Op.links true 5 0
    ∷ Op.links true 5 5
    ∷ Op.exits 4
    ∷ Op.loses 1
    ∷ Op.links false 6 0
    ∷ []

links_keep_promise_example :
    (l : Links) × (es : List Exited) × (run address pid 0 history no_links ≡ some (l, es))
    × ((q v : ℕ)
        → (linked l q v ≡ all_pairs address pid 0 history (λ p u. 0) q v)
          × (tells q v es ≡ all_told address pid 0 history (λ p u. 0) q v))
links_keep_promise_example = links_keep_promise address pid 0 (λ p. refl) history

-- Process 5 is told of both.
five_told : all_told address pid 0 history (λ p u. 0) 5 0 ≡ 1
five_told = refl

five_told_of_four : all_told address pid 0 history (λ p u. 0) 5 5 ≡ 1
five_told_of_four = refl

-- Process 6 could not link.
six_told : all_told address pid 0 history (λ p u. 0) 6 0 ≡ 1
six_told = refl

four_not_told : all_told address pid 0 history (λ p u. 0) 4 0 ≡ 0
four_not_told = refl
