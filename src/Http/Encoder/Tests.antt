-- ===== src/Http/Encoder/Tests.antt =====
-- src/encoder.hpp and src/process.cpp: sending to a socket that takes at most two bytes at a time.
use libprocess.Common.{
  ℕ, refl, ◌≡◌, true, false, none, some, List, [], ◌∷◌, if◌then◌else◌, leb, ◌==◌,
}
use libprocess.Http.Encoder.{in_memory, in_file, Kind, Socket, send_all}

abbrev by_two : Socket
by_two call kind size = some (if leb size 2 then size else 2)

-- The same socket, with an error in its call of number 2.
abbrev broken : Socket
broken call kind size = if call == 2 then none else by_two call kind size

abbrev response : List (Kind × List ℕ)
response = (in_memory, 1 ∷ 2 ∷ 3 ∷ []) ∷ (in_memory, []) ∷ (in_file, 4 ∷ 5 ∷ 6 ∷ 7 ∷ []) ∷ []

response_is_sent :
    send_all by_two response 0
    ≡ some (record { sent = 1 ∷ 2 ∷ 3 ∷ 4 ∷ 5 ∷ 6 ∷ 7 ∷ []; calls = 5; complete = true })
unfolding send_all
response_is_sent = refl

response_is_cut :
    send_all broken response 0
    ≡ some (record { sent = 1 ∷ 2 ∷ 3 ∷ []; calls = 3; complete = false })
unfolding send_all
response_is_cut = refl
