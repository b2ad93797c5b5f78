-- ===== src/SocketManager/Links/Sets.antt =====
-- src/process.cpp: how often an element stands in the lists that stand for the sets of the links.
use libprocess.Common.{
  ℕ, zero, suc, ◌+◌, ◌≡◌, ◌≤◌, refl, false, List, [], ◌∷◌, ◌++◌, arith, if◌then◌else◌, ◌==◌,
}
use libprocess.SocketManager.Links.{has, add_member, remove_member, members, unless_empty, Exited}

abbrev pub times : ℕ → List ℕ → ℕ
times x [] = 0
times x (y ∷ ys) = let rest = times x ys in if y == x then suc rest else rest

abbrev pub tells : ℕ → ℕ → List Exited → ℕ
tells p u [] = 0
tells p u (e ∷ es) =
    let rest = tells p u es in
    if e.linker == p then (if e.linkee == u then suc rest else rest) else rest

-- What is left of a count when some are taken away.
abbrev pub left_of : ℕ → ℕ → ℕ
left_of zero n = n
left_of (suc m) n = 0

pub times-has : (x : ℕ) (xs : List ℕ) → has x xs ≡ false → times x xs ≡ 0
times-has x [] h = refl
times-has x (y ∷ ys) h = ground (arith, h, times-has x ys)

pub has-times : (x : ℕ) (xs : List ℕ) → times x xs ≡ 0 → has x xs ≡ false
has-times x [] h = refl
has-times x (y ∷ ys) h = ground (arith, h, has-times x ys)

pub times-add_member :
    (x y : ℕ) (xs : List ℕ)
    → times x xs ≤ 1
    → times y (add_member x xs) ≡ (if x == y then 1 else times y xs)
times-add_member x y xs o = ground (arith, o, times-has x xs, has-times x xs)

pub times-remove_member :
    (x y : ℕ) (xs : List ℕ) → times y (remove_member x xs) ≡ (if x == y then 0 else times y xs)
times-remove_member x y [] = ground arith
times-remove_member x y (z ∷ zs) = ground (arith, times-remove_member x y zs)

pub members-unless_empty : (xs : List ℕ) → members (unless_empty xs) ≡ xs
members-unless_empty [] = refl
members-unless_empty (x ∷ xs) = refl

pub tells-append :
    (p u : ℕ) (es fs : List Exited) → tells p u (es ++ fs) ≡ tells p u es + tells p u fs
tells-append p u [] fs = ground arith
tells-append p u (e ∷ es) fs = ground (arith, tells-append p u es fs)
