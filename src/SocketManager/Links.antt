-- ===== src/SocketManager/Links.antt =====
-- src/process.cpp and src/socket_manager.hpp: the links of `SocketManager`, which say which process
-- is told when which other process exits or cannot be reached. A process is a number, a PID is a
-- number and `address` gives its address, `here` is the address of this library. A set is a list, and
-- a map of sets a function, none where it has no entry. None is the result where a CHECK fails.
pub mod Sets
pub mod Notice
pub mod Exits
pub mod Drops
pub mod History
pub mod Sound
pub mod Exiting
pub mod Promise
mod Tests
use libprocess.Common.{
  ℕ, at, Bool, true, false, not, Option, none, some, List, [], ◌∷◌, ◌++◌, if◌then◌else◌, ◌==◌,
}

-- A hashset: insertion, removal, and the entry of a map that keeps no empty set.
abbrev pub has : ℕ → List ℕ → Bool
has x [] = false
has x (y ∷ ys) = if y == x then true else has x ys

abbrev pub add_member : ℕ → List ℕ → List ℕ
add_member x xs = if has x xs then xs else x ∷ xs

abbrev pub remove_member : ℕ → List ℕ → List ℕ
remove_member x [] = []
remove_member x (y ∷ ys) = let rest = remove_member x ys in if y == x then rest else y ∷ rest

abbrev pub members : Option (List ℕ) → List ℕ
members none = []
members (some xs) = xs

abbrev pub unless_empty : List ℕ → Option (List ℕ)
unless_empty [] = none
unless_empty (x ∷ xs) = some (x ∷ xs)

pub record Links : Type 0 where
  pub linkers : ℕ → Option (List ℕ)
  pub linkees : ℕ → Option (List ℕ)
  pub remotes : ℕ → Option (List ℕ)

abbrev pub no_links : Links
no_links = record { linkers = λ u. none; linkees = λ p. none; remotes = λ a. none }

-- An `ExitedEvent` for a linker.
pub record Exited : Type 0 where
  pub linker : ℕ
  pub linkee : ℕ

-- The inner loop of both `exited`: every linker of a PID is told and unlinked.
abbrev pub unlinked : ℕ → Option (List ℕ) → Option (Option (List ℕ))
unlinked u none = none
unlinked u (some us) = some (unless_empty (remove_member u us))

abbrev pub told :
    ℕ
    → ℕ
    → Option ((ℕ → Option (List ℕ)) × List Exited)
    → Option ((ℕ → Option (List ℕ)) × List Exited)
told p u none = none
told p u (some (k, es)) = some (k, record { linker = p; linkee = u } ∷ es)

unfoldable pub notify :
    ℕ → List ℕ → (ℕ → Option (List ℕ)) → Option ((ℕ → Option (List ℕ)) × List Exited)
notify u [] linkees = some (linkees, [])
notify u (p ∷ ps) linkees = elim (unlinked u (linkees p)) [
  | none ↦ none
  | some entry ↦ told p u (notify u ps (at linkees p entry))
]

-- The loop of `exited(address)` over the linkees at the address.
abbrev pub clear_linkee : ℕ → Option (List ℕ) → Links → Option (Links × List Exited)
clear_linkee u none l = none
clear_linkee u (some ps) l = elim (notify u ps l.linkees) [
  | none ↦ none
  | some (k, es) ↦ some (record l { linkees = k; linkers = at l.linkers u none }, es)
]

abbrev pub and_then : List Exited → Option (Links × List Exited) → Option (Links × List Exited)
and_then es none = none
and_then es (some (l, more)) = some (l, es ++ more)

unfoldable pub clear_linkees : List ℕ → Links → Option (Links × List Exited)
unfolding notify
clear_linkees [] l = some (l, [])
clear_linkees (u ∷ us) l = elim (clear_linkee u (l.linkers u) l) [
  | none ↦ none
  | some (l', es) ↦ and_then es (clear_linkees us l')
]

abbrev pub forget_address : ℕ → Option (Links × List Exited) → Option (Links × List Exited)
forget_address a none = none
forget_address a (some (l, es)) = some (record l { remotes = at l.remotes a none }, es)

-- `SocketManager::exited` of an address.
unfoldable pub exited_address : ℕ → Links → Option (Links × List Exited)
unfolding clear_linkees
exited_address a l = elim (l.remotes a) [
  | none ↦ some (l, [])
  | some us ↦ forget_address a (clear_linkees us l)
]

module _ (address : ℕ → ℕ) (here : ℕ) where
  -- The links that `SocketManager::link` adds. Where it has to make a socket and cannot, the linker is told
  -- at once, and the links are as they were.
  abbrev pub add_link : ℕ → ℕ → Links → Links
  add_link p u l = record {
    linkers = at l.linkers u (some (add_member p (members (l.linkers u))));
    linkees = at l.linkees p (some (add_member u (members (l.linkees p))));
    remotes =
        if address u == here
        then l.remotes
        else at l.remotes (address u) (some (add_member u (members (l.remotes (address u)))));
  }

  unfoldable pub link_process : (creates : Bool) → ℕ → ℕ → Links → Links × List Exited
  link_process creates p u l =
      if address u == here
      then (add_link p u l, [])
      else if creates
      then (add_link p u l, [])
      else (l, record { linker = p; linkee = u } ∷ [])

  -- `SocketManager::exited` of a process: it links to nothing any more, ...
  abbrev pub drop_remote : ℕ → Option (List ℕ) → Links → Option Links
  drop_remote u none l = none
  drop_remote u (some us) l =
      some (record l { remotes = at l.remotes (address u) (unless_empty (remove_member u us)) })

  abbrev pub drop_linkee : ℕ → List ℕ → Links → Option Links
  drop_linkee u [] l =
      let l' = record l { linkers = at l.linkers u none } in
      if address u == here then some l' else drop_remote u (l.remotes (address u)) l'
  drop_linkee u (q ∷ qs) l = some (record l { linkers = at l.linkers u (some (q ∷ qs)) })

  abbrev pub drop_linker : ℕ → ℕ → Option (List ℕ) → Links → Option Links
  drop_linker p u none l = none
  drop_linker p u (some ps) l = drop_linkee u (remove_member p ps) l

  unfoldable pub drop_linkees : ℕ → List ℕ → Links → Option Links
  drop_linkees p [] l = some l
  drop_linkees p (u ∷ us) l = elim (drop_linker p u (l.linkers u) l) [
    | none ↦ none
    | some l' ↦ drop_linkees p us l'
  ]

  unfoldable pub drop_process : ℕ → Option (List ℕ) → Links → Option Links
  unfolding drop_linkees
  drop_process p none l = some l
  drop_process p (some us) l = elim (drop_linkees p us l) [
    | none ↦ none
    | some l' ↦ some (record l' { linkees = at l'.linkees p none })
  ]

  -- ... and its linkers are told.
  abbrev pub notify_linkers : ℕ → ℕ → Option (List ℕ) → Links → Option (Links × List Exited)
  notify_linkers p u none l = some (l, [])
  notify_linkers p u (some ps) l = if has p ps then none else clear_linkee u (some ps) l

  unfoldable pub exited_process : ℕ → ℕ → Links → Option (Links × List Exited)
  unfolding drop_process notify
  exited_process p u l = elim (drop_process p (l.linkees p) l) [
    | none ↦ none
    | some l' ↦ notify_linkers p u (l'.linkers u) l'
  ]
