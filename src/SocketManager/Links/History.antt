-- ===== src/SocketManager/Links/History.antt =====
-- src/process.cpp: histories of the links of `SocketManager`, and what they promise: a set of pairs of
-- a linker and a linkee, and how often a linker is told of a linkee.
use libprocess.Common.{ℕ, ◌+◌, Bool, true, Option, none, some, List, [], ◌∷◌, if◌then◌else◌, ◌==◌}
use libprocess.SocketManager.Links.{
  Links, Exited, and_then, link_process, exited_address, exited_process,
}

pub data Op : Type 0 where
  links : (creates : Bool) (linker linkee : ℕ) → Op
  loses : (address : ℕ) → Op
  exits : (process : ℕ) → Op

module _ (address pid : ℕ → ℕ) (here : ℕ) where
  abbrev pub apply : Op → Links → Option (Links × List Exited)
  apply (Op.links creates p u) l = some (link_process address here creates p u l)
  apply (Op.loses a) l = exited_address a l
  apply (Op.exits p) l = exited_process address here p (pid p) l

  unfoldable pub run : List Op → Links → Option (Links × List Exited)
  run [] l = some (l, [])
  run (o ∷ os) l = elim (apply o l) [ none ↦ none | some (l', es) ↦ and_then es (run os l') ]

  -- A link is made, unless it needs a socket and none is created.
  abbrev pub is_made : Bool → ℕ → Bool
  is_made creates u = if address u == here then true else creates

  -- The pairs are counted: a link is there once, or not at all.
  abbrev pub pairs_after : Op → (ℕ → ℕ → ℕ) → ℕ → ℕ → ℕ
  pairs_after (Op.links creates p u) pairs q v =
      if is_made creates u
      then (if q == p then (if v == u then 1 else pairs q v) else pairs q v)
      else pairs q v
  pairs_after (Op.loses a) pairs q v =
      if address v == a then (if a == here then pairs q v else 0) else pairs q v
  pairs_after (Op.exits p) pairs q v = if q == p then 0 else if v == pid p then 0 else pairs q v

  abbrev pub told_of : Op → (ℕ → ℕ → ℕ) → ℕ → ℕ → ℕ
  told_of (Op.links creates p u) pairs q v =
      if is_made creates u then 0 else if q == p then (if v == u then 1 else 0) else 0
  told_of (Op.loses a) pairs q v =
      if address v == a then (if a == here then 0 else pairs q v) else 0
  told_of (Op.exits p) pairs q v = if q == p then 0 else if v == pid p then pairs q v else 0

  abbrev pub all_pairs : List Op → (ℕ → ℕ → ℕ) → ℕ → ℕ → ℕ
  all_pairs [] pairs q v = pairs q v
  all_pairs (o ∷ os) pairs q v = all_pairs os (pairs_after o pairs) q v

  abbrev pub all_told : List Op → (ℕ → ℕ → ℕ) → ℕ → ℕ → ℕ
  all_told [] pairs q v = 0
  all_told (o ∷ os) pairs q v = told_of o pairs q v + all_told os (pairs_after o pairs) q v
