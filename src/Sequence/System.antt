-- ===== src/Sequence/System.antt =====
-- include/process/sequence.hpp: the histories of a sequence.
use libprocess.Common.{ℕ, Bool, true, false, List, [], ◌∷◌, ◌++◌, ◌≡◌, if◌then◌else◌}
use libprocess.Sequence.{Stage, Item, notified, invoke, completed, add, discard, finalize}

abbrev pub was_passed : Stage → Bool
was_passed Stage.passed = true
was_passed _ = false

-- The callbacks that passed the test of `notified` and are not invoked yet.
abbrev pub passed_of : List Item → List ℕ
passed_of [] = []
passed_of (x ∷ xs) = if was_passed x.stage then x.id ∷ passed_of xs else passed_of xs

-- A sequence with the callbacks that it invoked, those of them that it invoked after `finalize`, and those
-- that had passed the test when `finalize` came.
pub record System : Type 0 where
  pub items : List Item
  pub invoked : List ℕ
  pub late : List ℕ
  pub passed_at_end : List ℕ
  pub ended : Bool

abbrev pub start : System
start = record { items = []; invoked = []; late = []; passed_at_end = []; ended = false }

unfoldable pub add_callback : System → System
unfolding add
add_callback s = record s { items = add s.items }

unfoldable pub test_callback : List Item → Item → List Item → System → System
unfolding notified
test_callback before x later s = record s { items = before ++ notified x later }

unfoldable pub invoke_callback : List Item → Item → List Item → System → System
invoke_callback before x later s = record s {
  items = before ++ invoke x ∷ later;
  invoked = s.invoked ++ x.id ∷ [];
  late = s.late ++ (if s.ended then x.id ∷ [] else []);
}

-- The future that a callback returned completes.
unfoldable pub complete_callback : List Item → Item → List Item → System → System
unfolding completed
complete_callback before x later s = record s { items = before ++ completed x later }

unfoldable pub discard_future : List Item → Item → List Item → System → System
discard_future before x later s = record s { items = before ++ discard x ∷ later }

unfoldable pub end_sequence : System → System
unfolding finalize
end_sequence s = record s {
  items = finalize s.items;
  passed_at_end = s.passed_at_end ++ passed_of s.items;
  ended = true;
}

-- Once the process of the sequence has ended it serves no `add`, but what was notified goes on.
pub data Step : System → System → Type 0 where
  adds : {s : System} → s.ended ≡ false → Step s (add_callback s)
  tests :
      {s : System} (before : List Item) (x : Item) (later : List Item)
      → s.items ≡ before ++ x ∷ later
      → x.stage ≡ Stage.woken
      → Step s (test_callback before x later s)
  invokes :
      {s : System} (before : List Item) (x : Item) (later : List Item)
      → s.items ≡ before ++ x ∷ later
      → x.stage ≡ Stage.passed
      → Step s (invoke_callback before x later s)
  completes :
      {s : System} (before : List Item) (x : Item) (later : List Item)
      → s.items ≡ before ++ x ∷ later
      → x.stage ≡ Stage.running
      → Step s (complete_callback before x later s)
  discards :
      {s : System} (before : List Item) (x : Item) (later : List Item)
      → s.items ≡ before ++ x ∷ later
      → Step s (discard_future before x later s)
  ends : {s : System} → s.ended ≡ false → Step s (end_sequence s)

pub data Reach : System → Type 0 where
  here : Reach start
  next : {s t : System} → Reach s → Step s t → Reach t
