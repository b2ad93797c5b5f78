-- ===== src/Http/Response/Headers.antt =====
-- include/process/http.hpp: `Headers` has one value for a name, whatever its case.
use libprocess.Common.{
  ℕ, ◌≤◌, ◌≡◌, refl, sym, ◌∙◌, Bool, true, false, none, some, [], ◌∷◌, ◌++◌, arith, if◌then◌else◌,
  ◌==◌, total,
}
use libprocess.Http.Pipe.{Text}
use libprocess.Http.Query.{Pairs}
use libprocess.Http.Message.{to_lower, same_key, set_header, get_header}

abbrev pub counts : Text → Text × Text → ℕ
counts k (j, v) = if same_key j k then 1 else 0

both : (x y : ℕ) (b : Bool) → (if x == y then b else false) ≡ true → (x ≡ y) × (b ≡ true)
both x y true h = ground arith
both x y false h = ground arith

both_back : (x y : ℕ) (b : Bool) → x ≡ y → b ≡ true → (if x == y then b else false) ≡ true
both_back x y b e h = ground arith

same_key-join : (i j k : Text) → same_key i j ≡ true → same_key i k ≡ true → same_key j k ≡ true
same_key-join [] [] [] g h = refl
same_key-join [] [] (c ∷ k) g h = absurd (cc)
same_key-join [] (b ∷ j) k g h = absurd (cc)
same_key-join (a ∷ i) [] k g h = absurd (cc)
same_key-join (a ∷ i) (b ∷ j) [] g h = absurd (cc)
same_key-join (a ∷ i) (b ∷ j) (c ∷ k) g h =
    let p = both (to_lower a) (to_lower b) (same_key i j) g in
    let q = both (to_lower a) (to_lower c) (same_key i k) h in
    both_back (to_lower b) (to_lower c) (same_key j k) (sym p.0 ∙ q.0) (same_key-join i j k p.1 q.1)

pub counts-set_other :
    (k j v : Text) (hs : Pairs)
    → same_key j k ≡ false
    → total (counts k) (set_header j v hs) ≡ total (counts k) hs
counts-set_other k j v [] h = ground arith
counts-set_other k j v ((i, w) ∷ hs) h = ground (arith, counts-set_other k j v hs h)

pub get_header-other :
    (k j v : Text) (hs : Pairs)
    → same_key j k ≡ false
    → get_header k (set_header j v hs) ≡ get_header k hs
get_header-other k j v [] h = ground arith
get_header-other k j v ((i, w) ∷ hs) h =
    ground (arith, get_header-other k j v hs h, same_key-join i j k)

pub get_header-same :
    (k v : Text) (hs : Pairs) → same_key k k ≡ true → get_header k (set_header k v hs) ≡ some v
get_header-same k v [] h = ground arith
get_header-same k v ((i, w) ∷ hs) h = ground (arith, get_header-same k v hs h)

pub counts-set_same :
    (k v : Text) (hs : Pairs)
    → same_key k k ≡ true
    → total (counts k) hs ≤ 1
    → total (counts k) (set_header k v hs) ≡ 1
counts-set_same k v [] h m = ground arith
counts-set_same k v ((i, w) ∷ hs) h m = ground (arith, counts-set_same k v hs h)

pub counts-absent : (k : Text) (hs : Pairs) → get_header k hs ≡ none → total (counts k) hs ≡ 0
counts-absent k [] h = refl
counts-absent k ((i, w) ∷ hs) h = ground (arith, counts-absent k hs)

pub get_header-append :
    (k : Text) (hs : Pairs) (j v : Text)
    → same_key j k ≡ false
    → get_header k (hs ++ (j, v) ∷ []) ≡ get_header k hs
get_header-append k [] j v h = ground arith
get_header-append k ((i, w) ∷ hs) j v h = ground (arith, get_header-append k hs j v h)

pub get_header-last :
    (k v : Text) (hs : Pairs)
    → same_key k k ≡ true
    → get_header k hs ≡ none
    → get_header k (hs ++ (k, v) ∷ []) ≡ some v
get_header-last k v [] h n = ground arith
get_header-last k v ((i, w) ∷ hs) h n = ground (arith, get_header-last k v hs h)

pub counts-present : (k v : Text) (hs : Pairs) → get_header k hs ≡ some v → 1 ≤ total (counts k) hs
counts-present k v [] h = absurd cc
counts-present k v ((i, w) ∷ hs) h = ground (arith, counts-present k v hs)
