-- ===== src/Common/Maps.antt =====
-- Maps as functions.
use Prim.Native.Nat.{ℕ}
use libprocess.Common.Tests.{◌==◌, if◌then◌else◌}

-- The map with a new value at one key.
abbrev pub at {ℓ} : {A : Type ℓ} → (ℕ → A) → ℕ → A → ℕ → A
at f i v j = if i == j then v else f j
