-- ===== src/Base/Maps.antt =====
-- Maps from the native numbers as functions.
use Prim.Native.Nat.{ℕ}
use aer_core.Base.Tests.{◌==◌, if◌then◌else◌}

abbrev pub update {ℓ} : {A : Type ℓ} → (ℕ → A) → ℕ → A → ℕ → A
update f i a j = if i == j then a else f j
