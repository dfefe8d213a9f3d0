-- ===== src/Base/Maps.antt =====
-- Maps as functions of a number.
use learn_for_cpp.Base.Tests.{◌==◌, if◌then◌else◌}
use Prim.Native.Nat.{ℕ}

module _ {ℓ} {A : Type ℓ} where
  abbrev pub put : (ℕ → A) → ℕ → A → ℕ → A
  put f m x n = if n == m then x else f n
