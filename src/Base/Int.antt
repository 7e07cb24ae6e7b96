-- ===== src/Base/Int.antt =====
-- Python's signed indices: -1 stands for "no schema" in a fact.
use Prim.Native.Nat.{ℕ}

-- `negsuc n` is -(n + 1).
pub data ℤ : Type 0 where
  pos : ℕ → ℤ
  negsuc : ℕ → ℤ
