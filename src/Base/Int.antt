-- ===== src/Base/Int.antt =====
-- C's `int` as a result that may be negative: `negsuc n` is - (n + 1).
use Prim.Native.Nat.{ℕ}

pub data ℤ : Type 0 where
  pos negsuc : ℕ → ℤ
