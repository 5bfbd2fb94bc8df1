-- ===== src/Prelude/Int.antt =====
-- Go's int where a sign matters. `negsuc n` is -(n + 1).
use Prim.Native.Nat.{ℕ, zero, suc}

pub data ℤ : Type 0 where
  pos : ℕ → ℤ
  negsuc : ℕ → ℤ

-- if n <= 0 { n = standard }
unfoldable pub positive_or : ℕ → ℤ → ℕ
positive_or standard (pos zero) = standard
positive_or standard (pos (suc n)) = suc n
positive_or standard (negsuc n) = standard
