-- ===== src/Prelude/Int.antt =====
-- Signed integers over the native numbers: the `int` and `std::time_t` arguments that a caller may
-- pass negative. Only their sign and their value when positive are read by the program.
use Prim.Native.Nat.{ℕ, zero}

-- `negsuc n` is -(n + 1).
pub data ℤ : Type 0 where
  pos : ℕ → ℤ
  negsuc : ℕ → ℤ

-- The value of a number that is above zero, and 0 for any other: `x <= 0` is `positive x == 0`.
abbrev pub positive : ℤ → ℕ
positive (pos n) = n
positive (negsuc n) = zero
