-- ===== src/Base/Words.antt =====
-- Machine words: wrap-around written out, and `|` as addition where the bits are disjoint.
use Prim.Native.Nat.{ℕ, ◌+◌, ◌-◌, ◌%◌, ◌^◌}
use mathlib.Core.Bool.{Bool}
use mosey.Base.Tests.{ltb}

-- A Go `int`, where a caller may pass a negative one: `negsuc n` is -(n + 1).
pub data ℤ : Type 0 where
  pos : ℕ → ℤ
  negsuc : ℕ → ℤ

abbrev pub add64 : ℕ → ℕ → ℕ
add64 a b = (a + b) % 2 ^ 64

abbrev pub sub64 : ℕ → ℕ → ℕ
sub64 a b = (a + 2 ^ 64 - b) % 2 ^ 64

-- `<` on the bit patterns of two int64.
abbrev pub ltb_i64 : ℕ → ℕ → Bool
ltb_i64 a b = ltb ((a + 2 ^ 63) % 2 ^ 64) ((b + 2 ^ 63) % 2 ^ 64)
