-- ===== src/Base/Bits.antt =====
-- `&` and `|` as arithmetic, for the masks that the code uses: tables over a byte, and `|` of a number
-- with another that is shifted past it.
use Prim.Native.Nat.{bit_and, bit_or, bit_or-bitwise, digits, max}
use native.Mathlib.Nat.{pow-suc}
use native.Mathlib.Numerals.{towards_suc}
use mosey.Base.Tests.{◌==◌, ==_iff}
use mathlib.Core.Bool.{Bool, true, ◌&&◌}
use mathlib.Core.Path.{◌≡◌, refl, ap}
use Prim.Native.Nat.{ℕ, zero, suc, ◌+◌, ◌*◌, ◌/◌, ◌%◌, ◌^◌, ◌≤◌, ◌<◌}
use native.Mathlib.Omega.{arith}

-- A test of all numbers below a bound.
unfoldable pub below : ℕ → (ℕ → Bool) → Bool
below zero p = true
below (suc n) p = p n && below n p

pub below_lem : (n : ℕ) (p : ℕ → Bool) (x : ℕ) → below n p ≡ true → x < n → p x ≡ true
unfolding below
below_lem zero p x h lt = absurd (omega arith)
below_lem (suc n) p x h lt = ground (arith, below_lem n p x)

module _ (f g : ℕ → ℕ) where
  byte_table : below 256 (λ x. f x == g x) ≡ true → (x : ℕ) → x < 256 → f x ≡ g x
  byte_table h x lt = (==_iff (f x) (g x)).0 (below_lem 256 (λ y. f y == g y) x h lt)

pub bit_and-0x7f : (b : ℕ) → b < 256 → bit_and b 0x7f ≡ b % 128
unfolding below
bit_and-0x7f = byte_table (λ b. bit_and b 0x7f) (λ b. b % 128) refl

pub bit_and-0x80 : (b : ℕ) → b < 256 → bit_and b 0x80 ≡ b / 128 * 128
unfolding below
bit_and-0x80 = byte_table (λ b. bit_and b 0x80) (λ b. b / 128 * 128) refl

pub bit_or-0x80 : (b : ℕ) → b < 256 → bit_or b 0x80 ≡ b % 128 + 128
unfolding below
bit_or-0x80 = byte_table (λ b. bit_or b 0x80) (λ b. b % 128 + 128) refl

-- `|` takes the digits of a number below `2 ^ s` and those of one shifted past them side by side.
abbrev or_digits : ℕ → ℕ → ℕ → ℕ
or_digits n a b = digits (λ y. y) max n a b

double_shift : (g s : ℕ) → g * 2 ^ suc s ≡ 2 * (g * 2 ^ s)
double_shift g s = omega (arith, ap (λ (t : ℕ). g * t) (pow-suc 2 s))

or_digits_shifted : (n s a g b : ℕ) → b ≡ g * 2 ^ s → a ≤ n → a < 2 ^ s → or_digits n a b ≡ a + b
or_digits_shifted zero s a g b e h lt = omega arith
or_digits_shifted (suc n) s zero g b e h lt = omega arith
or_digits_shifted (suc n) zero (suc a) g b e h lt = absurd (omega arith)
or_digits_shifted (suc n) (suc s) (suc a) g b e h lt = omega (
  arith,
  double_shift g s,
  pow-suc 2 s,
  or_digits_shifted n s (suc a / 2) g (b / 2) (omega (arith, double_shift g s)) (omega arith)
      (omega (arith, pow-suc 2 s)),
)

pub bit_or_shifted : (s a g : ℕ) → a < 2 ^ s → bit_or a (g * 2 ^ s) ≡ a + g * 2 ^ s
bit_or_shifted s a g h =
    rw (bit_or-bitwise a (g * 2 ^ s)) (or_digits_shifted a s a g (g * 2 ^ s) refl (omega arith) h)

pub pow-add_seven : (s : ℕ) → 2 ^ (s + 7) ≡ 128 * 2 ^ s
pow-add_seven s = simp towards_suc (omega arith)
