-- ===== src/Wallet/Base58/Digits.antt =====
-- wallet/base58.go: the digits of a number, in one radix.
use mosey.Base.{
  ℕ, zero, suc, ◌+◌, ◌*◌, ◌/◌, ◌%◌, ◌^◌, ◌≤◌, ◌<◌, ◌≡◌, ◌≢◌, refl, sym, ◌∙◌, ap, arith,
}
use mosey.Base.{append-nil, List, [], ◌∷◌, ◌++◌, length, All, ◌==◌, Bool-cases, inl, inr}
use native.Mathlib.Nat.{pow-suc, pow-zero}
use mosey.Wallet.Base58.{value_loop, digits_loop}

-- Division by the radix.
pub record Radix (r : ℕ) : Type 0 where
  pub parts : (n : ℕ) → n / r * r + n % r ≡ n
  pub low : (n : ℕ) → n % r < r
  pub quotient : (n d : ℕ) → d < r → (n * r + d) / r ≡ n
  pub remainder : (n d : ℕ) → d < r → (n * r + d) % r ≡ d
  pub grows : (n d : ℕ) → n ≢ 0 → n * r + d ≢ 0
  pub whole : (d : ℕ) → d < r → d % r ≡ d
  pub falls : (n m : ℕ) → n < m * r → n / r < m

-- The first digit is there and not 0.
abbrev pub Headed : List ℕ → Type 0
Headed [] = ⊥
Headed (d ∷ ds) = d ≢ 0

module _ (r : ℕ) (radix : Radix r) where
  pub digits_loop-zero : (k : ℕ) (low : List ℕ) → digits_loop r k 0 low ≡ low
  unfolding digits_loop
  digits_loop-zero zero low = refl
  digits_loop-zero (suc k) low = refl

  digits_loop-suc :
      (k n : ℕ) (low : List ℕ)
      → n ≢ 0
      → digits_loop r (suc k) n low ≡ digits_loop r k (n / r) (n % r ∷ low)
  unfolding digits_loop
  digits_loop-suc k n low ne = ground (arith, ne)

  falls_pow : (k n : ℕ) → n < r ^ suc k → n / r < r ^ k
  falls_pow k n lt = radix.falls n (r ^ k) (rw (← pow-suc r k) lt)

  below_one : (n : ℕ) → n < r ^ 0 → n ≡ 0
  below_one n lt = omega (arith, pow-zero r)

  value_parts : (m : ℕ) (ds : List ℕ) → value_loop r (m / r) (m % r ∷ ds) ≡ value_loop r m ds
  unfolding value_loop
  value_parts m ds = rw (radix.parts m)

  -- The digits have the number as their value.
  pub value-digits :
      (k n : ℕ) (low : List ℕ)
      → n < r ^ k
      → value_loop r 0 (digits_loop r k n low) ≡ value_loop r n low
  value-digits zero n low lt = let e : n ≡ 0 = below_one n lt in rw (e, digits_loop-zero zero low)
  value-digits (suc k) n low lt = elim (Bool-cases (n == 0)) [
    | inl z ↦ let e : n ≡ 0 = ground arith in rw (e, digits_loop-zero (suc k) low)
    | inr nz ↦
        rw (digits_loop-suc k n low (ground arith))
          (value-digits k (n / r) (n % r ∷ low) (falls_pow k n lt) ∙ value_parts n low)
  ]

  step_back :
      (k n d : ℕ) (low : List ℕ)
      → d < r
      → digits_loop r k ((n * r + d) / r) ((n * r + d) % r ∷ low) ≡ digits_loop r k n (d ∷ low)
  step_back k n d low lt = rw (radix.quotient n d lt, radix.remainder n d lt)

  last_round : (d : ℕ) (ds : List ℕ) → d < r → digits_loop r 0 (d / r) (d % r ∷ ds ++ []) ≡ d ∷ ds
  unfolding digits_loop
  last_round d ds lt = rw (radix.whole d lt, append-nil ds)

  last_digit : (n : ℕ) → n ≢ 0 → n / r ≡ 0 → n % r ≢ 0
  last_digit n ne e z = ne (sym (radix.parts n) ∙ rw (e, z) (omega arith))

  digits_none :
      (n : ℕ) (low : List ℕ) → All (λ d. d < r) low → All (λ d. d < r) (digits_loop r 0 n low)
  unfolding digits_loop
  digits_none n low small = small

  -- The digits of the value of digits, behind a number that is not 0.
  digits-value_more :
      (k n : ℕ) (ds low : List ℕ)
      → n ≢ 0
      → All (λ d. d < r) ds
      → digits_loop r (length ds + k) (value_loop r n ds) low ≡ digits_loop r k n (ds ++ low)
  unfolding value_loop
  digits-value_more k n [] low ne small = let z : 0 + k ≡ k = omega arith in rw z refl
  digits-value_more k n (d ∷ ds) low ne small =
      let e : length (d ∷ ds) + k ≡ length ds + suc k = omega arith in
      let n' = n * r + d in
      rw e (
        digits-value_more (suc k) n' ds low (radix.grows n d ne) small.1
        ∙ digits_loop-suc k n' (ds ++ low) (radix.grows n d ne)
        ∙ step_back k n d (ds ++ low) small.0)

  -- Digits without a leading 0 are those of their value.
  pub digits-value :
      (d : ℕ) (ds : List ℕ)
      → d ≢ 0
      → All (λ e. e < r) (d ∷ ds)
      → digits_loop r (length (d ∷ ds)) (value_loop r 0 (d ∷ ds)) [] ≡ d ∷ ds
  unfolding value_loop
  digits-value d ds ne small =
      let e : length (d ∷ ds) ≡ length ds + 1 = omega arith in
      let z : 0 * r + d ≡ d = omega arith in
      rw (e, z)
        (digits-value_more 1 d ds [] ne small.1
          ∙ digits_loop-suc 0 d (ds ++ []) ne
          ∙ last_round d ds small.0)

  -- More rounds than are needed change nothing.
  pub digits-more :
      (k j n : ℕ) (low : List ℕ) → n < r ^ k → digits_loop r (k + j) n low ≡ digits_loop r k n low
  digits-more zero j n low lt =
      let e : n ≡ 0 = below_one n lt in
      rw e (digits_loop-zero (0 + j) low ∙ sym (digits_loop-zero 0 low))
  digits-more (suc k) j n low lt = elim (Bool-cases (n == 0)) [
    | inl z ↦
        let e : n ≡ 0 = ground arith in
        rw e (digits_loop-zero (suc k + j) low ∙ sym (digits_loop-zero (suc k) low))
    | inr nz ↦
        let ne : n ≢ 0 = ground arith in
        let q : suc k + j ≡ suc (k + j) = omega arith in
        rw q (
          digits_loop-suc (k + j) n low ne
          ∙ digits-more k j (n / r) (n % r ∷ low) (falls_pow k n lt)
          ∙ sym (digits_loop-suc k n low ne))
  ]

  pub digits-Headed : (k n : ℕ) (low : List ℕ) → n ≢ 0 → n < r ^ k → Headed (digits_loop r k n low)
  digits-Headed zero n low ne lt = absurd (ne (below_one n lt))
  digits-Headed (suc k) n low ne lt = elim (Bool-cases (n / r == 0)) [
    | inl z ↦
        let e : n / r ≡ 0 = ground arith in
        rw (digits_loop-suc k n low ne, e, digits_loop-zero k (n % r ∷ low)) (last_digit n ne e)
    | inr nz ↦
        rw (digits_loop-suc k n low ne)
          (digits-Headed k (n / r) (n % r ∷ low) (ground arith) (falls_pow k n lt))
  ]

  pub digits-small :
      (k n : ℕ) (low : List ℕ) → All (λ d. d < r) low → All (λ d. d < r) (digits_loop r k n low)
  digits-small zero n low small = digits_none n low small
  digits-small (suc k) n low small = elim (Bool-cases (n == 0)) [
    | inl z ↦ let e : n ≡ 0 = ground arith in rw (e, digits_loop-zero (suc k) low) small
    | inr nz ↦
        rw (digits_loop-suc k n low (ground arith))
          (digits-small k (n / r) (n % r ∷ low) (radix.low n, small))
  ]

  pub value-bound :
      (n : ℕ) (ds : List ℕ) → All (λ d. d < r) ds → value_loop r n ds < suc n * r ^ length ds
  unfolding value_loop
  value-bound n [] small = rw (pow-zero r) (omega arith)
  value-bound n (d ∷ ds) small =
      let big : suc (n * r + d) ≤ suc n * r = grind (arith, small.0) in
      let more : suc (n * r + d) * r ^ length ds ≤ suc n * r * r ^ length ds = grind arith in
      let e : suc n * r ^ length (d ∷ ds) ≡ suc n * r * r ^ length ds =
        omega (arith, ap (λ (t : ℕ). suc n * t) (pow-suc r (length ds))) in
      rw e (omega (arith, value-bound (n * r + d) ds small.1))
