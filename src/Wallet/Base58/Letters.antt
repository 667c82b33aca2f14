-- ===== src/Wallet/Base58/Letters.antt =====
-- wallet/base58.go: letters and leading zeros, written and read.
use mosey.Base.{ℕ, ◌+◌, ◌*◌, ◌<◌, ◌≡◌, ◌≢◌, refl, ap, arith}
use mosey.Base.{List, [], ◌∷◌, ◌++◌, All, ◌==◌, Bool-cases, inl, inr}
use mosey.Base.{true, false, Bool, Bytes, ok, none, some, ◌&&◌, ◌||◌, not, Option-cases, ◌⊎◌}
use mosey.Base.Bits.{below, below_lem}
use mosey.Wallet.Base58.{base58_alphabet, value_loop, letter, letters, leading}
use mosey.Wallet.Base58.{index_from, decode_loop}
use mosey.Wallet.Base58.Digits.{Headed}

-- A letter is found at its place, and only the first is '1'.
found : ℕ → Bool
found d =
    elim (index_from 0 base58_alphabet (letter base58_alphabet d)) [
      | none ↦ false
      | some i ↦ i == d
    ]
    && (d == 0 || not (letter base58_alphabet d == b'1'))

all_found : below 58 found ≡ true
unfolding below found index_from letter
all_found = refl

letter-index : (d : ℕ) → d < 58 → index_from 0 base58_alphabet (letter base58_alphabet d) ≡ some d
unfolding found
letter-index d lt =
    let t = below_lem 58 found d all_found lt in
    elim (Option-cases (index_from 0 base58_alphabet (letter base58_alphabet d))) [
      | inl gone ↦ absurd (ground (arith, t, gone))
      | inr (i, there) ↦ ground (arith, t, there)
    ]

letter-one : (d : ℕ) → d < 58 → d ≢ 0 → (letter base58_alphabet d == b'1') ≡ false
unfolding found
letter-one d lt ne = let t = below_lem 58 found d all_found lt in ground (arith, t)

pub decode-letters :
    (n : ℕ) (ds : List ℕ)
    → All (λ d. d < 58) ds
    → decode_loop n (letters ds) ≡ ok (value_loop 58 n ds)
unfolding decode_loop letters value_loop
decode-letters n [] small = refl
decode-letters n (d ∷ ds) small =
    rw (letter-index d small.0, decode_loop) (decode-letters (n * 58 + d) ds small.1)

pub decode-leading : (b t : Bytes) → decode_loop 0 (leading 0 b'1' b ++ t) ≡ decode_loop 0 t
unfolding decode_loop leading index_from
decode-leading [] t = refl
decode-leading (c ∷ cs) t = elim (Bool-cases (c == 0)) [
  | inl z ↦ rw z (decode-leading cs t)
  | inr nz ↦ rw nz
]

pub leading-leading :
    (b t : Bytes) → leading b'1' 0 (leading 0 b'1' b ++ t) ≡ leading 0 0 b ++ leading b'1' 0 t
unfolding leading
leading-leading [] t = refl
leading-leading (c ∷ cs) t = elim (Bool-cases (c == 0)) [
  | inl z ↦ rw z (ap (◌∷◌ 0) (leading-leading cs t))
  | inr nz ↦ rw nz
]

pub leading-letters :
    (ds : List ℕ) → (ds ≡ []) ⊎ Headed ds → All (λ d. d < 58) ds → leading b'1' 0 (letters ds) ≡ []
unfolding leading letters
leading-letters [] h small = refl
leading-letters (d ∷ ds) (inl e) small = absurd (cc)
leading-letters (d ∷ ds) (inr ne) small = rw (letter-one d small.0 ne)
