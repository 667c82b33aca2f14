-- ===== src/Wallet/Base58/RoundTrip.antt =====
-- wallet/base58.go: what base58Encode writes, base58Decode reads back.
use mosey.Base.{ℕ, zero, suc, ◌+◌, ◌*◌, ◌^◌, ◌≤◌, ◌<◌, ◌≡◌, ◌≢◌, refl, sym, ◌∙◌, ap, arith}
use mosey.Base.{
  append-nil, List, [], ◌∷◌, ◌++◌, length, All, ◌==◌, if◌then◌else◌, Bool-cases, inl, inr,
}
use mosey.Base.{Bytes, ok, ◌⊎◌}
use mosey.Wallet.Base58.{value_loop, digits_loop, letters, leading, or_one}
use mosey.Wallet.Base58.{decode_loop, base58_encode, base58_decode}
use mosey.Wallet.Base58.Digits.{
  Radix, Headed, value-digits, digits-value, digits-more, digits-Headed,
}
use native.Mathlib.Nat.{pow-suc}
use mosey.Base.{length-append}
use mosey.Wallet.Base58.Digits.{digits_loop-zero, digits-small, value-bound}
use mosey.Wallet.Base58.Letters.{decode-letters, decode-leading, leading-leading, leading-letters}

Radix-58 : Radix 58
Radix-58 = record {
  parts = λ n. omega arith;
  low = λ n. omega arith;
  quotient = λ n d lt. omega arith;
  remainder = λ n d lt. omega arith;
  grows = λ n d ne e. ne (omega arith);
  whole = λ d lt. omega arith;
  falls = λ n m lt. omega arith;
}

Radix-256 : Radix 256
Radix-256 = record {
  parts = λ n. omega arith;
  low = λ n. omega arith;
  quotient = λ n d lt. omega arith;
  remainder = λ n d lt. omega arith;
  grows = λ n d ne e. ne (omega arith);
  whole = λ d lt. omega arith;
  falls = λ n m lt. omega arith;
}

-- The bytes behind the leading zeros.
strip : Bytes → Bytes
strip [] = []
strip (c ∷ cs) = if c == 0 then strip cs else c ∷ cs

leading-strip : (b : Bytes) → leading 0 0 b ++ strip b ≡ b
unfolding leading strip
leading-strip [] = refl
leading-strip (c ∷ cs) = elim (Bool-cases (c == 0)) [
  | inl z ↦ let e : c ≡ 0 = ground arith in rw e (ap (◌∷◌ 0) (leading-strip cs))
  | inr nz ↦ rw nz
]

value-strip : (b : Bytes) → value_loop 256 0 (strip b) ≡ value_loop 256 0 b
unfolding value_loop strip
value-strip [] = refl
value-strip (c ∷ cs) = elim (Bool-cases (c == 0)) [
  | inl z ↦ let e : c ≡ 0 = ground arith in rw e (value-strip cs)
  | inr nz ↦ rw nz
]

pow-256_58 : (k : ℕ) → 256 ^ k ≤ 58 ^ (2 * k)
pow-256_58 zero = omega arith
pow-256_58 (suc k) =
    let e : 2 * suc k ≡ suc (suc (2 * k)) = omega arith in
    rw e (omega (arith, pow-suc 256 k, pow-suc 58 (2 * k), pow-suc 58 (suc (2 * k)), pow-256_58 k))

pow-58_256 : (k : ℕ) → 58 ^ k ≤ 256 ^ k
pow-58_256 zero = omega arith
pow-58_256 (suc k) = omega (arith, pow-suc 58 k, pow-suc 256 k, pow-58_256 k)

pow-up : (j k : ℕ) → 256 ^ k ≤ 256 ^ (j + k)
pow-up zero k = let e : 0 + k ≡ k = omega arith in rw e (omega arith)
pow-up (suc j) k =
    let e : suc j + k ≡ suc (j + k) = omega arith in
    rw e (omega (arith, pow-suc 256 (j + k), pow-up j k))

-- Any two numbers of rounds that are enough give the same digits.
digits_same :
    (k j n : ℕ) → n < 256 ^ k → n < 256 ^ j → digits_loop 256 k n [] ≡ digits_loop 256 j n []
digits_same k j n lt lt' =
    let e : k + j ≡ j + k = omega arith in
    sym (digits-more 256 Radix-256 k j n [] lt)
    ∙ ap (λ m. digits_loop 256 m n []) e
    ∙ digits-more 256 Radix-256 j k n [] lt'

strip-small : (b : Bytes) → All (λ c. c < 256) b → All (λ c. c < 256) (strip b)
unfolding strip
strip-small [] small = tt
strip-small (c ∷ cs) small = elim (Bool-cases (c == 0)) [
  | inl z ↦ rw z (strip-small cs small.1)
  | inr nz ↦ rw nz small
]

strip-head : (b : Bytes) → (strip b ≡ []) ⊎ Headed (strip b)
unfolding strip
strip-head [] = inl refl
strip-head (c ∷ cs) = elim (Bool-cases (c == 0)) [
  | inl z ↦ rw z (strip-head cs)
  | inr nz ↦ rw nz (inr (ground (arith, nz)))
]

digits_nil : (k : ℕ) → digits_loop 256 k (value_loop 256 0 []) [] ≡ []
unfolding digits_loop value_loop
digits_nil zero = refl
digits_nil (suc k) = refl

bounded : (b : Bytes) → All (λ c. c < 256) b → value_loop 256 0 b < 256 ^ length b
bounded b small = omega (arith, value-bound 256 Radix-256 0 b small)

-- Enough rounds give the bytes behind the leading zeros back.
digits_of :
    (k : ℕ) (ds : Bytes)
    → (ds ≡ []) ⊎ Headed ds
    → All (λ c. c < 256) ds
    → value_loop 256 0 ds < 256 ^ k
    → digits_loop 256 k (value_loop 256 0 ds) [] ≡ ds
digits_of k [] h small lt = digits_nil k
digits_of k (d ∷ ds) (inl e) small lt = absurd (cc)
digits_of k (d ∷ ds) (inr ne) small lt =
    digits_same k (length (d ∷ ds)) (value_loop 256 0 (d ∷ ds)) lt (bounded (d ∷ ds) small)
    ∙ digits-value 256 Radix-256 d ds ne small

no_rounds : (n : ℕ) → leading b'1' 0 [] ++ digits_loop 256 0 n [] ≡ []
unfolding leading digits_loop
no_rounds n = refl

or_one-full : (t : Bytes) → t ≢ [] → or_one t ≡ t
or_one-full [] ne = absurd (ne refl)
or_one-full (c ∷ cs) ne = refl

length-letters : (ds : List ℕ) → length (letters ds) ≡ length ds
unfolding letters
length-letters [] = refl
length-letters (d ∷ ds) = omega (arith, length-letters ds)

module _ (b : Bytes) (small : All (λ c. c < 256) b) where
  number : ℕ
  number = value_loop 256 0 b

  digits : List ℕ
  digits = digits_loop 58 (2 * length b) number []

  text : Bytes
  text = leading 0 b'1' b ++ letters digits

  number-bound : number < 58 ^ (2 * length b)
  unfolding number
  number-bound = omega (arith, bounded b small, pow-256_58 (length b))

  digits-below : All (λ d. d < 58) digits
  unfolding digits
  digits-below = digits-small 58 Radix-58 (2 * length b) number [] tt

  digits-head : (digits ≡ []) ⊎ Headed digits
  unfolding digits
  digits-head = elim (Bool-cases (number == 0)) [
    | inl z ↦
        inl (
          let e : number ≡ 0 = ground arith in
          rw e (digits_loop-zero 58 Radix-58 (2 * length b) []))
    | inr nz ↦ inr (digits-Headed 58 Radix-58 (2 * length b) number [] (ground arith) number-bound)
  ]

  digits-number : value_loop 58 0 digits ≡ number
  unfolding digits value_loop
  digits-number = value-digits 58 Radix-58 (2 * length b) number [] number-bound

  number-text : number < 256 ^ length text
  unfolding text
  number-text =
      let e : length (leading 0 b'1' b ++ letters digits)
          ≡ length (leading 0 b'1' b) + length digits =
        length-append (leading 0 b'1' b) (letters digits)
        ∙ ap (λ n. length (leading 0 b'1' b) + n) (length-letters digits) in
      rw e (
        omega (
          arith,
          digits-number,
          value-bound 58 Radix-58 0 digits digits-below,
          pow-58_256 (length digits),
          pow-up (length (leading 0 b'1' b)) (length digits),
        ))

  text-decodes : decode_loop 0 text ≡ ok number
  unfolding text
  text-decodes =
      decode-leading b (letters digits) ∙ decode-letters 0 digits digits-below ∙ ap ok digits-number

  text-leading : leading b'1' 0 text ≡ leading 0 0 b
  unfolding text
  text-leading =
      leading-leading b (letters digits)
      ∙ rw (leading-letters digits digits-head digits-below) (append-nil (leading 0 0 b))

  text-digits : digits_loop 256 (length text) number [] ≡ strip b
  unfolding number
  text-digits =
      ap (λ n. digits_loop 256 (length text) n []) (sym (value-strip b))
      ∙ digits_of (length text) (strip b) (strip-head b) (strip-small b small)
          (rw (value-strip b) number-text)

  text-back : base58_decode text ≡ ok b
  unfolding base58_decode
  text-back = rw (text-decodes, text-leading, text-digits) (ap ok (leading-strip b))

  text-full : b ≢ [] → or_one text ≡ text
  text-full ne = or_one-full text (λ e. ne (sym (leading-strip b) ∙ empty_parts e))
    where
      empty_parts : text ≡ [] → leading 0 0 b ++ strip b ≡ []
      empty_parts e =
          ap (λ t. t ++ strip b) (sym text-leading)
          ∙ ap (λ t. leading b'1' 0 text ++ t) (sym text-digits)
          ∙ ap (λ t. leading b'1' 0 t ++ digits_loop 256 (length t) number []) e
          ∙ no_rounds number

-- Decoding gives back every byte string but the empty one, which is written as "1", as one zero byte is.
pub decode-encode :
    (b : Bytes) → All (λ c. c < 256) b → b ≢ [] → base58_decode (base58_encode b) ≡ ok b
unfolding base58_encode text digits number
decode-encode b small ne = ap base58_decode (text-full b small ne) ∙ text-back b small
