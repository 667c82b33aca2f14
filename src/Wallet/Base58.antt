-- ===== src/Wallet/Base58.antt =====
-- wallet/base58.go: base58 over the Bitcoin alphabet. A big.Int is a natural number. A character that is
-- not ASCII is several bytes here and one rune there; neither is in the alphabet.
pub mod Digits
pub mod Letters
pub mod RoundTrip
use mosey.Base.{ℕ, zero, suc, ◌+◌, ◌*◌, ◌/◌, ◌%◌, Option, none, some, List, [], ◌∷◌, ◌++◌, Bytes}
use mosey.Base.{codes, length, ◌==◌, if◌then◌else◌, Result, ok, err, ◌>>=◌, unless}

abbrev pub base58_alphabet : Bytes
base58_alphabet = codes "123456789ABCDEFGHJKLMNPQRSTUVWXYZabcdefghijkmnopqrstuvwxyz"

pub data Base58Error : Type 0 where
  invalid_character : ℕ → Base58Error
  wrong_size : ℕ → Base58Error

-- big.Int.SetBytes, and the value of digits in general: the most significant comes first.
unfoldable pub value_loop : ℕ → ℕ → List ℕ → ℕ
value_loop radix n [] = n
value_loop radix n (d ∷ ds) = value_loop radix (n * radix + d) ds

-- The digits of a number, the most significant first, put before `low`; `rounds` bounds their count.
-- With radix 256 this is big.Int.Bytes, with radix 58 the first loop of base58Encode and its reversal.
unfoldable pub digits_loop : ℕ → ℕ → ℕ → List ℕ → List ℕ
digits_loop radix zero n low = low
digits_loop radix (suc rounds) n low =
    let more = digits_loop radix rounds (n / radix) (n % radix ∷ low) in
    if n == 0 then low else more

-- `base58Alphabet[i]`
unfoldable pub letter : Bytes → ℕ → ℕ
letter [] i = 0
letter (c ∷ cs) zero = c
letter (c ∷ cs) (suc i) = letter cs i

-- strings.IndexRune in the alphabet, from position `i` on.
unfoldable pub index_from : ℕ → Bytes → ℕ → Option ℕ
index_from i [] r = none
index_from i (c ∷ cs) r = let rest = index_from (suc i) cs r in if c == r then some i else rest

unfoldable pub letters : List ℕ → Bytes
letters [] = []
letters (d ∷ ds) = letter base58_alphabet d ∷ letters ds

-- The loops over leading zero bytes and over leading '1's.
unfoldable pub leading : ℕ → ℕ → Bytes → Bytes
leading x y [] = []
leading x y (b ∷ bs) = let rest = leading x y bs in if b == x then y ∷ rest else []

abbrev pub or_one : Bytes → Bytes
or_one [] = b'1' ∷ []
or_one (c ∷ cs) = c ∷ cs

-- base58Encode. 58 ^ 2 is more than 256, so two digits a byte are enough.
unfoldable pub base58_encode : Bytes → Bytes
base58_encode b =
    or_one (leading 0 b'1' b ++ letters (digits_loop 58 (2 * length b) (value_loop 256 0 b) []))

-- The loop of base58Decode.
unfoldable pub decode_loop : ℕ → Bytes → Result Base58Error ℕ
decode_loop n [] = ok n
decode_loop n (c ∷ cs) = elim (index_from 0 base58_alphabet c) [
  | none ↦ err (invalid_character c)
  | some i ↦ decode_loop (n * 58 + i) cs
]

-- base58Decode. 58 is less than 256, so a byte a digit is enough.
unfoldable pub base58_decode : Bytes → Result Base58Error Bytes
base58_decode s = decode_loop 0 s >>= λ n. ok (leading b'1' 0 s ++ digits_loop 256 (length s) n [])

-- ParseAddress
unfoldable pub parse_address : Bytes → Result Base58Error Bytes
parse_address s = base58_decode s >>= λ b. unless (length b == 32) (wrong_size (length b)) (ok b)
