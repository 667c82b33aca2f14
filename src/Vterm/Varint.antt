-- ===== src/Vterm/Varint.antt =====
-- vterm/session.go: the varint header of a resumed stream, encodeResumeSeq and readResumeSeq.
use Prim.Native.Nat.{bit_and, bit_or}
use mosey.Base.{ℕ, zero, suc, ◌+◌, ◌*◌, ◌/◌, ◌%◌, ◌^◌, ◌≤◌, ◌<◌, ◌≡◌, refl, ap, ◌∙◌, arith}
use mosey.Base.{[], ◌∷◌, ◌++◌, Bytes, length, Option, none, some, Result, ok, err, Bool-cases}
use mosey.Base.{inl, inr, All, ltb, ◌==◌, if◌then◌else◌}
use native.Mathlib.Nat.{div-add-mod, pow-suc}
use mosey.Base.Bits.{bit_and-0x7f, bit_and-0x80, bit_or-0x80, bit_or_shifted, pow-add_seven}

-- What a reader answers behind its last byte: an error, or no byte and no error.
pub data ReadError : Type 0 where
  eof unexpected_eof reset : ReadError

pub data VarintError : Type 0 where
  read_failed : ReadError → VarintError
  varint_overflow : VarintError

-- The loop of encodeResumeSeq with `slots` bytes of the array `out` left, from `out[i]` on. A write
-- past the array's end would panic: `none`.
unfoldable pub encode_loop : ℕ → ℕ → Option Bytes
encode_loop zero v = none
encode_loop (suc slots) v =
    let more = encode_loop slots (v / 128) in
    if ltb v 0x80
    then some (v % 256 ∷ [])
    else elim more [ none ↦ none | some bs ↦ some (bit_or (v % 256) 0x80 ∷ bs) ]

-- encodeResumeSeq
unfoldable pub encode_resume_seq : ℕ → Option Bytes
unfolding encode_loop
encode_resume_seq v = encode_loop 10 v

abbrev read_error : Option ReadError → ReadError
read_error none = unexpected_eof
read_error (some e) = e

-- The loop of readResumeSeq with `rounds` rounds left, over the bytes that the reader still has and
-- what it answers behind them. A byte that comes with an error counts.
read_loop : ℕ → Bytes → Option ReadError → ℕ → ℕ → Result VarintError (ℕ × Bytes)
read_loop zero bs end result shift = err varint_overflow
read_loop (suc rounds) [] end result shift = err (read_failed (read_error end))
read_loop (suc rounds) (b ∷ bs) end result shift =
    let result' = bit_or result (bit_and b 0x7f * 2 ^ shift % 2 ^ 64) in
    let more = read_loop rounds bs end result' (shift + 7) in
    if bit_and b 0x80 == 0 then ok (result', bs) else more

-- readResumeSeq: the sequence, and the bytes that stay in the reader.
unfoldable pub read_resume_seq : Bytes → Option ReadError → Result VarintError (ℕ × Bytes)
unfolding read_loop
read_resume_seq bs end = read_loop 10 bs end 0 0

-- One round of the reader on a last byte, and on one with the top bit set over the group `g`.
read_last :
    (k w : ℕ) (bs : Bytes) (end : Option ReadError) (result shift : ℕ)
    → w < 128
    → result < 2 ^ shift
    → result + w * 2 ^ shift < 2 ^ 64
    → read_loop (suc k) (w ∷ bs) end result shift ≡ ok (result + w * 2 ^ shift, bs)
unfolding read_loop
read_last k w bs end result shift small low fits =
    ground (arith, bit_and-0x7f w, bit_and-0x80 w, bit_or_shifted shift result w)

read_inner :
    (k g : ℕ) (bs : Bytes) (end : Option ReadError) (result shift : ℕ)
    → g < 128
    → result < 2 ^ shift
    → result + g * 2 ^ shift < 2 ^ 64
    → read_loop (suc k) ((g + 128) ∷ bs) end result shift
      ≡ read_loop k bs end (result + g * 2 ^ shift) (shift + 7)
unfolding read_loop
read_inner k g bs end result shift small low fits =
    ground (arith, bit_and-0x7f (g + 128), bit_and-0x80 (g + 128), bit_or_shifted shift result g)

-- `v` from bit `shift` on is its lowest group and the rest.
split_group : (v s : ℕ) → v * 2 ^ s ≡ v % 128 * 2 ^ s + v / 128 * 2 ^ (s + 7)
split_group v s = omega (
  arith,
  ap (λ (t : ℕ). t * 2 ^ s) (div-add-mod v 128),
  ap (λ (t : ℕ). v / 128 * t) (pow-add_seven s),
)

-- What the writer needs and the reader does, for a number that fits `k + 1` groups.
record Carries (k v : ℕ) (rest : Bytes) (end : Option ReadError) (result shift : ℕ) : Type 0 where
  bytes : Bytes
  written : encode_loop (suc k) v ≡ some bytes
  long : length bytes ≤ suc k
  read : read_loop (suc k) (bytes ++ rest) end result shift ≡ ok (result + v * 2 ^ shift, rest)

written_last : (k v : ℕ) → v < 128 → encode_loop (suc k) v ≡ some (v ∷ [])
unfolding encode_loop
written_last k v h = ground arith

written_inner :
    (k v : ℕ) (bs : Bytes)
    → 128 ≤ v
    → encode_loop k (v / 128) ≡ some bs
    → encode_loop (suc k) v ≡ some ((v % 128 + 128) ∷ bs)
unfolding encode_loop
written_inner k v bs h e = ground (arith, bit_or-0x80 (v % 256))

last-Carries :
    (k v : ℕ) (rest : Bytes) (end : Option ReadError) (result shift : ℕ)
    → v < 128
    → result < 2 ^ shift
    → result + v * 2 ^ shift < 2 ^ 64
    → Carries k v rest end result shift
last-Carries k v rest end result shift small low fits = record {
  bytes = v ∷ [];
  written = written_last k v small;
  long = omega arith;
  read = read_last k v rest end result shift small low fits;
}

inner-Carries :
    (k v : ℕ) (rest : Bytes) (end : Option ReadError) (result shift : ℕ)
    → 128 ≤ v
    → result < 2 ^ shift
    → result + v * 2 ^ shift < 2 ^ 64
    → Carries k (v / 128) rest end (result + v % 128 * 2 ^ shift) (shift + 7)
    → Carries (suc k) v rest end result shift
inner-Carries k v rest end result shift big low fits c = record {
  bytes = (v % 128 + 128) ∷ c.bytes;
  written = written_inner (suc k) v c.bytes big c.written;
  long = omega (arith, c.long);
  read =
      read_inner (suc k) (v % 128) (c.bytes ++ rest) end result shift (omega arith) low
        (omega (arith, split_group v shift))
      ∙ c.read
      ∙ ap (λ t. ok (t, rest)) (omega (arith, split_group v shift));
}

loop-Carries :
    (k v : ℕ) (rest : Bytes) (end : Option ReadError) (result shift : ℕ)
    → v < 128 ^ suc k
    → result < 2 ^ shift
    → result + v * 2 ^ shift < 2 ^ 64
    → Carries k v rest end result shift
loop-Carries zero v rest end result shift small low fits =
    last-Carries zero v rest end result shift (omega arith) low fits
loop-Carries (suc k) v rest end result shift small low fits = elim (Bool-cases (ltb v 128)) [
  | inl short ↦ last-Carries (suc k) v rest end result shift (ground arith) low fits
  | inr long ↦ inner-Carries k v rest end result shift (ground arith) low fits (
      loop-Carries k (v / 128) rest end (result + v % 128 * 2 ^ shift) (shift + 7)
        (omega (arith, pow-suc 128 (suc k))) (omega (arith, grow, pow-add_seven shift))
        (omega (arith, split_group v shift)))
]
  where
    grow : v % 128 * 2 ^ shift ≤ 127 * 2 ^ shift
    grow = grind arith

-- Every uint64 is encoded, without running past the array, in at most ten bytes, and the reader
-- gives back the number and leaves whatever follows it.
pub read-encode :
    (v : ℕ) (rest : Bytes) (end : Option ReadError)
    → v < 2 ^ 64
    → (bs : Bytes) × (encode_resume_seq v ≡ some bs)
      × (length bs ≤ 10)
      × (read_resume_seq (bs ++ rest) end ≡ ok (v, rest))
unfolding encode_resume_seq read_resume_seq
read-encode v rest end h =
    (c.bytes, c.written, c.long, c.read ∙ ap (λ t. ok (t, rest)) (omega arith))
  where
    c : Carries 9 v rest end 0 0
    c = loop-Carries 9 v rest end 0 0 (omega arith) (omega arith) (omega arith)

read_overflow_loop :
    (k : ℕ) (bs : Bytes) (end : Option ReadError) (result shift : ℕ)
    → length bs ≡ k
    → All (λ b. (128 ≤ b) × (b < 256)) bs
    → (rest : Bytes) → read_loop k (bs ++ rest) end result shift ≡ err varint_overflow
unfolding read_loop
read_overflow_loop zero [] end result shift e all rest = refl
read_overflow_loop (suc k) (b ∷ bs) end result shift e all rest = ground (
  arith,
  bit_and-0x80 b,
  read_overflow_loop k bs end (bit_or result (bit_and b 0x7f * 2 ^ shift % 2 ^ 64)) (shift + 7)
      (omega arith) all.1 rest,
)
read_overflow_loop zero (b ∷ bs) end result shift e all rest = absurd (omega arith)
read_overflow_loop (suc k) [] end result shift e all rest = absurd (omega arith)

-- The reader gives up within ten bytes: where ten bytes all ask for more, it refuses the stream,
-- whatever follows them.
read_overflow :
    (bs rest : Bytes) (end : Option ReadError)
    → length bs ≡ 10
    → All (λ b. (128 ≤ b) × (b < 256)) bs
    → read_resume_seq (bs ++ rest) end ≡ err varint_overflow
unfolding read_resume_seq
read_overflow bs rest end e all = read_overflow_loop 10 bs end 0 0 e all rest
