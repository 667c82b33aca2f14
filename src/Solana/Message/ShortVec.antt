-- ===== src/Solana/Message/ShortVec.antt =====
-- walletsolana/tx.go: the compact-u16 lengths, read back.
use mosey.Base.{
  ℕ, zero, suc, ◌+◌, ◌-◌, ◌*◌, ◌/◌, ◌%◌, ◌≤◌, Option, none, some, [], ◌∷◌, ◌++◌, Bytes,
}
use mosey.Base.{true, false, ltb, ◌==◌, if◌then◌else◌, ◌≡◌, refl, arith, Bool-cases, inl, inr}
use mosey.Solana.Message.{short_vec_loop, append_short_vec}

-- A reader of such lengths: seven bits a byte, the lowest first, and the top bit where more follow.
abbrev join_group : ℕ → Option (ℕ × Bytes) → Option (ℕ × Bytes)
join_group g none = none
join_group g (some (v, rest)) = some (g + 128 * v, rest)

unfoldable read_short_vec : Bytes → Option (ℕ × Bytes)
read_short_vec [] = none
read_short_vec (b ∷ bs) =
    let more = read_short_vec bs in if ltb b 128 then some (b, bs) else join_group (b - 128) more

short_vec_loop-read :
    (fuel n : ℕ) (rest : Bytes)
    → n ≤ fuel
    → read_short_vec (short_vec_loop fuel n ++ rest) ≡ some (n, rest)
unfolding read_short_vec short_vec_loop
short_vec_loop-read zero n rest h =
    let e : ltb (n % 128) 128 ≡ true = ground arith in
    let f : n % 128 ≡ n = ground arith in rw e (rw f refl)
short_vec_loop-read (suc fuel) n rest h = elim (Bool-cases (n / 128 == 0)) [
  | inl last ↦
      let e : ltb (n % 128) 128 ≡ true = ground arith in
      let f : n % 128 ≡ n = ground arith in rw (last, e) (rw f refl)
  | inr more ↦
      let e : ltb (n % 128 + 128) 128 ≡ false = ground arith in
      let f : n % 128 + 128 - 128 + 128 * (n / 128) ≡ n = ground arith in
      rw (more, e, short_vec_loop-read fuel (n / 128) rest (ground arith), f) refl
]

-- A length that appendShortVec writes is read back, whatever its size and whatever follows it; and what
-- was in the buffer before stays.
append_short_vec-read :
    (dst : Bytes) (n : ℕ) (rest : Bytes)
    → (bs : Bytes) × (append_short_vec dst n ≡ dst ++ bs)
      × (read_short_vec (bs ++ rest) ≡ some (n, rest))
unfolding append_short_vec
append_short_vec-read dst n rest =
    (short_vec_loop n n, refl, short_vec_loop-read n n rest (omega arith))
