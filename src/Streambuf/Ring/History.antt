-- ===== src/Streambuf/Ring/History.antt =====
-- streambuf/output_ring.go against its contract: a ring stands for the history of all bytes written
-- since it was made or reset, and holds the end of that history.
use mosey.Base.{
  ℕ, ◌+◌, ◌-◌, ◌^◌, ◌≤◌, ◌<◌, ◌≡◌, refl, ap, ◌∙◌, arith, ◌++◌, [], ◌∷◌, append-nil, Bytes,
}
use mosey.Base.{
  length, drop, length-append, length-drop, drop-drop, drop-append_le, drop-append_add,
}
use mosey.Streambuf.Ring.{OutputRing, append_bytes, write, next_seq, new_output_ring, reset}
use mosey.Base.Words.{ℤ, pos, negsuc}

-- The ring holds the last `capacity` bytes of the history, numbered from 1 on.
pub record Represents (r : OutputRing) (history : Bytes) : Type 0 where
  pub retained : r.bytes ≡ drop (length history - r.capacity) history
  pub numbered : r.first_seq ≡ 1 + (length history - r.capacity)
  pub positive : 0 < r.capacity
  pub counted : length history + 1 < 2 ^ 64

-- What a well-formed ring retains, in numbers.
pub Represents-length :
    (r : OutputRing) (h : Bytes)
    → Represents r h
    → length r.bytes ≡ length h - (length h - r.capacity)
Represents-length r h v = ap length v.retained ∙ length-drop (length h - r.capacity) h

pub next_seq-history : (r : OutputRing) (h : Bytes) → Represents r h → next_seq r ≡ 1 + length h
next_seq-history r h v = omega (arith, Represents-length r h v, v.numbered, v.counted)

-- Dropping from a front part that was itself cut, with something appended.
cut_again :
    (k n m : ℕ) (h p : Bytes) → n + k ≡ m → m ≤ length h → drop k (drop n h) ++ p ≡ drop m (h ++ p)
cut_again k n m h p e fits = rw (drop-drop n k h, e, drop-append_le m h p fits)

keep_tail : (m k : ℕ) (h p : Bytes) → length h + k ≡ m → drop m (h ++ p) ≡ drop k p
keep_tail m k h p e = rw (← e) (drop-append_add k h p)

module _ (r : OutputRing) (h p : Bytes) (v : Represents r h) where
  append_bytes-bytes : (append_bytes r p).bytes ≡ drop (length h + length p - r.capacity) (h ++ p)
  unfolding append_bytes
  append_bytes-bytes = ground (
    arith,
    v.retained,
    Represents-length r h v,
    keep_tail (length h + length p - r.capacity) (length p - r.capacity) h p,
    cut_again (length r.bytes + length p - r.capacity) (length h - r.capacity)
        (length h + length p - r.capacity) h p,
    cut_again 0 (length h - r.capacity) (length h + length p - r.capacity) h p,
  )

  append_bytes-first_seq :
      length h + length p + 1 < 2 ^ 64
      → (append_bytes r p).first_seq ≡ 1 + (length h + length p - r.capacity)
  unfolding append_bytes
  append_bytes-first_seq fits = ground (arith, v.numbered, v.positive, Represents-length r h v)

  append_bytes-capacity : (append_bytes r p).capacity ≡ r.capacity
  unfolding append_bytes
  append_bytes-capacity = ground arith

append_bytes-Represents :
    (r : OutputRing) (h p : Bytes)
    → Represents r h
    → length h + length p + 1 < 2 ^ 64
    → Represents (append_bytes r p) (h ++ p)
append_bytes-Represents r h p v fits = record {
  retained = rw (append_bytes-capacity r h p v, length-append h p) (append_bytes-bytes r h p v);
  numbered =
      rw (append_bytes-capacity r h p v, length-append h p) (append_bytes-first_seq r h p v fits);
  positive = rw (append_bytes-capacity r h p v) v.positive;
  counted = omega (arith, length-append h p);
}

write-cons :
    (r : OutputRing) (x : ℕ) (p : Bytes)
    → write r (x ∷ p) ≡ (append_bytes r (x ∷ p), next_seq r, length (x ∷ p))
unfolding write
write-cons r x p = ground arith

-- `write` of `p` to a ring that stands for `h` gives one that stands for `h ++ p`, as long as the
-- sequence numbers fit 64 bits; it reports the sequence of the first byte of `p` and takes it all.
pub write-Represents :
    (r : OutputRing) (h p : Bytes)
    → Represents r h
    → length h + length p + 1 < 2 ^ 64
    → Represents (write r p).0 (h ++ p)
      × ((write r p).1 ≡ 1 + length h)
      × ((write r p).2 ≡ length p)
unfolding write
write-Represents r h [] v fits = (rw (append-nil h) v, next_seq-history r h v, refl)
write-Represents r h (x ∷ p) v fits =
    rw (write-cons r x p) (append_bytes-Represents r h (x ∷ p) v fits, next_seq-history r h v, refl)

-- A new ring and a reset one stand for the empty history.
pub new_output_ring-Represents : (capacity : ℤ) → Represents (new_output_ring capacity) []
unfolding new_output_ring
new_output_ring-Represents (pos n) = ground arith
new_output_ring-Represents (negsuc n) = ground arith

pub reset-Represents : (r : OutputRing) (h : Bytes) → Represents r h → Represents (reset r) []
unfolding reset
reset-Represents r h v = ground (arith, v.positive)
