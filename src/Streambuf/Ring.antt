-- ===== src/Streambuf/Ring.antt =====
-- streambuf/output_ring.go: OutputRing, one definition for each method. Every method holds the mutex
-- throughout, so a method is a function from the ring to the ring. Slice lengths are far below 2^63,
-- so `int` sums do not wrap; the sequence numbers are uint64 and their wrap-around is written out.
pub mod History
pub mod Replay
use mosey.Base.{ℕ, ◌+◌, ◌-◌, Bool, true, false, Option, none, some, ◌++◌, [], Bytes}
use mosey.Base.{ltb, leb, ◌==◌, if◌then◌else◌, length, drop}
use mosey.Base.Words.{ℤ, pos, negsuc, add64, sub64}

abbrev pub default_output_ring_bytes : ℕ
default_output_ring_bytes = 262144

-- ErrSeqBehindRing
pub data RingError : Type 0 where
  seq_behind_ring : RingError

-- `bytes` is Go's `data`.
pub record OutputRing : Type 0 where
  pub bytes : Bytes
  pub capacity : ℕ
  pub first_seq : ℕ

-- State
pub record RingState : Type 0 where
  pub first_seq : ℕ
  pub next_seq : ℕ
  pub retained : ℕ

-- The three results of From.
pub record Replayed : Type 0 where
  pub out : Bytes
  pub next_seq : ℕ
  pub error : Option RingError

-- A capacity that is not positive means the default.
ring_capacity : ℤ → ℕ
ring_capacity (pos n) = if n == 0 then default_output_ring_bytes else n
ring_capacity (negsuc n) = default_output_ring_bytes

unfoldable pub new_output_ring : ℤ → OutputRing
unfolding ring_capacity
new_output_ring capacity = record { bytes = []; capacity = ring_capacity capacity; first_seq = 1 }

-- nextSeqLocked
abbrev pub next_seq : OutputRing → ℕ
next_seq r = add64 r.first_seq (length r.bytes)

-- The body of Write behind the guard for an empty `p`. `overflow` is an `int` that may be negative
-- in Go, where nothing is evicted; here it is 0 then.
unfoldable pub append_bytes : OutputRing → Bytes → OutputRing
append_bytes r p =
    if leb r.capacity (length p)
    then record r {
      bytes = drop (length p - r.capacity) p;
      first_seq = add64 (next_seq r) (length p - r.capacity);
    }
    else (let overflow = length r.bytes + length p - r.capacity in
        if ltb 0 overflow
        then record r { bytes = drop overflow r.bytes ++ p; first_seq = add64 r.first_seq overflow }
        else record r { bytes = r.bytes ++ p })

-- Write: the ring, the sequence of the first byte written, and the number of bytes.
unfoldable pub write : OutputRing → Bytes → OutputRing × ℕ × ℕ
write r p = if length p == 0 then (r, next_seq r, 0) else (append_bytes r p, next_seq r, length p)

-- State
unfoldable pub state : OutputRing → RingState
state r =
    if length r.bytes == 0
    then record { first_seq = r.first_seq; next_seq = r.first_seq; retained = 0 }
    else record { first_seq = r.first_seq; next_seq = next_seq r; retained = length r.bytes }

-- The `switch` of From: where the copy starts, and whether evicted output was missed.
unfoldable pub replay_start : OutputRing → ℕ → ℕ × Bool
replay_start r since =
    if since == 0
    then (0, false)
    else if ltb since r.first_seq
    then (0, true)
    else (sub64 since r.first_seq, false)

-- From
unfoldable pub from : OutputRing → ℕ → Replayed
unfolding replay_start
from r since =
    if length r.bytes == 0
    then record { out = []; next_seq = r.first_seq; error = none }
    else if leb (next_seq r) since
    then record { out = []; next_seq = next_seq r; error = none }
    else (let (start, dropped) = replay_start r since in
        record {
          out = drop start r.bytes;
          next_seq = next_seq r;
          error = if dropped then some seq_behind_ring else none;
        })

-- Reset
unfoldable pub reset : OutputRing → OutputRing
reset r = record r { bytes = []; first_seq = 1 }
