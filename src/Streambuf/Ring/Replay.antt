-- ===== src/Streambuf/Ring/Replay.antt =====
-- streambuf/output_ring.go: what `From` replays, in terms of the history, and how a reattaching client
-- (attach/attach.go, vterm/vterm.go) uses it.
use mosey.Base.{ℕ, ◌+◌, ◌-◌, ◌^◌, ◌≤◌, ◌<◌, ◌≡◌, refl, ap, arith, ◌++◌, [], Bytes}
use mosey.Base.{length, take, drop, drop_all, drop-drop, length-append, length-take, length-drop}
use mosey.Base.{take-append-drop, if◌then◌else◌, ltb, leb, ◌==◌, Option, none, some}
use mosey.Streambuf.Ring.{OutputRing, RingError, seq_behind_ring, replay_start, from}
use mosey.Streambuf.Ring.{next_seq}
use mosey.Base.Words.{sub64}
use mosey.Streambuf.Ring.History.{Represents, Represents-length, next_seq-history}

-- What a client at `since` is owed by a server that kept the last `capacity` bytes of a history.
abbrev pub owed : ℕ → Bytes → ℕ → Bytes
owed capacity history since =
    if ltb (length history) since
    then []
    else drop
        (if leb since (length history - capacity) then length history - capacity else since - 1)
        history

-- Whether bytes from `since` on have been lost; a fresh attach claims none.
abbrev pub lost : ℕ → Bytes → ℕ → Option RingError
lost capacity history since =
    if since == 0
    then none
    else if leb since (length history - capacity)
    then some seq_behind_ring
    else none

drop_twice : (k n m : ℕ) (h : Bytes) → n + k ≡ m → drop k (drop n h) ≡ drop m h
drop_twice k n m h e = rw (drop-drop n k h, e)

from-out :
    (r : OutputRing) (h : Bytes) (since : ℕ)
    → Represents r h
    → since < 2 ^ 64
    → (from r since).out ≡ owed r.capacity h since
unfolding from
from-out r h since v s = ground (
  arith,
  v.retained,
  v.numbered,
  v.positive,
  v.counted,
  Represents-length r h v,
  next_seq-history r h v,
  drop_all (length h - r.capacity) h,
  drop_twice 0 (length h - r.capacity) (length h - r.capacity) h,
  drop_twice (sub64 since r.first_seq) (length h - r.capacity) (since - 1) h,
)

from-rest :
    (r : OutputRing) (h : Bytes) (since : ℕ)
    → Represents r h
    → since < 2 ^ 64
    → ((from r since).next_seq ≡ 1 + length h)
      × ((from r since).error ≡ (if ltb (length h) since then none else lost r.capacity h since))
unfolding from
from-rest r h since v s =
    ground
      (arith, v.numbered, v.positive, v.counted, Represents-length r h v, next_seq-history r h v)

-- On a ring that stands for the history `h`, `from` replays the part of `h` from `since` on that the
-- capacity kept, reports the next sequence, and errs exactly where part of that has been lost.
pub from-history :
    (r : OutputRing) (h : Bytes) (since : ℕ)
    → Represents r h
    → since < 2 ^ 64
    → ((from r since).out ≡ owed r.capacity h since)
      × ((from r since).next_seq ≡ 1 + length h)
      × ((from r since).error ≡ (if ltb (length h) since then none else lost r.capacity h since))
from-history r h since v s = let (n, e) = from-rest r h since v s in (from-out r h since v s, n, e)

from_within :
    (r : OutputRing) (h : Bytes) (n since : ℕ)
    → Represents r h
    → since ≡ n + 1
    → length h - r.capacity ≤ n
    → n ≤ length h
    → (from r since).out ≡ drop n h
from_within r h n since v e lo hi =
    ground (arith, v.counted, from-out r h since v (omega arith), drop_all n h, cut)
  where
    cut : drop (since - 1) h ≡ drop n h
    cut = let q : since - 1 ≡ n = omega arith in rw q

-- A client that holds the first `n` bytes of the history and asks from byte `n + 1` on, within the
-- retained window, gets exactly the missing bytes.
take-append-from :
    (r : OutputRing) (h : Bytes) (n : ℕ)
    → Represents r h
    → length h - r.capacity ≤ n
    → n ≤ length h
    → take n h ++ (from r (n + 1)).out ≡ h
take-append-from r h n v lo hi = rw (from_within r h n (n + 1) v refl lo hi) (take-append-drop n h)

-- `attach` asks from its count `n` of rendered bytes on instead: within the window the byte that
-- it rendered last comes once more, so its output is one byte longer than the history.
resume_repeats :
    (r : OutputRing) (h : Bytes) (n : ℕ)
    → Represents r h
    → length h - r.capacity < n
    → n ≤ length h
    → (take n h ++ (from r n).out ≡ take n h ++ drop (n - 1) h)
      × (length (take n h ++ (from r n).out) ≡ length h + 1)
resume_repeats r h n v lo hi = (
  ap (◌++◌ (take n h)) again,
  omega (
    arith,
    length-append (take n h) (from r n).out,
    length-take n h,
    length-drop (n - 1) h,
    ap length again,
  ),
)
  where
    again : (from r n).out ≡ drop (n - 1) h
    again = from_within r h (n - 1) n v (omega arith) (omega arith) (omega arith)

-- `replay_start` never lies beyond the retained bytes, whatever the ring's counters are, so the copy
-- of `From` cannot be out of range, also where the sequence numbers have wrapped.
replay_start-le :
    (r : OutputRing) (since : ℕ)
    → r.first_seq < 2 ^ 64
    → length r.bytes < 2 ^ 64
    → since < next_seq r
    → (replay_start r since).0 ≤ length r.bytes
unfolding replay_start
replay_start-le r since f l s = ground arith
