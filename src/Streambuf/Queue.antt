-- ===== src/Streambuf/Queue.antt =====
-- streambuf/input_queue.go: InputQueue. Every method holds the mutex throughout. `int` counters are
-- natural numbers: `bytes` is the sum of the chunks' lengths (Queue/Laws), so no difference is negative.
pub mod Laws
use mosey.Base.{ℕ, ◌+◌, ◌-◌, Option, none, some, List, [], ◌∷◌, ◌++◌, Bytes}
use mosey.Base.{ltb, leb, ◌==◌, if◌then◌else◌, length, drop}
use mosey.Base.Words.{ℤ, pos, negsuc}

abbrev pub default_input_queue_bytes : ℕ
default_input_queue_bytes = 65536

pub data DropPolicy : Type 0 where
  drop_oldest drop_new : DropPolicy

-- ErrQueueFull
pub data QueueError : Type 0 where
  queue_full : QueueError

pub record InputQueue : Type 0 where
  pub chunks : List Bytes
  pub bytes : ℕ
  pub capacity : ℕ
  pub policy : DropPolicy

-- What Enqueue returns, with the queue it leaves.
pub record Enqueued : Type 0 where
  pub queue : InputQueue
  pub dropped : ℕ
  pub error : Option QueueError

queue_capacity : ℤ → ℕ
queue_capacity (pos n) = if n == 0 then default_input_queue_bytes else n
queue_capacity (negsuc n) = default_input_queue_bytes

unfoldable pub new_input_queue : ℤ → DropPolicy → InputQueue
unfolding queue_capacity
new_input_queue capacity policy = record {
  chunks = [];
  bytes = 0;
  capacity = queue_capacity capacity;
  policy = policy;
}

-- The `for` loop of Enqueue for a chunk of `n` bytes: the chunks that stay, their bytes, and the
-- bytes dropped.
unfoldable pub evict : ℕ → ℕ → List Bytes → ℕ → ℕ → List Bytes × ℕ × ℕ
evict capacity n [] bytes dropped = ([], bytes, dropped)
evict capacity n (head ∷ rest) bytes dropped =
    if ltb capacity (bytes + n)
    then evict capacity n rest (bytes - length head) (dropped + length head)
    else (head ∷ rest, bytes, dropped)

-- Refused under DropNew; otherwise the queue becomes the end of the chunk.
unfoldable pub enqueue_oversized : InputQueue → Bytes → DropPolicy → Enqueued
enqueue_oversized q chunk drop_new = record { queue = q; dropped = 0; error = some queue_full }
enqueue_oversized q chunk drop_oldest =
    let tail = drop (length chunk - q.capacity) chunk in
    record {
      queue = record q { chunks = tail ∷ []; bytes = length tail };
      dropped = q.bytes + (length chunk - q.capacity);
      error = none;
    }

unfoldable pub enqueue_evicting : InputQueue → Bytes → DropPolicy → Enqueued
enqueue_evicting q chunk drop_new = record { queue = q; dropped = 0; error = some queue_full }
enqueue_evicting q chunk drop_oldest =
    let (kept, bytes, dropped) = evict q.capacity (length chunk) q.chunks q.bytes 0 in
    record {
      queue = record q { chunks = kept ++ chunk ∷ []; bytes = bytes + length chunk };
      dropped = dropped;
      error = none;
    }

-- Enqueue
unfoldable pub enqueue : InputQueue → Bytes → Enqueued
enqueue q chunk =
    if length chunk == 0
    then record { queue = q; dropped = 0; error = none }
    else if ltb q.capacity (length chunk)
    then enqueue_oversized q chunk q.policy
    else if leb (q.bytes + length chunk) q.capacity
    then record {
      queue = record q { chunks = q.chunks ++ chunk ∷ []; bytes = q.bytes + length chunk };
      dropped = 0;
      error = none;
    }
    else enqueue_evicting q chunk q.policy

-- Drain
unfoldable pub drain : InputQueue → InputQueue × List Bytes
drain q = (record q { chunks = []; bytes = 0 }, q.chunks)

-- Reset
unfoldable pub reset : InputQueue → InputQueue
reset q = record q { chunks = []; bytes = 0 }
