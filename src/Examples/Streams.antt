-- ===== src/Examples/Streams.antt =====
-- The theorems on streambuf/, the modes, the varint header and the responder at concrete inputs.
use mosey.Base.{ℕ, ◌+◌, ◌≡◌, refl, arith, [], ◌∷◌, ◌++◌, Bytes}
use mosey.Base.{codes, length, none, if◌then◌else◌, ltb}
use mosey.Base.Words.{pos}
use mosey.Streambuf.Ring.{OutputRing, new_output_ring, write, from}
use mosey.Streambuf.Ring.History.{Represents, write-Represents, new_output_ring-Represents}
use mosey.Streambuf.Ring.Replay.{owed, lost, from-history}
use mosey.Streambuf.Ring.{append_bytes}
use mosey.Streambuf.Queue.{enqueue_evicting, evict}
use mosey.Streambuf.Queue.{InputQueue, new_input_queue, drop_oldest, enqueue}
use mosey.Streambuf.Queue.Laws.{IsValid, Outcome, enqueue-Outcome}
use mosey.Vterm.Responder.{fresh, process, esc}
use mosey.Vterm.Responder.Splits.{Splits, process-Splits}
use mosey.Vterm.Responder.Chunks.{after, process-append}

abbrev six : Bytes
six = 1 ∷ 2 ∷ 3 ∷ 4 ∷ 5 ∷ 6 ∷ []

abbrev empty_ring : OutputRing
empty_ring = new_output_ring (pos 4)

-- A ring of four bytes that six were written to.
abbrev wrapped_ring : OutputRing
wrapped_ring = (write empty_ring six).0

wrapped_ring-Represents : Represents wrapped_ring six
wrapped_ring-Represents =
    (write-Represents empty_ring [] six (new_output_ring-Represents (pos 4)) (omega arith)).0

write-Represents_example :
    Represents (write empty_ring six).0 ([] ++ six)
    × ((write empty_ring six).1 ≡ 1 + length {A = ℕ} [])
    × ((write empty_ring six).2 ≡ length six)
write-Represents_example =
    write-Represents empty_ring [] six (new_output_ring-Represents (pos 4)) (omega arith)

from-history_example :
    ((from wrapped_ring 5).out ≡ owed wrapped_ring.capacity six 5)
    × ((from wrapped_ring 5).next_seq ≡ 1 + length six)
    × ((from wrapped_ring 5).error
        ≡ (if ltb (length six) 5 then none else lost wrapped_ring.capacity six 5))
from-history_example = from-history wrapped_ring six 5 wrapped_ring-Represents (omega arith)

wrapped_ring-capacity : wrapped_ring.capacity ≡ 4
unfolding write append_bytes new_output_ring
wrapped_ring-capacity = refl

wrapped_ring-bytes : wrapped_ring.bytes ≡ 3 ∷ 4 ∷ 5 ∷ 6 ∷ []
unfolding write append_bytes new_output_ring
wrapped_ring-bytes = refl

wrapped_ring-first_seq : wrapped_ring.first_seq ≡ 3
unfolding write append_bytes new_output_ring
wrapped_ring-first_seq = refl

abbrev small_queue : InputQueue
small_queue = (enqueue (new_input_queue (pos 4) drop_oldest) (1 ∷ 2 ∷ 3 ∷ [])).queue

-- Three bytes do not fit behind three in a queue of four: the old chunk goes.
evicts : (enqueue small_queue (7 ∷ 8 ∷ 9 ∷ [])).queue.chunks ≡ (7 ∷ 8 ∷ 9 ∷ []) ∷ []
unfolding enqueue enqueue_evicting evict new_input_queue
evicts = refl

small_queue-IsValid : IsValid small_queue
unfolding enqueue new_input_queue
small_queue-IsValid = record { counted = refl; bounded = omega arith }

enqueue-Outcome_example :
    Outcome small_queue (7 ∷ 8 ∷ 9 ∷ []) (enqueue small_queue (7 ∷ 8 ∷ 9 ∷ []))
enqueue-Outcome_example = enqueue-Outcome small_queue (7 ∷ 8 ∷ 9 ∷ []) small_queue-IsValid

abbrev queried : Bytes
queried = codes "ab" ++ esc ∷ codes "[cd"

process-Splits_example :
    (settled : Bytes) × Splits settled (process fresh queried).out (process fresh queried).resp
    × (settled ++ (process fresh queried).responder.held ≡ queried)
process-Splits_example = process-Splits queried

process-append_example :
    process fresh ((esc ∷ codes "[") ++ codes "cx")
    ≡ after
        (process fresh (esc ∷ codes "[")).out
        (process fresh (esc ∷ codes "[")).resp
        (process (process fresh (esc ∷ codes "[")).responder (codes "cx"))
process-append_example = process-append fresh (esc ∷ codes "[") (codes "cx")
