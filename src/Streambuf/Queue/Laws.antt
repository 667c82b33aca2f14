-- ===== src/Streambuf/Queue/Laws.antt =====
-- streambuf/input_queue.go: the queue as a stream of bytes that loses only its oldest part.
use mosey.Base.{ℕ, ◌+◌, ◌-◌, ◌≤◌, ◌<◌, ◌≡◌, refl, sym, ap, ◌∙◌, arith, List, [], ◌∷◌, ◌++◌, Bytes}
use mosey.Base.{◌≢◌}
use mosey.Base.{length, drop, concat, length-append, length-drop, drop-append_add, append_assoc}
use mosey.Base.{
  ◌⊎◌, none, some, append-nil, Bool-cases, inl, inr, ltb, leb, ◌==◌, false, drop-append_le,
}
use mosey.Streambuf.Queue.{InputQueue, Enqueued, DropPolicy, drop_oldest, drop_new}
use mosey.Streambuf.Queue.{queue_full, evict, enqueue, enqueue_oversized, enqueue_evicting, drain}
use mosey.Streambuf.Queue.{new_input_queue, reset}
use mosey.Base.Words.{ℤ}

-- The byte counter is exact, and within the capacity.
pub record IsValid (q : InputQueue) : Type 0 where
  pub counted : q.bytes ≡ length (concat q.chunks)
  pub bounded : q.bytes ≤ q.capacity

concat-snoc : (xss : List Bytes) (xs : Bytes) → concat (xss ++ xs ∷ []) ≡ concat xss ++ xs
concat-snoc [] xs = append-nil xs
concat-snoc (ys ∷ xss) xs = rw (concat-snoc xss xs) (sym (append_assoc ys (concat xss) xs))

-- The loop drops whole chunks from the front, one at a time while the new chunk does not fit.
pub record Evicts (capacity n : ℕ) (chunks : List Bytes) (dropped : ℕ) (r : List Bytes × ℕ × ℕ)
    : Type 0 where
  pub counted : r.1 ≡ length (concat r.0)
  pub fits : r.1 + n ≤ capacity
  pub conserved : r.2 + r.1 ≡ dropped + length (concat chunks)
  pub suffix : concat r.0 ≡ drop (r.2 - dropped) (concat chunks)
  pub grows : dropped ≤ r.2
  pub whole : (gone : List Bytes) × (chunks ≡ gone ++ r.0)
  pub least :
      (gone kept : List Bytes)
      → chunks ≡ gone ++ kept
      → length (concat kept) + n ≤ capacity
      → r.2 ≤ dropped + length (concat gone)

drop_none : (n : ℕ) (xs : Bytes) → drop (n - n) xs ≡ xs
drop_none n xs = let e : n - n ≡ 0 = omega arith in rw e

stop_Evicts :
    (capacity n : ℕ) (chunks : List Bytes) (bytes dropped : ℕ)
    → bytes + n ≤ capacity
    → bytes ≡ length (concat chunks)
    → Evicts capacity n chunks dropped (chunks, bytes, dropped)
stop_Evicts capacity n chunks bytes dropped h e = record {
  counted = e;
  fits = h;
  conserved = omega arith;
  suffix = sym (drop_none dropped (concat chunks));
  grows = omega arith;
  whole = ([], refl);
  least = λ gone kept split room. omega arith;
}

skip_head :
    (m k : ℕ) (head : Bytes) (rest : Bytes)
    → m ≡ length head + k
    → drop m (head ++ rest) ≡ drop k rest
skip_head m k head rest e = rw e (drop-append_add k head rest)

cons_head : {x y : Bytes} {xs ys : List Bytes} → x ∷ xs ≡ y ∷ ys → x ≡ y
cons_head {x} e = ap (λ l. elim l [ [] ↦ x | z ∷ zs ↦ z ]) e

cons_tail : {x y : Bytes} {xs ys : List Bytes} → x ∷ xs ≡ y ∷ ys → xs ≡ ys
cons_tail e = ap (λ l. elim l [ [] ↦ [] | z ∷ zs ↦ zs ]) e

-- To make room, a list of chunks that does not fit must lose its first one.
least_more :
    (capacity n : ℕ) (head : Bytes) (rest : List Bytes) (dropped : ℕ) (r : List Bytes × ℕ × ℕ)
    → capacity < length (concat (head ∷ rest)) + n
    → Evicts capacity n rest (dropped + length head) r
    → (gone kept : List Bytes) → head ∷ rest ≡ gone ++ kept
    → length (concat kept) + n ≤ capacity
    → r.2 ≤ dropped + length (concat gone)
least_more capacity n head rest dropped r full v [] kept split room =
    let same : length (concat (head ∷ rest)) ≡ length (concat kept) =
      ap (λ x. length (concat x)) split in
    absurd (omega (arith, full, room, same))
least_more capacity n head rest dropped r full v (g ∷ gone) kept split room =
    let size : length head ≡ length g = ap length (cons_head split) in
    omega (arith, v.least gone kept (cons_tail split) room, size, length-append g (concat gone))

more_Evicts :
    (capacity n : ℕ) (head : Bytes) (rest : List Bytes) (dropped : ℕ) (r : List Bytes × ℕ × ℕ)
    → capacity < length (concat (head ∷ rest)) + n
    → Evicts capacity n rest (dropped + length head) r
    → Evicts capacity n (head ∷ rest) dropped r
more_Evicts capacity n head rest dropped r full v = record {
  counted = v.counted;
  fits = v.fits;
  conserved = omega (arith, v.conserved, length-append head (concat rest));
  suffix =
      v.suffix
      ∙ sym (
          skip_head (r.2 - dropped) (r.2 - (dropped + length head)) head (concat rest)
            (omega (arith, v.grows)));
  grows = omega (arith, v.grows);
  whole = (head ∷ v.whole.0, ap (λ x. head ∷ x) v.whole.1);
  least = least_more capacity n head rest dropped r full v;
}

evict-Evicts :
    (capacity n : ℕ) (chunks : List Bytes) (bytes dropped : ℕ)
    → n ≤ capacity
    → bytes ≡ length (concat chunks)
    → Evicts capacity n chunks dropped (evict capacity n chunks bytes dropped)
unfolding evict
evict-Evicts capacity n [] bytes dropped h e =
    stop_Evicts capacity n [] bytes dropped (omega arith) e
evict-Evicts capacity n (head ∷ rest) bytes dropped h e =
    elim (Bool-cases (ltb capacity (bytes + n))) [
      | inl full ↦ rw full (
          more_Evicts capacity n head rest dropped _ (ground arith) (
            evict-Evicts capacity n rest (bytes - length head) (dropped + length head) h
              (omega (arith, length-append head (concat rest)))))
      | inr room ↦ rw room (stop_Evicts capacity n (head ∷ rest) bytes dropped (ground arith) e)
    ]

-- What an accepted chunk does to a valid queue.
pub record Accepts (q : InputQueue) (chunk : Bytes) (r : Enqueued) : Type 0 where
  pub valid : IsValid r.queue
  pub same_capacity : r.queue.capacity ≡ q.capacity
  pub same_policy : r.queue.policy ≡ q.policy
  pub stream : concat r.queue.chunks ≡ drop r.dropped (concat q.chunks ++ chunk)
  pub conserved : r.dropped + r.queue.bytes ≡ q.bytes + length chunk
  pub allowed : (q.bytes + length chunk ≤ q.capacity) ⊎ (q.policy ≡ drop_oldest)
  pub lossless : q.bytes + length chunk ≤ q.capacity → r.dropped ≡ 0
  pub whole :
      chunk ≢ []
      → length chunk ≤ q.capacity
      → (gone kept : List Bytes) × (q.chunks ≡ gone ++ kept) × (r.queue.chunks ≡ kept ++ chunk ∷ [])
  pub least :
      length chunk ≤ q.capacity
      → (gone kept : List Bytes) → q.chunks ≡ gone ++ kept
      → length (concat kept) + length chunk ≤ q.capacity
      → r.dropped ≤ length (concat gone)
  pub filled : q.capacity < length chunk → r.queue.bytes ≡ q.capacity

-- What a refused chunk does: nothing, and only under DropNew, where there is no room.
pub record Refuses (q : InputQueue) (chunk : Bytes) (r : Enqueued) : Type 0 where
  pub unchanged : r.queue ≡ q
  pub none_dropped : r.dropped ≡ 0
  pub error : r.error ≡ some queue_full
  pub policy : q.policy ≡ drop_new
  pub no_room : q.capacity < q.bytes + length chunk

abbrev pub Outcome : InputQueue → Bytes → Enqueued → Type 0
Outcome q chunk r = ((r.error ≡ none) × Accepts q chunk r) ⊎ Refuses q chunk r

keep_end :
    (d d' : ℕ) (kept old chunk : Bytes)
    → kept ≡ drop d' old
    → d' ≡ d
    → d ≤ length old
    → kept ++ chunk ≡ drop d (old ++ chunk)
keep_end d d' kept old chunk e q le = rw (e, q, drop-append_le d old chunk le)

length-concat-snoc :
    (xss : List Bytes) (xs : Bytes)
    → length (concat (xss ++ xs ∷ [])) ≡ length (concat xss) + length xs
length-concat-snoc xss xs = ap length (concat-snoc xss xs) ∙ length-append (concat xss) xs

appended-Accepts :
    (q : InputQueue) (chunk : Bytes)
    → IsValid q
    → q.bytes + length chunk ≤ q.capacity
    → Accepts q chunk (record {
      queue = record q { chunks = q.chunks ++ chunk ∷ []; bytes = q.bytes + length chunk };
      dropped = 0;
      error = none;
    })
appended-Accepts q chunk v room = record {
  valid = record {
    counted = omega (arith, v.counted, length-concat-snoc q.chunks chunk);
    bounded = room;
  };
  same_capacity = refl;
  same_policy = refl;
  stream = concat-snoc q.chunks chunk;
  conserved = omega arith;
  allowed = inl room;
  lossless = λ fits. refl;
  whole = λ ne fits. ([], q.chunks, refl, refl);
  least = λ fits gone kept split more. omega arith;
  filled = λ big. absurd (omega arith);
}

oversized-Outcome :
    (q : InputQueue) (chunk : Bytes) (p : DropPolicy)
    → IsValid q
    → q.policy ≡ p
    → q.capacity < length chunk
    → Outcome q chunk (enqueue_oversized q chunk p)
unfolding enqueue_oversized
oversized-Outcome q chunk drop_new v e h = inr (record {
  unchanged = refl;
  none_dropped = refl;
  error = refl;
  policy = e;
  no_room = omega arith;
})
oversized-Outcome q chunk drop_oldest v e h = inl (
  refl,
  record {
    valid = record {
      counted = omega (arith, length-append (drop (length chunk - q.capacity) chunk) []);
      bounded = omega (arith, length-drop (length chunk - q.capacity) chunk);
    };
    same_capacity = refl;
    same_policy = refl;
    stream =
        append-nil (drop (length chunk - q.capacity) chunk)
        ∙ sym (
            skip_head (q.bytes + (length chunk - q.capacity)) (length chunk - q.capacity)
              (concat q.chunks) chunk (omega (arith, v.counted)));
    conserved = omega (arith, length-drop (length chunk - q.capacity) chunk);
    allowed = inr e;
    lossless = λ fits. absurd (omega arith);
    whole = λ ne fits. absurd (omega arith);
    least = λ fits gone kept split more. absurd (omega arith);
    filled = λ big. omega (arith, length-drop (length chunk - q.capacity) chunk);
  },
)

evicting-Outcome :
    (q : InputQueue) (chunk : Bytes) (p : DropPolicy)
    → IsValid q
    → q.policy ≡ p
    → length chunk ≤ q.capacity
    → q.capacity < q.bytes + length chunk
    → Outcome q chunk (enqueue_evicting q chunk p)
unfolding enqueue_evicting
evicting-Outcome q chunk drop_new v e fits h =
    inr (record { unchanged = refl; none_dropped = refl; error = refl; policy = e; no_room = h })
evicting-Outcome q chunk drop_oldest v e fits h = inl (refl, evicted)
  where
    w :
        Evicts q.capacity
          (length chunk)
          q.chunks
          0
          (evict q.capacity (length chunk) q.chunks q.bytes 0)
    w = evict-Evicts q.capacity (length chunk) q.chunks q.bytes 0 fits v.counted

    evicted : Accepts q chunk (enqueue_evicting q chunk drop_oldest)
    evicted = record {
      valid = record {
        counted = omega (
          arith,
          w.counted,
          length-concat-snoc (evict q.capacity (length chunk) q.chunks q.bytes 0).0 chunk,
        );
        bounded = w.fits;
      };
      same_capacity = refl;
      same_policy = refl;
      stream =
          concat-snoc (evict q.capacity (length chunk) q.chunks q.bytes 0).0 chunk
          ∙ keep_end (evict q.capacity (length chunk) q.chunks q.bytes 0).2 _ _ (concat q.chunks)
              chunk w.suffix (omega arith) (omega (arith, w.conserved));
      conserved = omega (arith, w.conserved, v.counted);
      allowed = inr e;
      lossless = λ room. absurd (omega arith);
      whole = λ ne small. (w.whole.0, _, w.whole.1, refl);
      least = λ small gone kept split room. omega (arith, w.least gone kept split room);
      filled = λ big. absurd (omega arith);
    }

-- On a valid queue `enqueue` accepts a chunk if it fits beside what is queued or the policy is
-- DropOldest, and refuses it otherwise, which changes nothing. After an acceptance the queue is valid, and
-- its bytes are the old ones with the chunk behind them less exactly the `dropped` oldest: none where
-- everything fits; for a chunk within the capacity whole chunks from the front, and the fewest bytes with
-- which the new one has room; for a larger chunk all but its last bytes, which fill the queue.
pub enqueue-Outcome :
    (q : InputQueue) (chunk : Bytes) → IsValid q → Outcome q chunk (enqueue q chunk)
unfolding enqueue
enqueue-Outcome q [] v = inl (
  refl,
  record {
    valid = v;
    same_capacity = refl;
    same_policy = refl;
    stream = sym (append-nil (concat q.chunks));
    conserved = omega arith;
    allowed = inl (omega (arith, v.bounded));
    lossless = λ fits. refl;
    whole = λ ne fits. absurd (ne refl);
    least = λ fits gone kept split more. omega arith;
    filled = λ big. absurd (omega arith);
  },
)
enqueue-Outcome q (x ∷ p) v =
    let nonempty : (length (x ∷ p) == 0) ≡ false = ground arith in
    elim (Bool-cases (ltb q.capacity (length (x ∷ p)))) [
      | inl big ↦ rw (nonempty, big) (oversized-Outcome q (x ∷ p) q.policy v refl (ground arith))
      | inr small ↦ elim (Bool-cases (leb (q.bytes + length (x ∷ p)) q.capacity)) [
        | inl room ↦
            rw (nonempty, small, room) (inl (refl, appended-Accepts q (x ∷ p) v (ground arith)))
        | inr full ↦
            rw (nonempty, small, full)
              (evicting-Outcome q (x ∷ p) q.policy v refl (ground arith) (ground arith))
      ]
    ]

-- `drain` hands out the chunks in order and leaves a valid empty queue, as `reset` does.
drain-IsValid :
    (q : InputQueue)
    → ((drain q).1 ≡ q.chunks)
      × ((drain q).0.chunks ≡ [])
      × IsValid (drain q).0
      × ((drain q).0 ≡ reset q)
unfolding drain reset
drain-IsValid q = (refl, refl, record { counted = refl; bounded = omega arith }, refl)

pub new_input_queue-IsValid : (capacity : ℤ) (p : DropPolicy) → IsValid (new_input_queue capacity p)
unfolding new_input_queue
new_input_queue-IsValid capacity p = record { counted = refl; bounded = omega arith }
