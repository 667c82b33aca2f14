-- ===== src/Vterm/Responder/Splits.antt =====
-- vterm/queries.go: what is stripped and what is answered. The input splits into bytes that pass and
-- whole queries, each answered in turn.
use mosey.Base.{ℕ, ◌≡◌, refl, sym, ap, arith, [], ◌∷◌, ◌++◌, Bytes, codes, append-nil}
use mosey.Base.{append_assoc, inl, inr, Bool-cases, ==_iff, bytes_eq, bytes_eq→eq, ◌==◌, ◌||◌, drop}
use mosey.Base.{true}
use mosey.Vterm.Responder.{DaState, da_ground, da_esc, da_csi, Processed, fresh, esc}
use mosey.Vterm.Responder.{da1_response, da2_response, ground_byte, final_c, process_byte}
use mosey.Vterm.Responder.{process_loop, process}

-- The Device Attribute queries with their answers.
pub data Query : Bytes → Bytes → Type 0 where
  da1 : Query (esc ∷ codes "[c") da1_response
  da1_zero : Query (esc ∷ codes "[0c") da1_response
  da2 : Query (esc ∷ codes "[>c") da2_response
  da2_zero : Query (esc ∷ codes "[>0c") da2_response

-- Input, passed on, written back: in order, each byte either passes or belongs to a query.
pub data Splits : Bytes → Bytes → Bytes → Type 0 where
  done : Splits [] [] []
  pass : {i o r : Bytes} (b : ℕ) → Splits i o r → Splits (i ++ b ∷ []) (o ++ b ∷ []) r
  answer : {i o r q a : Bytes} → Query q a → Splits i o r → Splits (i ++ q) o (r ++ a)

pass_all : {i o r : Bytes} (bs : Bytes) → Splits i o r → Splits (i ++ bs) (o ++ bs) r
pass_all {i} {o} {r} [] s = rw (append-nil i, append-nil o) s
pass_all {i} {o} {r} (b ∷ bs) s =
    rw (← append_assoc i (b ∷ []) bs, ← append_assoc o (b ∷ []) bs) (pass_all bs (pass b s))

abbrev Held : DaState → Bytes → Type 0
Held da_ground held = held ≡ []
Held da_esc held = held ≡ esc ∷ []
Held da_csi held = held ≡ esc ∷ b'[' ∷ drop 2 held

-- The input read so far is what has been dealt with, and the bytes held back.
record Inv (input : Bytes) (p : Processed) : Type 0 where
  settled : Bytes
  splits : Splits settled p.out p.resp
  whole : settled ++ p.responder.held ≡ input
  shape : Held p.responder.state p.responder.held

ground_byte-Inv : (i o r : Bytes) (b : ℕ) → Splits i o r → Inv (i ++ b ∷ []) (ground_byte [] o r b)
unfolding ground_byte
ground_byte-Inv i o r b s = elim (Bool-cases (b == esc)) [
  | inl e ↦ rw e (record { settled = i; splits = s; whole = refl; shape = ground arith })
  | inr n ↦ rw n (record {
    settled = i ++ b ∷ [];
    splits = pass b s;
    whole = append-nil (i ++ b ∷ []);
    shape = refl;
  })
]

answered :
    (i o r q a : Bytes)
    → Query q a
    → Splits i o r
    → Inv (i ++ q) (record { responder = fresh; out = o; resp = r ++ a })
answered i o r q a k s = record {
  settled = i ++ q;
  splits = answer k s;
  whole = append-nil (i ++ q);
  shape = refl;
}

held_query :
    (held params : Bytes)
    → held ≡ esc ∷ b'[' ∷ drop 2 held
    → bytes_eq (drop 2 held) params ≡ true
    → held ++ b'c' ∷ [] ≡ esc ∷ b'[' ∷ (params ++ b'c' ∷ [])
held_query held params e h = ground (arith, bytes_eq→eq (drop 2 held) params)

module _ (i o r held : Bytes) (s : Splits i o r) (e : held ≡ esc ∷ b'[' ∷ drop 2 held) where
  matched :
      (params a : Bytes)
      → bytes_eq (drop 2 held) params ≡ true
      → Query (esc ∷ b'[' ∷ (params ++ b'c' ∷ [])) a
      → Inv (i ++ held ++ b'c' ∷ []) (record { responder = fresh; out = o; resp = r ++ a })
  matched params a h k =
      rw (append_assoc i held (b'c' ∷ []), held_query held params e h) (answered i o r _ a k s)

  unmatched :
      Inv
        (i ++ held ++ b'c' ∷ [])
        (record { responder = fresh; out = o ++ held ++ b'c' ∷ []; resp = r })
  unmatched = record {
    settled = i ++ held ++ b'c' ∷ [];
    splits = pass b'c' (pass_all held s);
    whole = append-nil (i ++ held ++ b'c' ∷ []);
    shape = refl;
  }

  final_c-Inv : Inv (i ++ held ++ b'c' ∷ []) (final_c held o r)
  unfolding final_c
  final_c-Inv = elim (Bool-cases (bytes_eq (drop 2 held) [])) [
    | inl p ↦ rw p (matched [] da1_response p da1)
    | inr n ↦ elim (Bool-cases (bytes_eq (drop 2 held) (codes "0"))) [
      | inl p ↦ rw (n, p) (matched (codes "0") da1_response p da1_zero)
      | inr n' ↦ elim (Bool-cases (bytes_eq (drop 2 held) (codes ">"))) [
        | inl p ↦ rw (n, n', p) (matched (codes ">") da2_response p da2)
        | inr n2 ↦ elim (Bool-cases (bytes_eq (drop 2 held) (codes ">0"))) [
          | inl p ↦ rw (n, n', n2, p) (matched (codes ">0") da2_response p da2_zero)
          | inr n4 ↦ rw (n, n', n2, n4) unmatched
        ]
      ]
    ]
  ]

-- A byte that the held sequence takes up.
hold-Inv :
    (i o r held : Bytes) (b : ℕ) (st : DaState)
    → Splits i o r
    → Held st (held ++ b ∷ [])
    → Inv
        (i ++ held ++ b ∷ [])
        (record { responder = record { state = st; held = held ++ b ∷ [] }; out = o; resp = r })
hold-Inv i o r held b st s h = record {
  settled = i;
  splits = s;
  whole = sym (append_assoc i held (b ∷ []));
  shape = h;
}

Held-snoc : (held : Bytes) (b : ℕ) → Held da_csi held → Held da_csi (held ++ b ∷ [])
Held-snoc [] b e = cc
Held-snoc (x ∷ []) b e = cc
Held-snoc (x ∷ y ∷ t) b e = cc

process_byte-Inv :
    (i o r held : Bytes) (st : DaState) (b : ℕ)
    → Splits i o r
    → Held st held
    → Inv (i ++ held ++ b ∷ []) (process_byte st held o r b)
unfolding process_byte
process_byte-Inv i o r held da_ground b s h = rw (h, append-nil i) (ground_byte-Inv i o r b s)
process_byte-Inv i o r held da_esc b s h = elim (Bool-cases (b == b'[')) [
  | inl e ↦ rw e (hold-Inv i o r held b da_csi s (ground (arith, ap (λ t. t ++ b ∷ []) h)))
  | inr n ↦ rw n (ground_byte-Inv (i ++ held) (o ++ held) r b (pass_all held s))
]
process_byte-Inv i o r held da_csi b s h = elim (Bool-cases (b == b'0' || b == b'>')) [
  | inl e ↦ rw e (hold-Inv i o r held b da_csi s (Held-snoc held b h))
  | inr n ↦ elim (Bool-cases (b == b'c')) [
    | inl c ↦ rw (n, c, (==_iff b b'c').0 c) (final_c-Inv i o r held s h)
    | inr d ↦ rw (n, d) (ground_byte-Inv (i ++ held) (o ++ held) r b (pass_all held s))
  ]
]

process_loop-Inv :
    (bs input : Bytes) (p : Processed) → Inv input p → Inv (input ++ bs) (process_loop bs p)
unfolding process_loop
process_loop-Inv [] input p v = rw (append-nil input) v
process_loop-Inv (b ∷ bs) input p v =
    rw (← append_assoc input (b ∷ []) bs, ← v.whole)
      (process_loop-Inv bs _ _ (
        process_byte-Inv v.settled p.out p.resp p.responder.held p.responder.state b v.splits
          v.shape))

-- From the fresh responder on, the input is what was dealt with and the bytes still held back; of
-- the former each byte was passed on in order, or belongs to a whole query that was answered in turn.
pub process-Splits :
    (bs : Bytes)
    → (settled : Bytes) × Splits settled (process fresh bs).out (process fresh bs).resp
      × (settled ++ (process fresh bs).responder.held ≡ bs)
unfolding process
process-Splits bs = (v.settled, v.splits, v.whole)
  where
    v : Inv bs (process_loop bs (record { responder = fresh; out = []; resp = [] }))
    v =
        process_loop-Inv bs [] _
          (record { settled = []; splits = done; whole = refl; shape = refl })

-- A query that arrives while nothing is held is stripped and answered at once, whole, however much
-- output and how many answers stand before it.
Query-answered :
    {q a : Bytes} (out resp : Bytes)
    → Query q a
    → process_loop q (record { responder = fresh; out = out; resp = resp })
      ≡ record { responder = fresh; out = out; resp = resp ++ a }
unfolding process_loop process_byte ground_byte final_c bytes_eq
Query-answered out resp da1 = refl
Query-answered out resp da1_zero = refl
Query-answered out resp da2 = refl
Query-answered out resp da2_zero = refl

-- A query inside an unfinished "ESC [" is answered and stripped, but where a "c" follows it, what is
-- passed on to the clients is itself a query: "ESC [ c".
nested_leaks :
    {q a : Bytes} (out resp : Bytes)
    → Query q a
    → process_loop
        (esc ∷ b'[' ∷ (q ++ b'c' ∷ []))
        (record { responder = fresh; out = out; resp = resp })
      ≡ record { responder = fresh; out = out ++ esc ∷ codes "[" ++ b'c' ∷ []; resp = resp ++ a }
unfolding process_loop process_byte ground_byte final_c bytes_eq
nested_leaks out resp da1 = refl
nested_leaks out resp da1_zero = refl
nested_leaks out resp da2 = refl
nested_leaks out resp da2_zero = refl
