-- ===== src/Vterm/Responder/Chunks.antt =====
-- vterm/queries.go: how the PTY's output is cut into reads makes no difference to the responder.
use mosey.Base.{ℕ, ◌≡◌, refl, ap, ◌∙◌, arith, [], ◌∷◌, ◌++◌, Bytes, append-nil}
use mosey.Base.{append_assoc}
use mosey.Vterm.Responder.{DaState, da_ground, da_esc, da_csi, DaResponder, Processed}
use mosey.Vterm.Responder.{da1_response, da2_response, ground_byte, final_c, process_byte}
use mosey.Vterm.Responder.{process_loop, process}

-- Output and answers that stood there before.
abbrev pub after : Bytes → Bytes → Processed → Processed
after out resp p = record { responder = p.responder; out = out ++ p.out; resp = resp ++ p.resp }

ground_byte-after :
    (o r held out resp : Bytes) (b : ℕ)
    → ground_byte held (o ++ out) (r ++ resp) b ≡ after o r (ground_byte held out resp b)
unfolding ground_byte
ground_byte-after o r held out resp b = ground (arith, append_assoc o out (b ∷ []))

final_c-after :
    (o r held out resp : Bytes)
    → final_c held (o ++ out) (r ++ resp) ≡ after o r (final_c held out resp)
unfolding final_c
final_c-after o r held out resp = ground (
  arith,
  append_assoc r resp da1_response,
  append_assoc r resp da2_response,
  append_assoc o out held,
  append_assoc o (out ++ held) (b'c' ∷ []),
)

process_byte-after :
    (o r held out resp : Bytes) (st : DaState) (b : ℕ)
    → process_byte st held (o ++ out) (r ++ resp) b ≡ after o r (process_byte st held out resp b)
unfolding process_byte
process_byte-after o r held out resp da_ground b = ground_byte-after o r held out resp b
process_byte-after o r held out resp da_esc b =
    ground (arith, append_assoc o out held, ground_byte-after o r [] (out ++ held) resp b)
process_byte-after o r held out resp da_csi b = ground (
  arith,
  append_assoc o out held,
  ground_byte-after o r [] (out ++ held) resp b,
  final_c-after o r held out resp,
)

process_loop-after :
    (bs o r : Bytes) (p : Processed) → process_loop bs (after o r p) ≡ after o r (process_loop bs p)
unfolding process_loop
process_loop-after [] o r p = refl
process_loop-after (b ∷ bs) o r p =
    ap (process_loop bs) (process_byte-after o r p.responder.held p.out p.resp p.responder.state b)
    ∙ process_loop-after bs o r (process_byte p.responder.state p.responder.held p.out p.resp b)

process_loop-append :
    (xs ys : Bytes) (p : Processed)
    → process_loop (xs ++ ys) p ≡ process_loop ys (process_loop xs p)
unfolding process_loop
process_loop-append [] ys p = refl
process_loop-append (x ∷ xs) ys p = process_loop-append xs ys _

-- One read of `xs ++ ys` gives what two reads of `xs` and of `ys` give together: the same bytes
-- passed on, the same answers and the same responder.
pub process-append :
    (d : DaResponder) (xs ys : Bytes)
    → process d (xs ++ ys)
      ≡ after (process d xs).out (process d xs).resp (process (process d xs).responder ys)
unfolding process
process-append d xs ys =
    process_loop-append xs ys (record { responder = d; out = []; resp = [] })
    ∙ ap (process_loop ys) unit
    ∙ process_loop-after ys (process d xs).out (process d xs).resp
        (record { responder = (process d xs).responder; out = []; resp = [] })
  where
    unit :
        process d xs
        ≡ after
            (process d xs).out
            (process d xs).resp
            (record { responder = (process d xs).responder; out = []; resp = [] })
    unit = rw (append-nil (process d xs).out, append-nil (process d xs).resp)
