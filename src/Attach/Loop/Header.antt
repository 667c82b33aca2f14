-- ===== src/Attach/Loop/Header.antt =====
-- attach/attach.go and vterm/session.go: the header of a resumed stream.
use mosey.Base.{
  ℕ, zero, suc, ◌+◌, ◌%◌, ◌/◌, ◌^◌, ◌<◌, true, false, Option, none, some, List, [], ◌∷◌, ◌++◌,
}
use mosey.Base.{
  Bytes, ltb, if◌then◌else◌, ok, ◌≡◌, refl, sym, ap, ◌∙◌, append_assoc, arith, Bool-cases, inl, inr,
}
use Prim.Native.Nat.{bit_or}
use mosey.Attach.Loop.{varint_loop, encode_varint, AttachState, dial_header}
use mosey.Base.{Bool, ◌||◌}
use mosey.Attach.Errors.{GoError}
use mosey.Attach.Loop.{
  Round, Verdict, goes_on, returns, cancelled, add_rendered, dial_pty, after_dial, attach_round,
  attach_loop, then_rounds, fresh_attach,
}
use mosey.Vterm.Varint.{encode_loop, encode_resume_seq, read_resume_seq, ReadError, read-encode}

abbrev prepend : Bytes → Option Bytes → Option Bytes
prepend out none = none
prepend out (some bs) = some (out ++ bs)

prepend_more :
    (out : Bytes) (x : ℕ) (o : Option Bytes)
    → prepend (out ++ x ∷ []) o ≡ prepend out (elim o [ none ↦ none | some bs ↦ some (x ∷ bs) ])
prepend_more out x none = refl
prepend_more out x (some bs) = ap some (append_assoc out (x ∷ []) bs)

prepend_nil : (o : Option Bytes) → prepend [] o ≡ o
prepend_nil none = refl
prepend_nil (some bs) = refl

varint_loop-encode_loop :
    (slots : ℕ) (out : Bytes) (v : ℕ) → varint_loop slots out v ≡ prepend out (encode_loop slots v)
unfolding varint_loop encode_loop
varint_loop-encode_loop zero out v = refl
varint_loop-encode_loop (suc slots) out v =
    let x = bit_or (v % 256) 0x80 in
    let rest = varint_loop-encode_loop slots (out ++ x ∷ []) (v / 128) in
    let more = prepend_more out x (encode_loop slots (v / 128)) in
    elim (Bool-cases (ltb v 0x80)) [ inl small ↦ rw small refl | inr big ↦ rw big (rest ∙ more) ]

-- The two encoders of the header, the one of the attaching client and the one of the host, agree.
pub encode_varint-encode_resume_seq : (v : ℕ) → encode_varint v ≡ encode_resume_seq v
unfolding encode_varint encode_resume_seq
encode_varint-encode_resume_seq v = varint_loop-encode_loop 10 [] v ∙ prepend_nil (encode_loop 10 v)

abbrev pub sum : List ℕ → ℕ
sum [] = 0
sum (k ∷ ks) = k + sum ks

-- What the rounds in which dialPTY succeeds have rendered, and whether there is one. The first of them
-- makes the later ones resume.
abbrev pub counted : Option GoError → ℕ → ℕ → ℕ → ℕ
counted none here resumed retried = here + resumed
counted (some e) here resumed retried = retried

abbrev pub total : Bool → List Round → ℕ
total resume [] = 0
total resume (r ∷ rs) = counted (dial_pty resume r) (sum r.chunks) (total true rs) (total resume rs)

abbrev pub began : Option GoError → Bool → Bool
began none retried = true
began (some e) retried = retried

abbrev pub attached : Bool → List Round → Bool
attached resume [] = false
attached resume (r ∷ rs) = began (dial_pty resume r) (attached resume rs)

add_rendered-sum : (ks : List ℕ) (n : ℕ) → n + sum ks < 2 ^ 64 → add_rendered n ks ≡ n + sum ks
unfolding add_rendered
add_rendered-sum [] n h = omega arith
add_rendered-sum (k ∷ ks) n h =
    let small : (n + k) % 2 ^ 64 ≡ n + k = ground arith in
    rw small (add_rendered-sum ks (n + k) (omega arith) ∙ omega arith)

-- A round that goes on from one state to another.
abbrev Moves : AttachState → Round → AttachState → Option GoError → Type 0
Moves st r next none = (next.rendered ≡ add_rendered st.rendered r.chunks) × (next.resume ≡ true)
Moves st r next (some e) = (next.rendered ≡ st.rendered) × (next.resume ≡ st.resume)

goes_on_state : AttachState → Verdict → AttachState
goes_on_state st (goes_on next) = next
goes_on_state st (returns e) = st
goes_on_state st cancelled = st

goes_on_same : {x y : AttachState} → goes_on x ≡ goes_on y → x ≡ y
unfolding goes_on_state
goes_on_same {x} e = ap (goes_on_state x) e

went_on :
    (c d : Bool) (e : Option GoError) (x next : AttachState)
    → (if c then returns e else if d then cancelled else goes_on x) ≡ goes_on next
    → x ≡ next
went_on true d e x next h = absurd (cc)
went_on false true e x next h = absurd (cc)
went_on false false e x next h = goes_on_same h

after_dial-Moves :
    (st : AttachState) (r : Round) (next : AttachState) (o : Option GoError)
    → after_dial st r o ≡ goes_on next
    → Moves st r next o
after_dial-Moves st r next none h =
    let e = went_on _ r.dead_at_end none _ next h in
    (sym (ap (λ x. x.rendered) e), sym (ap (λ x. x.resume) e))
after_dial-Moves st r next (some problem) h =
    let e = went_on _ r.dead_in_wait _ _ next h in
    (sym (ap (λ x. x.rendered) e), sym (ap (λ x. x.resume) e))

then_rounds-goes_on :
    (rs : List Round) (v : Verdict) (last : AttachState)
    → then_rounds (attach_loop rs) v ≡ goes_on last
    → (next : AttachState) × (v ≡ goes_on next) × (attach_loop rs next ≡ goes_on last)
then_rounds-goes_on rs (goes_on next) last h = (next, refl, h)
then_rounds-goes_on rs (returns e) last h = absurd (cc)
then_rounds-goes_on rs cancelled last h = absurd (cc)

-- The counter and the protocol after some rounds.
abbrev Counts : AttachState → List Round → AttachState → Type 0
Counts st rs last =
    (last.rendered ≡ st.rendered + total st.resume rs)
    × (last.resume ≡ (st.resume || attached st.resume rs))

round-Counts :
    (st next last : AttachState) (r : Round) (rs : List Round) (o : Option GoError)
    → dial_pty st.resume r ≡ o
    → Moves st r next o
    → Counts next rs last
    → st.rendered + total st.resume (r ∷ rs) < 2 ^ 64
    → Counts st (r ∷ rs) last
round-Counts st next last r rs none e (m, q) (n, p) fits =
    let f : st.rendered + (sum r.chunks + total true rs) < 2 ^ 64 = rw e at fits in
    let grown = add_rendered-sum r.chunks st.rendered (omega (arith, f)) in
    let k : last.rendered ≡ next.rendered + total true rs = rw q at n in
    let on : last.resume ≡ true = rw q at p in rw e (omega (arith, grown, k, m), on ∙ ground arith)
round-Counts st next last r rs (some problem) e (m, q) (n, p) fits =
    let k : last.rendered ≡ next.rendered + total st.resume rs = rw q at n in
    let on : last.resume ≡ (st.resume || attached st.resume rs) = rw q at p in
    rw e (omega (arith, m, k), on)

round_fits :
    (st next : AttachState) (r : Round) (rs : List Round) (o : Option GoError)
    → dial_pty st.resume r ≡ o
    → Moves st r next o
    → st.rendered + total st.resume (r ∷ rs) < 2 ^ 64
    → next.rendered + total next.resume rs < 2 ^ 64
round_fits st next r rs none e (m, q) fits =
    let f : st.rendered + (sum r.chunks + total true rs) < 2 ^ 64 = rw e at fits in
    let grown = add_rendered-sum r.chunks st.rendered (omega (arith, f)) in
    rw q (omega (arith, m, grown, f))
round_fits st next r rs (some problem) e (m, q) fits =
    let f : st.rendered + total st.resume rs < 2 ^ 64 = rw e at fits in rw q (omega (arith, m, f))

loop-Counts :
    (rs : List Round) (st last : AttachState)
    → attach_loop rs st ≡ goes_on last
    → st.rendered + total st.resume rs < 2 ^ 64
    → Counts st rs last
unfolding attach_loop attach_round
loop-Counts [] st last h fits =
    let e = goes_on_same h in
    (omega (arith, ap (λ x. x.rendered) e), sym (ap (λ x. x.resume) e) ∙ ground arith)
loop-Counts (r ∷ rs) st last h fits =
    let (next, moved, rest) = then_rounds-goes_on rs (attach_round st r) last h in
    let moves = after_dial-Moves st r next (dial_pty st.resume r) moved in
    let within = round_fits st next r rs (dial_pty st.resume r) refl moves fits in
    round-Counts st next last r rs (dial_pty st.resume r) refl moves
      (loop-Counts rs next last rest within) fits

-- After any rounds that render less than 2^64 bytes and in one of which the dial succeeded, with the loop
-- still going: the next dial asks to resume, and the header that it writes is read back by the host as
-- the number of bytes rendered in all those rounds, with what follows the header left to read.
pub resume_header_counts :
    (rs : List Round) (last : AttachState) (rest : Bytes) (end : Option ReadError)
    → attach_loop rs fresh_attach ≡ goes_on last
    → attached false rs ≡ true
    → total false rs < 2 ^ 64
    → (bs : Bytes) × (dial_header last ≡ some bs)
      × (read_resume_seq (bs ++ rest) end ≡ ok (total false rs, rest))
resume_header_counts rs last rest end h once fits =
    let (n, p) = loop-Counts rs fresh_attach last h (omega arith) in
    let (bs, written, _, back) = read-encode (total false rs) rest end fits in
    let counted : last.rendered ≡ total false rs = omega (arith, n) in
    (bs, rw (p, once, counted, encode_varint-encode_resume_seq (total false rs)) written, back)
