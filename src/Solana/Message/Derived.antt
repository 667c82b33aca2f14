-- ===== src/Solana/Message/Derived.antt =====
-- walletsolana/tx.go: findPDA.
use mosey.Base.{ℕ, zero, suc, ◌<◌, true, false, Bytes, List, ok, ok_same}
use mosey.Base.{◌≡◌, refl, sym, ap, ◌∙◌, arith, Bool-cases, inl, inr, ◌↔◌}
use mosey.Base.{ltb, ltb→lt}
use mosey.Solana.Message.{Chain, candidate, pda_loop, find_pda}

-- The highest bump below a bound whose candidate is off the curve.
abbrev pub HighestOff : Chain → Bytes → List Bytes → ℕ → Bytes → ℕ → Type 0
HighestOff lib program_id seeds bound address bump =
    (bump < bound)
    × (address ≡ candidate lib program_id seeds bump)
    × (lib.on_curve address ≡ false)
    × ((b : ℕ) → bump < b → b < bound → lib.on_curve (candidate lib program_id seeds b) ≡ true)

on_above :
    (lib : Chain) (program_id : Bytes) (seeds : List Bytes) (b bump : ℕ)
    → lib.on_curve (candidate lib program_id seeds b) ≡ true
    → ((k : ℕ) → bump < k → k < b → lib.on_curve (candidate lib program_id seeds k) ≡ true)
    → (k : ℕ) → bump < k
    → k < suc b
    → lib.on_curve (candidate lib program_id seeds k) ≡ true
on_above lib program_id seeds b bump on above k low high = elim (Bool-cases (ltb k b)) [
  | inl under ↦ above k low (ltb→lt k b under)
  | inr same ↦ (let e : k ≡ b = ground arith in rw e on)
]

HighestOff-pda_loop :
    (lib : Chain) (program_id : Bytes) (seeds : List Bytes) (bound : ℕ) (address : Bytes) (bump : ℕ)
    → HighestOff lib program_id seeds bound address bump
    → pda_loop lib program_id seeds bound ≡ ok (address, bump)
unfolding pda_loop
HighestOff-pda_loop lib program_id seeds zero address bump (low, _, _, _) = elim low [ ]
HighestOff-pda_loop lib program_id seeds (suc b) address bump (low, is, off, above) =
    elim (Bool-cases (ltb bump b)) [
      | inl under ↦
          let on = above b (ltb→lt bump b under) (omega arith) in
          let rest =
            HighestOff-pda_loop lib program_id seeds b address bump
              (ltb→lt bump b under, is, off, λ k l h. above k l (omega arith)) in
          rw on rest
      | inr top ↦
          let e : bump ≡ b = ground arith in
          let at_b : address ≡ candidate lib program_id seeds b =
            is ∙ ap (candidate lib program_id seeds) e in
          let off_b : lib.on_curve (candidate lib program_id seeds b) ≡ false = rw⁻¹ at_b off in
          rw (off_b, at_b, e) refl
    ]

off_here :
    (lib : Chain) (program_id : Bytes) (seeds : List Bytes) (b : ℕ) (address : Bytes) (bump : ℕ)
    → lib.on_curve (candidate lib program_id seeds b) ≡ false
    → ◌≡◌ {A = Bytes × ℕ} (candidate lib program_id seeds b, b) (address, bump)
    → HighestOff lib program_id seeds (suc b) address bump
off_here lib program_id seeds b address bump off e =
    let at_b : b ≡ bump = ap (λ p. p.1) e in
    let is : candidate lib program_id seeds b ≡ address = ap (λ p. p.0) e in
    (
      omega (arith, at_b),
      sym is ∙ ap (candidate lib program_id seeds) at_b,
      rw⁻¹ is off,
      λ k low high. absurd (omega (arith, at_b)),
    )

pda_loop-HighestOff :
    (lib : Chain) (program_id : Bytes) (seeds : List Bytes) (bound : ℕ) (address : Bytes) (bump : ℕ)
    → pda_loop lib program_id seeds bound ≡ ok (address, bump)
    → HighestOff lib program_id seeds bound address bump
unfolding pda_loop
pda_loop-HighestOff lib program_id seeds zero address bump h = absurd (cc)
pda_loop-HighestOff lib program_id seeds (suc b) address bump h =
    elim (Bool-cases (lib.on_curve (candidate lib program_id seeds b))) [
      | inl on ↦
          let h1 : pda_loop lib program_id seeds b ≡ ok (address, bump) = rw on at h in
          let (low, is, off_curve, above) =
            pda_loop-HighestOff lib program_id seeds b address bump h1 in
          (omega (arith, low), is, off_curve, on_above lib program_id seeds b bump on above)
      | inr off ↦
          let h1 : ok (candidate lib program_id seeds b, b) ≡ ok (address, bump) = rw off at h in
          off_here lib program_id seeds b address bump off (ok_same h1)
    ]

-- findPDA gives the highest bump of a byte whose candidate is not a point of the curve, with that
-- candidate; and it gives one whenever there is one.
pub find_pda_iff :
    (lib : Chain) (program_id : Bytes) (seeds : List Bytes) (address : Bytes) (bump : ℕ)
    → (find_pda lib program_id seeds ≡ ok (address, bump))
      ↔ HighestOff lib program_id seeds 256 address bump
find_pda_iff lib program_id seeds address bump = (
  pda_loop-HighestOff lib program_id seeds 256 address bump,
  HighestOff-pda_loop lib program_id seeds 256 address bump,
)
