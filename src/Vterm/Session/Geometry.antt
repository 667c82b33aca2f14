-- ===== src/Vterm/Session/Geometry.antt =====
-- vterm/session.go: the size of the PTY is the least that every client with a known geometry can show.
use mosey.Base.{ℕ, ◌≤◌, ◌≡◌, ◌≢◌, refl, sym, ◌∙◌, ap, subst, arith}
use mosey.Base.{◌⊎◌, inl, inr, List, [], ◌∷◌, Bool-cases, All}
use mosey.Base.{◌==◌, if◌then◌else◌, ◌||◌}
use native.Mathlib.Nat.{le_trans}
use mosey.Vterm.Session.{SessionClient, min_seen, min_loop}
use mosey.Vterm.Session.{min_geometry}

-- The client has told its geometry.
abbrev pub Reported : SessionClient → Type 0
Reported c = (c.cols ≢ 0) × (c.rows ≢ 0)

abbrev pub Any : (SessionClient → Type 0) → List SessionClient → Type 0
Any P [] = ⊥
Any P (c ∷ cs) = P c ⊎ Any P cs

-- `n` is the least of `dim` over the clients that reported, or 0 where none has.
pub record IsLeast (dim : SessionClient → ℕ) (cs : List SessionClient) (n : ℕ) : Type 0 where
  pub below : All (λ c. Reported c → n ≤ dim c) cs
  pub attained :
      ((n ≡ 0) × All (λ c. ¬ Reported c) cs) ⊎ ((n ≢ 0) × Any (λ c. Reported c × (dim c ≡ n)) cs)

module _ (dim : SessionClient → ℕ)
    (dim_reported : (c : SessionClient) → Reported c → dim c ≢ 0) where
  -- One dimension of the loop.
  dim_step : ℕ → SessionClient → ℕ
  dim_step best c = if c.cols == 0 || c.rows == 0 then best else min_seen best (dim c)

  dim_loop : ℕ → List SessionClient → ℕ
  dim_loop best [] = best
  dim_loop best (c ∷ cs) = dim_loop (dim_step best c) cs

  -- What a round does to the least so far.
  dim_step_cases :
      (best : ℕ) (c : SessionClient)
      → ((¬ Reported c) × (dim_step best c ≡ best))
        ⊎ (Reported c
            × (dim_step best c ≢ 0)
            × (dim_step best c ≤ dim c)
            × (best ≢ 0 → dim_step best c ≤ best)
            × ((dim_step best c ≡ best) ⊎ (dim_step best c ≡ dim c)))
  unfolding dim_step
  dim_step_cases best c = elim (Bool-cases (c.cols == 0 || c.rows == 0)) [
    | inl unknown ↦ inl (λ p. ground (arith, p.0, p.1), rw unknown)
    | inr known ↦
        let reported : Reported c = ground arith in
        let nonzero : dim c ≢ 0 = dim_reported c reported in
        rw known (inr (reported, ground arith, ground arith, ground arith, ground arith))
  ]

  record Loop (best : ℕ) (cs : List SessionClient) (n : ℕ) : Type 0 where
    below : All (λ c. Reported c → n ≤ dim c) cs
    under : best ≢ 0 → (n ≤ best) × (n ≢ 0)
    source : (n ≡ best) ⊎ Any (λ c. Reported c × (dim c ≡ n)) cs
    unchanged : ((n ≡ best) × All (λ c. ¬ Reported c) cs) ⊎ (n ≢ 0)

  skip-Loop :
      (best n : ℕ) (c : SessionClient) (cs : List SessionClient)
      → ¬ Reported c
      → Loop best cs n
      → Loop best (c ∷ cs) n
  skip-Loop best n c cs unknown l = record {
    below = (λ p. absurd (unknown p), l.below);
    under = l.under;
    source = elim l.source [ inl e ↦ inl e | inr a ↦ inr (inr a) ];
    unchanged = elim l.unchanged [ inl (e, a) ↦ inl (e, (unknown, a)) | inr n ↦ inr n ];
  }

  take-Loop :
      (best best' n : ℕ) (c : SessionClient) (cs : List SessionClient)
      → Reported c
      → best' ≢ 0
      → best' ≤ dim c
      → (best ≢ 0 → best' ≤ best)
      → (best' ≡ best) ⊎ (best' ≡ dim c)
      → Loop best' cs n
      → Loop best (c ∷ cs) n
  take-Loop best best' n c cs known nz le_dim le_best one l = record {
    below = (λ p. le_trans (l.under nz).0 le_dim, l.below);
    under = λ b. (le_trans (l.under nz).0 (le_best b), (l.under nz).1);
    source = elim l.source [
      | inl e ↦ elim one [ inl o ↦ inl (e ∙ o) | inr o ↦ inr (inl (known, sym (e ∙ o))) ]
      | inr a ↦ inr (inr a)
    ];
    unchanged = inr (l.under nz).1;
  }

  dim_loop-Loop : (best : ℕ) (cs : List SessionClient) → Loop best cs (dim_loop best cs)
  unfolding dim_loop
  dim_loop-Loop best [] = record {
    below = tt;
    under = λ b. (omega arith, b);
    source = inl refl;
    unchanged = inl (refl, tt);
  }
  dim_loop-Loop best (c ∷ cs) = elim (dim_step_cases best c) [
    | inl (unknown, e) ↦
        rw e (skip-Loop best (dim_loop best cs) c cs unknown (dim_loop-Loop best cs))
    | inr (known, nz, le_dim, le_best, one) ↦
        take-Loop best (dim_step best c) (dim_loop (dim_step best c) cs) c cs known nz le_dim
          le_best one (dim_loop-Loop (dim_step best c) cs)
  ]

  dim_loop-IsLeast : (cs : List SessionClient) → IsLeast dim cs (dim_loop 0 cs)
  dim_loop-IsLeast cs = record {
    below = l.below;
    attained = elim l.unchanged [
      | inl (e, a) ↦ inl (e, a)
      | inr n ↦ elim l.source [ inl e ↦ absurd (n e) | inr a ↦ inr (n, a) ]
    ];
  }
    where
      l : Loop 0 cs (dim_loop 0 cs)
      l = dim_loop-Loop 0 cs

min_loop-dim_loop :
    (c r : ℕ) (cs : List SessionClient)
    → min_loop (c, r) cs
      ≡ (dim_loop (λ x. x.cols) (λ x p. p.0) c cs, dim_loop (λ x. x.rows) (λ x p. p.1) r cs)
unfolding min_loop dim_loop dim_step
min_loop-dim_loop c r [] = refl
min_loop-dim_loop c r (x ∷ cs) = elim (Bool-cases (x.cols == 0 || x.rows == 0)) [
  | inl unknown ↦ rw unknown (min_loop-dim_loop c r cs)
  | inr known ↦ rw known (min_loop-dim_loop (min_seen c x.cols) (min_seen r x.rows) cs)
]

-- The geometry that minGeometryLocked computes for a registry, before applyPTYSize cuts it to
-- 16 bits, is, in each dimension, the least over the clients that
-- have reported one, and 0 by 0 where none has.
pub min_geometry-IsLeast :
    (cs : List SessionClient)
    → IsLeast (λ c. c.cols) cs (min_geometry cs).0 × IsLeast (λ c. c.rows) cs (min_geometry cs).1
unfolding min_geometry
min_geometry-IsLeast cs = (
  subst (IsLeast (λ c. c.cols) cs) (sym (ap (λ t. t.0) (min_loop-dim_loop 0 0 cs)))
      (dim_loop-IsLeast (λ x. x.cols) (λ x p. p.0) cs),
  subst (IsLeast (λ c. c.rows) cs) (sym (ap (λ t. t.1) (min_loop-dim_loop 0 0 cs)))
      (dim_loop-IsLeast (λ x. x.rows) (λ x p. p.1) cs),
)
