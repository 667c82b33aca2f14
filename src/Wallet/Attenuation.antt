-- ===== src/Wallet/Attenuation.antt =====
-- wallet/caps.go: `Subset` composes.
use mosey.Base.{ℕ, ◌<◌, ◌≡◌, refl, arith, Bool, true, ◌&&◌, ◌||◌, not}
use mosey.Base.Bits.{below, below_lem}
use mosey.Wallet.Caps.{subset}

chains : ℕ → ℕ → ℕ → Bool
chains a b c = not (subset a b && subset b c) || subset a c

all_chain : below 8 (λ a. below 8 (λ b. below 256 (chains a b))) ≡ true
unfolding below chains subset
all_chain = refl

-- Attenuation composes, for the capability sets that a text can name below any root's.
pub subset_trans :
    (a b c : ℕ)
    → a < 8
    → b < 8
    → c < 256
    → subset a b ≡ true
    → subset b c ≡ true
    → subset a c ≡ true
unfolding chains
subset_trans a b c la lb lc p q =
    let t = below_lem 8 (λ x. below 8 (λ y. below 256 (chains x y))) a all_chain la in
    let u = below_lem 8 (λ y. below 256 (chains a y)) b t lb in
    let v = below_lem 256 (chains a b) c u lc in ground (arith, v)
