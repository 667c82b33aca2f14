-- ===== src/Wallet/Text.antt =====
-- The functions of Go's `strings` that wallet/ uses, on byte strings.
use mosey.Base.{ℕ, zero, suc, ◌-◌, Bool, true, false, ◌&&◌, List, [], ◌∷◌, ◌++◌, Bytes, length}
use mosey.Base.{◌==◌, if◌then◌else◌}

-- strings.HasPrefix(s, prefix)
unfoldable pub has_prefix : Bytes → Bytes → Bool
has_prefix [] s = true
has_prefix (p ∷ ps) [] = false
has_prefix (p ∷ ps) (b ∷ bs) = p == b && has_prefix ps bs

-- strings.Split(s, sep) for a separator that is not empty: `skip` bytes of a separator are still to be
-- passed over, and `tok` is the token so far.
unfoldable pub split_loop : Bytes → ℕ → Bytes → Bytes → List Bytes
split_loop sep skip tok [] = tok ∷ []
split_loop sep (suc skip) tok (b ∷ bs) = split_loop sep skip tok bs
split_loop sep zero tok (b ∷ bs) =
    let next = split_loop sep (length sep - 1) [] bs in
    let more = split_loop sep zero (tok ++ b ∷ []) bs in
    if has_prefix sep (b ∷ bs) then tok ∷ next else more

abbrev pub split : Bytes → Bytes → List Bytes
split sep s = split_loop sep zero [] s

-- strings.Join(parts, sep)
unfoldable pub join : Bytes → List Bytes → Bytes
join sep [] = []
join sep (x ∷ []) = x
join sep (x ∷ y ∷ ys) = x ++ sep ++ join sep (y ∷ ys)
