-- ===== src/Wallet/Lenient.antt =====
-- wallet/caps.go: ParseCapsLenient, beside the strict parser.
use mosey.Base.{ℕ, ◌≡◌, refl, arith, Bool, true, false, List, [], ◌∷◌, Bytes, codes, bytes_eq}
use mosey.Base.{◌==◌, ◌||◌, if◌then◌else◌, Result, ok, err, ◌>>=◌, Result-cases, inl, inr}
use mosey.Base.Bits.{below, below_lem}
use mosey.Cert.Revocation.{trim_space, trim_front, space_width}
use mosey.Wallet.Text.{split, split_loop, has_prefix, join}
use mosey.Wallet.Caps.{
  CapsError, add_token, caps_string, caps_parts, has, parse_caps, parse_caps_iff,
}

-- One token of the loop; an empty one is passed over.
unfoldable pub add_trimmed : ℕ → Bytes → Result CapsError ℕ
add_trimmed c [] = ok c
add_trimmed c (b ∷ bs) = add_token c (b ∷ bs)

unfoldable pub add_trimmed_tokens : ℕ → List Bytes → Result CapsError ℕ
add_trimmed_tokens c [] = ok c
add_trimmed_tokens c (tok ∷ toks) =
    add_trimmed c (trim_space tok) >>= λ d. add_trimmed_tokens d toks

-- ParseCapsLenient
unfoldable pub parse_caps_lenient : Bytes → Result CapsError ℕ
parse_caps_lenient s =
    if bytes_eq (trim_space s) [] || bytes_eq s (codes "view-only")
    then ok 0
    else add_trimmed_tokens 0 (split (codes ",") s)

reads : ℕ → Bool
reads c = elim (parse_caps_lenient (caps_string c)) [ err e ↦ false | ok d ↦ d == c ]

reads_lem : (c : ℕ) → reads c ≡ true → parse_caps_lenient (caps_string c) ≡ ok c
unfolding reads
reads_lem c e = elim (Result-cases (parse_caps_lenient (caps_string c))) [
  | inl (x, bad) ↦ absurd (ground (arith, bad))
  | inr (d, good) ↦ ground (arith, good)
]

all_read : below 8 reads ≡ true
unfolding below reads parse_caps_lenient bytes_eq trim_space trim_front caps_string caps_parts has
    join space_width has_prefix add_trimmed_tokens split_loop add_trimmed add_token
all_read = refl

-- What ParseCaps reads, ParseCapsLenient reads as the same capabilities.
lenient_reads_strict : (s : Bytes) (c : ℕ) → parse_caps s ≡ ok c → parse_caps_lenient s ≡ ok c
lenient_reads_strict s c h =
    let (small, text) = (parse_caps_iff s c).0 h in
    rw text (reads_lem c (below_lem 8 reads c all_read small))
