-- ===== src/Wallet/Caps.antt =====
-- wallet/caps.go: the capability bits, and their canonical text.
use Prim.Native.Nat.{bit_and, bit_or}
use mosey.Base.{ℕ, ◌-◌, ◌<◌, ◌≡◌, ◌↔◌, refl, ◌∙◌, ap, arith, Bool, true, false}
use mosey.Base.{List, [], ◌∷◌, ◌++◌, Bytes, codes, bytes_eq, bytes_eq→eq}
use mosey.Base.{◌==◌, if◌then◌else◌, Result, ok, err, ◌>>=◌, inl, inr, Bool-cases}
use mosey.Base.{Result-cases, ltb}
use mosey.Base.Bits.{below, below_lem}
use mosey.Wallet.Text.{split, join, split_loop, has_prefix}

-- A `Caps` is a uint8.
abbrev pub cap_write : ℕ
cap_write = 1

abbrev pub cap_resize : ℕ
cap_resize = 2

abbrev pub cap_forge : ℕ
cap_forge = 4

abbrev pub all_caps : ℕ
all_caps = 7

-- Has
unfoldable pub has : ℕ → ℕ → Bool
has c x = bit_and c x == x

-- Subset: `c &^ of` is `c & (^of)`, with `^of` of a uint8.
unfoldable pub subset : ℕ → ℕ → Bool
subset c of = bit_and c (255 - of) == 0

-- The parts of String.
abbrev pub part : ℕ → ℕ → Bytes → List Bytes
part c x name = if has c x then name ∷ [] else []

unfoldable pub caps_parts : ℕ → List Bytes
caps_parts c =
    part c cap_write (codes "write")
    ++ part c cap_resize (codes "resize")
    ++ part c cap_forge (codes "forge")

abbrev pub or_view_only : List Bytes → Bytes
or_view_only [] = codes "view-only"
or_view_only (x ∷ xs) = join (codes ", ") (x ∷ xs)

-- String
unfoldable pub caps_string : ℕ → Bytes
caps_string c = or_view_only (caps_parts c)

-- The errors carry the refused token or text.
pub data CapsError : Type 0 where
  invalid_token : Bytes → CapsError
  not_canonical : Bytes → CapsError

-- One token of the loop of ParseCaps.
unfoldable pub add_token : ℕ → Bytes → Result CapsError ℕ
add_token c tok =
    if bytes_eq tok (codes "write")
    then ok (bit_or c cap_write)
    else if bytes_eq tok (codes "resize")
    then ok (bit_or c cap_resize)
    else if bytes_eq tok (codes "forge")
    then ok (bit_or c cap_forge)
    else err (invalid_token tok)

unfoldable pub add_tokens : ℕ → List Bytes → Result CapsError ℕ
add_tokens c [] = ok c
add_tokens c (tok ∷ toks) = add_token c tok >>= λ d. add_tokens d toks

abbrev pub canonical : Bytes → ℕ → Result CapsError ℕ
canonical s c = if bytes_eq (caps_string c) s then ok c else err (not_canonical s)

-- ParseCaps
unfoldable pub parse_caps : Bytes → Result CapsError ℕ
parse_caps s =
    if bytes_eq s (codes "view-only")
    then ok 0
    else add_tokens 0 (split (codes ", ") s) >>= canonical s

canonical_text : (s : Bytes) (c d : ℕ) → canonical s c ≡ ok d → (c ≡ d) × (s ≡ caps_string d)
canonical_text s c d e = ground (arith, bytes_eq→eq (caps_string c) s)

or_small : (x : ℕ) → below 8 (λ c. ltb (bit_or c x) 8) ≡ true → (c : ℕ) → c < 8 → bit_or c x < 8
or_small x table c lt = ground (arith, below_lem 8 (λ d. ltb (bit_or d x) 8) c table lt)

add_token-lt : (c : ℕ) (tok : Bytes) (d : ℕ) → c < 8 → add_token c tok ≡ ok d → d < 8
unfolding add_token below
add_token-lt c tok d lt e =
    ground (arith, or_small 1 refl c lt, or_small 2 refl c lt, or_small 4 refl c lt)

add_tokens-lt : (toks : List Bytes) (c d : ℕ) → c < 8 → add_tokens c toks ≡ ok d → d < 8
unfolding add_tokens
add_tokens-lt [] c d lt e = ground arith
add_tokens-lt (tok ∷ toks) c d lt e = elim (Result-cases (add_token c tok)) [
  | inl (x, bad) ↦ absurd (ground (arith, bad))
  | inr (c', good) ↦ add_tokens-lt toks c' d (add_token-lt c tok c' lt good) (rw good at e)
]

empty_text : codes "view-only" ≡ caps_string 0
unfolding caps_string caps_parts has
empty_text = refl

from_tokens :
    (s : Bytes) (r : Result CapsError ℕ) (c : ℕ)
    → ((d : ℕ) → 0 < 8 → r ≡ ok d → d < 8)
    → (r >>= canonical s) ≡ ok c
    → (c < 8) × (s ≡ caps_string c)
from_tokens s (err x) c small e = absurd (cc)
from_tokens s (ok d) c small e =
    let (same, text) = canonical_text s d c e in (rw (← same) (small d (omega arith) refl), text)

parsed_is_canonical : (s : Bytes) (c : ℕ) → parse_caps s ≡ ok c → (c < 8) × (s ≡ caps_string c)
unfolding parse_caps
parsed_is_canonical s c e = elim (Bool-cases (bytes_eq s (codes "view-only"))) [
  | inl v ↦
      let q : ok 0 ≡ ok c = rw v at e in
      let z : 0 ≡ c = ground arith in
      (omega (arith, z), bytes_eq→eq s (codes "view-only") v ∙ empty_text ∙ ap caps_string z)
  | inr n ↦
      let q : (add_tokens 0 (split (codes ", ") s) >>= canonical s) ≡ ok c = rw n at e in
      from_tokens s (add_tokens 0 (split (codes ", ") s)) c (add_tokens-lt (split (codes ", ") s) 0)
        q
]

parses : ℕ → Bool
parses c = elim (parse_caps (caps_string c)) [ err e ↦ false | ok d ↦ d == c ]

parses_lem : (c : ℕ) → parses c ≡ true → parse_caps (caps_string c) ≡ ok c
unfolding parses
parses_lem c e = elim (Result-cases (parse_caps (caps_string c))) [
  | inl (x, bad) ↦ absurd (ground (arith, bad))
  | inr (d, good) ↦ ground (arith, good)
]

all_parse : below 8 parses ≡ true
unfolding below parses parse_caps add_tokens add_token caps_string caps_parts has split_loop
    has_prefix bytes_eq join
all_parse = refl

string_parses : (c : ℕ) → c < 8 → parse_caps (caps_string c) ≡ ok c
string_parses c lt = parses_lem c (below_lem 8 parses c all_parse lt)

-- ParseCaps is the strict inverse of String: it accepts exactly the canonical text of each set of
-- capabilities, and gives that set.
pub parse_caps_iff : (s : Bytes) (c : ℕ) → (parse_caps s ≡ ok c) ↔ ((c < 8) × (s ≡ caps_string c))
parse_caps_iff s c = (parsed_is_canonical s c, λ p. rw p.1 (string_parses c p.0))
