-- ===== src/Wallet/Delegation/Lines.antt =====
-- wallet/delegation.go: the lines of a content, joined and split again.
use mosey.Base.{ℕ, zero, suc, ◌*◌, ◌<◌, ◌≡◌, ◌≢◌, refl, ◌∙◌, ap, arith, Bool, true, false, ◌==◌}
use mosey.Base.{
  List, [], ◌∷◌, ◌++◌, append-nil, append_assoc, Bytes, codes, All, Bool-cases, inl, inr,
}
use mosey.Base.{◌&&◌, length, not}
use mosey.Base.Bits.{below, below_lem}
use mosey.Wallet.Text.{split, split_loop, join, has_prefix}
use mosey.Wallet.Caps.{caps_string, caps_parts, has}
use mosey.Wallet.Base58.{
  base58_alphabet, base58_encode, letter, letters, leading, or_one, digits_loop,
}
use mosey.Wallet.Base58.{value_loop}

-- No line break in it.
abbrev pub OneLine : Bytes → Type 0
OneLine s = All (λ b. b ≢ 10) s

pub OneLine-append : (xs ys : Bytes) → OneLine xs → OneLine ys → OneLine (xs ++ ys)
OneLine-append [] ys p q = q
OneLine-append (x ∷ xs) ys p q = (p.0, OneLine-append xs ys p.1 q)

split-last : (tok l : Bytes) → OneLine l → split_loop (codes "\n") 0 tok l ≡ (tok ++ l) ∷ []
unfolding split_loop has_prefix
split-last tok [] one = rw (append-nil tok) refl
split-last tok (b ∷ bs) one =
    let e : (10 == b) ≡ false = ground (arith, one.0) in
    rw e (split-last (tok ++ b ∷ []) bs one.1 ∙ ap (λ l. l ∷ []) (append_assoc tok (b ∷ []) bs))

split-line :
    (tok l rest : Bytes)
    → OneLine l
    → split_loop (codes "\n") 0 tok (l ++ codes "\n" ++ rest)
      ≡ (tok ++ l) ∷ split_loop (codes "\n") 0 [] rest
unfolding split_loop has_prefix
split-line tok [] rest one = rw (append-nil tok) refl
split-line tok (b ∷ bs) rest one =
    let e : (10 == b) ≡ false = ground (arith, one.0) in
    rw e (
      split-line (tok ++ b ∷ []) bs rest one.1
      ∙ ap (λ l. l ∷ split_loop (codes "\n") 0 [] rest) (append_assoc tok (b ∷ []) bs))

-- Splitting at line breaks undoes joining with them.
pub split-join :
    (l : Bytes) (ls : List Bytes)
    → All OneLine (l ∷ ls)
    → split (codes "\n") (join (codes "\n") (l ∷ ls)) ≡ l ∷ ls
unfolding join
split-join l [] one = split-last [] l one.0
split-join l (m ∷ ms) one =
    split-line [] l (join (codes "\n") (m ∷ ms)) one.0 ∙ ap (◌∷◌ l) (split-join m ms one.1)

letter-OneLine : (cs : Bytes) (i : ℕ) → OneLine cs → letter cs i ≢ 10
unfolding letter
letter-OneLine [] i one = ground arith
letter-OneLine (c ∷ cs) zero one = one.0
letter-OneLine (c ∷ cs) (suc i) one = letter-OneLine cs i one.1

letters-OneLine : (ds : List ℕ) → OneLine (letters ds)
unfolding letters
letters-OneLine [] = tt
letters-OneLine (d ∷ ds) = (letter-OneLine base58_alphabet d (ground arith), letters-OneLine ds)

leading-OneLine : (b : Bytes) → OneLine (leading 0 b'1' b)
unfolding leading
leading-OneLine [] = tt
leading-OneLine (c ∷ cs) = elim (Bool-cases (c == 0)) [
  | inl z ↦ rw z (ground arith, leading-OneLine cs)
  | inr nz ↦ rw nz tt
]

or_one-OneLine : (s : Bytes) → OneLine s → OneLine (or_one s)
or_one-OneLine [] one = (ground arith, tt)
or_one-OneLine (c ∷ cs) one = one

pub base58_encode-OneLine : (b : Bytes) → OneLine (base58_encode b)
unfolding base58_encode
base58_encode-OneLine b =
    let ds = digits_loop 58 (2 * length b) (value_loop 256 0 b) [] in
    or_one-OneLine (leading 0 b'1' b ++ letters ds)
      (OneLine-append (leading 0 b'1' b) (letters ds) (leading-OneLine b) (letters-OneLine ds))

is_one_line : Bytes → Bool
is_one_line [] = true
is_one_line (b ∷ bs) = not (b == 10) && is_one_line bs

is_one_line_lem : (s : Bytes) → is_one_line s ≡ true → OneLine s
unfolding is_one_line
is_one_line_lem [] e = tt
is_one_line_lem (b ∷ bs) e = (ground arith, is_one_line_lem bs (ground arith))

caps_one_line : below 8 (λ c. is_one_line (caps_string c)) ≡ true
unfolding below is_one_line caps_string caps_parts has join
caps_one_line = refl

pub caps_string-OneLine : (c : ℕ) → c < 8 → OneLine (caps_string c)
caps_string-OneLine c lt =
    is_one_line_lem (caps_string c)
      (below_lem 8 (λ d. is_one_line (caps_string d)) c caps_one_line lt)
