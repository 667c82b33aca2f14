-- ===== src/Attach/Errors.antt =====
-- attach/attach.go, attach/control.go and transport/errors.go: how the client judges an error. An error is
-- its text and what errors.Is says of it.
use mosey.Base.{ℕ, ◌+◌, Bool, true, false, Option, none, some, List, [], ◌∷◌, ◌++◌, Bytes}
use mosey.Base.{
  codes, length, ◌==◌, leb, ◌&&◌, ◌||◌, if◌then◌else◌, ◌≡◌, ◌↔◌, refl, ap, arith, inl, inr,
}
use mosey.Base.{◌⊎◌, ◌∙◌, length-append}
use mosey.Wallet.Text.{has_prefix}

pub record GoError : Type 0 where
  pub text : Bytes
  pub is_eof : Bool
  pub is_reset : Bool
  pub is_canceled : Bool
  pub is_deadline : Bool

-- fmt.Errorf with a prefix and %w.
abbrev pub wrap_error : Bytes → GoError → GoError
wrap_error prefix e = record e { text = prefix ++ e.text }

-- indexOf, from the position `i` on; `none` is its -1.
unfoldable pub index_from : ℕ → Bytes → Bytes → Option ℕ
index_from i [] sub = if length sub == 0 then some i else none
index_from i (b ∷ bs) sub =
    let rest = index_from (i + 1) bs sub in
    if leb (length sub) (length (b ∷ bs))
    then (if has_prefix sub (b ∷ bs) then some i else rest)
    else none

abbrev pub found : Option ℕ → Bool
found none = false
found (some i) = true

-- contains
unfoldable pub contains : Bytes → Bytes → Bool
contains s sub = length sub == 0 || (leb (length sub) (length s) && found (index_from 0 s sub))

unfoldable pub contains_one : Bytes → List Bytes → Bool
contains_one s [] = false
contains_one s (sub ∷ subs) = let rest = contains_one s subs in contains s sub || rest

abbrev pub fatal_texts : List Bytes
fatal_texts =
    codes "unauthorized"
    ∷ codes "unsupported scheme"
    ∷ codes "missing host"
    ∷ codes "missing scheme"
    ∷ []

-- isFatalDialError
unfoldable pub is_fatal_dial_error : Option GoError → Bool
is_fatal_dial_error none = false
is_fatal_dial_error (some e) = e.is_canceled || e.is_deadline || contains_one e.text fatal_texts

abbrev pub shutdown_texts : List Bytes
shutdown_texts =
    codes "sent go away"
    ∷ codes "connection closed"
    ∷ codes "stream reset"
    ∷ codes "use of closed network connection"
    ∷ []

-- IsExpectedShutdown
unfoldable pub is_expected_shutdown : Option GoError → Bool
is_expected_shutdown none = true
is_expected_shutdown (some e) =
    e.is_eof || e.is_reset || e.is_canceled || e.is_deadline || contains_one e.text shutdown_texts

-- isProtocolNotSupported
unfoldable pub is_protocol_not_supported : Option GoError → Bool
is_protocol_not_supported none = false
is_protocol_not_supported (some e) =
    contains_one e.text (codes "protocol not supported" ∷ codes "protocols not supported" ∷ [])

found_either :
    (d : Bool) (i : ℕ) (x : Option ℕ) → found x ≡ true → found (if d then some i else x) ≡ true
found_either true i x h = refl
found_either false i x h = h

-- `sub` stands somewhere in `s`.
abbrev pub Within : Bytes → Bytes → Type 0
Within sub s = (before after : Bytes) × (s ≡ before ++ sub ++ after)

has_prefix-split : (sub s : Bytes) → has_prefix sub s ≡ true → (after : Bytes) × (s ≡ sub ++ after)
unfolding has_prefix
has_prefix-split [] s h = (s, refl)
has_prefix-split (p ∷ ps) [] h = absurd (cc)
has_prefix-split (p ∷ ps) (b ∷ bs) h =
    let (after, e) = has_prefix-split ps bs (ground arith) in
    let same : b ≡ p = ground arith in (after, ap (λ x. x ∷ bs) same ∙ ap (◌∷◌ p) e)

has_prefix-append : (sub after : Bytes) → has_prefix sub (sub ++ after) ≡ true
unfolding has_prefix
has_prefix-append [] after = refl
has_prefix-append (p ∷ ps) after = ground (arith, has_prefix-append ps after)

found_if : (c : Bool) (i : ℕ) → found (if c then some i else none) ≡ true → c ≡ true
found_if true i h = refl
found_if false i h = absurd (cc)

index_from_branch :
    (c d : Bool) (i : ℕ) (x : Option ℕ)
    → found (if c then (if d then some i else x) else none) ≡ true
    → (d ≡ true) ⊎ (found x ≡ true)
index_from_branch true true i x h = inl refl
index_from_branch true false i x h = inr h
index_from_branch false d i x h = absurd (cc)

index_from-Within :
    (s : Bytes) (i : ℕ) (sub : Bytes) → found (index_from i s sub) ≡ true → Within sub s
unfolding index_from
index_from-Within [] i [] h = ([], [], refl)
index_from-Within [] i (p ∷ ps) h =
    absurd (let z = found_if (length (p ∷ ps) == 0) i h in ground arith)
index_from-Within (b ∷ bs) i sub h =
    elim (index_from_branch _ (has_prefix sub (b ∷ bs)) i (index_from (i + 1) bs sub) h) [
      | inl here ↦ (let (after, e) = has_prefix-split sub (b ∷ bs) here in ([], after, e))
      | inr later ↦
          (let (before, after, e) = index_from-Within bs (i + 1) sub later in
            (b ∷ before, after, ap (◌∷◌ b) e))
    ]

fits_within : (before sub after : Bytes) → leb (length sub) (length (before ++ sub ++ after)) ≡ true
fits_within before sub after =
    rw (length-append (before ++ sub) after, length-append before sub) (ground arith)

Within-index_from :
    (before : Bytes) (i : ℕ) (sub after : Bytes)
    → found (index_from i (before ++ sub ++ after) sub) ≡ true
unfolding index_from has_prefix
Within-index_from [] i [] [] = refl
Within-index_from [] i [] (a ∷ after) = rw (fits_within [] [] (a ∷ after)) refl
Within-index_from [] i (p ∷ ps) after =
    rw (fits_within [] (p ∷ ps) after, has_prefix-append (p ∷ ps) after) refl
Within-index_from (b ∷ before) i sub after = rw (fits_within (b ∷ before) sub after) (
    found_either (has_prefix sub (b ∷ (before ++ sub ++ after))) i _
      (Within-index_from before (i + 1) sub after))

contains-Within : (s sub : Bytes) → contains s sub ≡ true → Within sub s
unfolding contains
contains-Within s [] h = ([], s, refl)
contains-Within s (p ∷ ps) h = index_from-Within s 0 (p ∷ ps) (ground arith)

Within-contains : (before sub after : Bytes) → contains (before ++ sub ++ after) sub ≡ true
unfolding contains
Within-contains before [] after = refl
Within-contains before (p ∷ ps) after =
    rw (fits_within before (p ∷ ps) after, Within-index_from before 0 (p ∷ ps) after) (ground arith)

-- contains is strings.Contains: it finds a text exactly where the text is a contiguous part.
pub contains_iff : (s sub : Bytes) → (contains s sub ≡ true) ↔ Within sub s
contains_iff s sub =
    (contains-Within s sub, λ (before, after, e). rw e (Within-contains before sub after))
