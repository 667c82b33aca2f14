-- ===== src/Wallet/Delegation/RoundTrip.antt =====
-- wallet/delegation.go: what Render writes, ParseContent reads back.
use mosey.Base.{ℕ, suc, ◌*◌, ◌/◌, ◌<◌, ◌≡◌, refl, sym, ◌∙◌, ap, subst, arith, true}
use mosey.Base.{some, List, [], ◌∷◌, ◌++◌, Bytes, codes, bytes_eq, bytes_eq_self, All}
use mosey.Base.{length, ok}
use mosey.Wallet.Text.{has_prefix, split, join}
use mosey.Wallet.Caps.{caps_string, parse_caps_iff}
use mosey.Wallet.Base58.{base58_encode}
use mosey.Wallet.Base58.RoundTrip.{decode-encode}
use mosey.Wallet.Delegation.{Library, Fields, render, render_time, parse_time}
use mosey.Wallet.Delegation.{field, key32, sized_bytes, parse_fields}
use mosey.Wallet.Delegation.{parse_lines, parse_content, content_header}
use mosey.Wallet.Delegation.Lines.{OneLine, OneLine-append, split-join, base58_encode-OneLine}
use mosey.Wallet.Delegation.Lines.{caps_string-OneLine}

-- A byte string of this size.
pub record Sized (n : ℕ) (b : Bytes) : Type 0 where
  pub size : length b ≡ n
  pub bytes : All (λ c. c < 256) b

-- Whole seconds, which the library writes in one line and reads back.
pub record Readable (lib : Library) (t : ℕ) : Type 0 where
  pub whole : t / 1000000000 * 1000000000 ≡ t
  pub one_line : OneLine (lib.format_rfc3339 t)
  pub read : lib.parse_rfc3339 (lib.format_rfc3339 t) ≡ some t

-- The fields of a delegation as they are made: keys, nonce, capabilities and times.
pub record Canonical (lib : Library) (f : Fields) : Type 0 where
  pub session_id : Sized 32 f.session_id
  pub delegator : Sized 32 f.delegator
  pub delegate : Sized 32 f.delegate
  pub caps : f.caps < 8
  pub not_before : Readable lib f.not_before
  pub not_after : Readable lib f.not_after
  pub nonce : Sized 16 f.nonce

sized_bytes-encode :
    (n : ℕ) (b : Bytes) → Sized (suc n) b → sized_bytes (suc n) (base58_encode b) ≡ ok b
sized_bytes-encode n [] s = absurd (let e : 0 ≡ suc n = s.size in omega (arith, e))
sized_bytes-encode n (c ∷ cs) s =
    rw (decode-encode (c ∷ cs) s.bytes (λ e. cc)) (ground (arith, s.size))

parse_time-format :
    (lib : Library) (t : ℕ) → Readable lib t → parse_time lib (lib.format_rfc3339 t) ≡ ok t
unfolding parse_time
parse_time-format lib t r =
    let same : bytes_eq (render_time lib t) (lib.format_rfc3339 t) ≡ true =
      ap (λ u. bytes_eq (lib.format_rfc3339 u) (lib.format_rfc3339 t)) r.whole
      ∙ bytes_eq_self (lib.format_rfc3339 t) in
    rw (r.read, same, parse_time)

parse_time-render :
    (lib : Library) (t : ℕ) → Readable lib t → parse_time lib (render_time lib t) ≡ ok t
parse_time-render lib t r =
    ap (λ u. parse_time lib (lib.format_rfc3339 u)) r.whole ∙ parse_time-format lib t r

module _ (lib : Library) (f : Fields) (v : Canonical lib f) where
  lines : List Bytes
  lines =
      content_header
      ∷ []
      ∷ (codes "session: " ++ base58_encode f.session_id)
      ∷ (codes "delegator: " ++ base58_encode f.delegator)
      ∷ (codes "delegate: " ++ base58_encode f.delegate)
      ∷ (codes "caps: " ++ caps_string f.caps)
      ∷ (codes "not-before: " ++ render_time lib f.not_before)
      ∷ (codes "not-after: " ++ render_time lib f.not_after)
      ∷ (codes "nonce: " ++ base58_encode f.nonce)
      ∷ []

  session-read : key32 lines 2 (codes "session") ≡ ok f.session_id
  unfolding key32 field lines has_prefix
  session-read = sized_bytes-encode 31 f.session_id v.session_id

  delegator-read : key32 lines 3 (codes "delegator") ≡ ok f.delegator
  unfolding key32 field lines has_prefix
  delegator-read = sized_bytes-encode 31 f.delegator v.delegator

  delegate-read : key32 lines 4 (codes "delegate") ≡ ok f.delegate
  unfolding key32 field lines has_prefix
  delegate-read = sized_bytes-encode 31 f.delegate v.delegate

  -- The fields that are read as texts first.
  caps-text : field lines 5 (codes "caps") ≡ ok (caps_string f.caps)
  unfolding field lines has_prefix
  caps-text = refl

  before-text : field lines 6 (codes "not-before") ≡ ok (render_time lib f.not_before)
  unfolding field lines has_prefix
  before-text = refl

  after-text : field lines 7 (codes "not-after") ≡ ok (render_time lib f.not_after)
  unfolding field lines has_prefix
  after-text = refl

  nonce-text : field lines 8 (codes "nonce") ≡ ok (base58_encode f.nonce)
  unfolding field lines has_prefix
  nonce-text = refl

  fields-read : parse_fields lib lines ≡ ok f
  unfolding parse_fields
  fields-read =
      rw
        (
          session-read,
          delegator-read,
          delegate-read,
          caps-text,
          (parse_caps_iff (caps_string f.caps) f.caps).1 (v.caps, refl),
          before-text,
          parse_time-render lib f.not_before v.not_before,
          after-text,
          parse_time-render lib f.not_after v.not_after,
          nonce-text,
          sized_bytes-encode 15 f.nonce v.nonce,
        )
        refl

  lines-read : parse_lines lib lines ≡ ok f
  unfolding lines bytes_eq
  lines-read = fields-read

  time-OneLine : (t : ℕ) → Readable lib t → OneLine (render_time lib t)
  time-OneLine t r = subst (λ u. OneLine (lib.format_rfc3339 u)) (sym r.whole) r.one_line

  keyed : (key b : Bytes) → OneLine key → OneLine (key ++ base58_encode b)
  keyed key b one = OneLine-append key (base58_encode b) one (base58_encode-OneLine b)

  lines-OneLine : All OneLine lines
  unfolding lines
  lines-OneLine = (
    ground arith,
    (
      tt,
      (
        keyed (codes "session: ") f.session_id (ground arith),
        (
          keyed (codes "delegator: ") f.delegator (ground arith),
          (
            keyed (codes "delegate: ") f.delegate (ground arith),
            (
              OneLine-append (codes "caps: ") (caps_string f.caps) (ground arith)
                  (caps_string-OneLine f.caps v.caps),
              (
                OneLine-append (codes "not-before: ") (render_time lib f.not_before) (ground arith)
                    (time-OneLine f.not_before v.not_before),
                (
                  OneLine-append (codes "not-after: ") (render_time lib f.not_after) (ground arith)
                      (time-OneLine f.not_after v.not_after),
                  (keyed (codes "nonce: ") f.nonce (ground arith), tt),
                ),
              ),
            ),
          ),
        ),
      ),
    ),
  )

  lines-split : split (codes "\n") (join (codes "\n") lines) ≡ lines
  unfolding lines
  lines-split = split-join content_header _ lines-OneLine

-- Rendering and parsing give the fields back, for keys of 32 bytes, a nonce of 16, capabilities that
-- have a name and times in whole seconds that Go's library reads back from one line as it wrote them.
pub parse_content-render :
    (lib : Library) (f : Fields) → Canonical lib f → parse_content lib (render lib f) ≡ ok f
unfolding parse_content render lines
parse_content-render lib f v = ap (parse_lines lib) (lines-split lib f v) ∙ lines-read lib f v
