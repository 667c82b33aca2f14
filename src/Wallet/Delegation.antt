-- ===== src/Wallet/Delegation.antt =====
-- wallet/delegation.go: the canonical text of a delegation, its strict parser and its signature.
-- Go's time.Parse and time.Format for RFC 3339 and its ed25519.Verify are parameters. A time is a
-- number of nanoseconds.
pub mod Lines
pub mod RoundTrip
use mosey.Base.{ℕ, ◌+◌, ◌*◌, ◌/◌, Bool, Option, none, some, List, [], ◌∷◌, ◌++◌, Bytes, codes}
use mosey.Base.{bytes_eq, length, drop, ◌==◌, Result, ok, err, ◌>>=◌, unless}
use mosey.Wallet.Text.{has_prefix, split, join}
use mosey.Wallet.Caps.{CapsError, parse_caps, caps_string}
use mosey.Wallet.Base58.{Base58Error, base58_encode, base58_decode}

-- What the package takes from Go's libraries.
pub record Library : Type 0 where
  pub parse_rfc3339 : Bytes → Option ℕ
  pub format_rfc3339 : ℕ → Bytes
  pub ed25519_verify : Bytes → Bytes → Bytes → Bool

abbrev pub public_key_size : ℕ
public_key_size = 32

abbrev pub signature_size : ℕ
signature_size = 64

abbrev pub nonce_size : ℕ
nonce_size = 16

abbrev pub max_chain_depth : ℕ
max_chain_depth = 8

-- Fields
pub record Fields : Type 0 where
  pub session_id : Bytes
  pub delegator : Bytes
  pub delegate : Bytes
  pub caps : ℕ
  pub not_before : ℕ
  pub not_after : ℕ
  pub nonce : Bytes

-- Delegation
pub record Delegation : Type 0 where
  pub content : Bytes
  pub signature : Bytes

-- Why a content is off-grammar.
pub data ContentError : Type 0 where
  line_count : ℕ → ContentError
  bad_header bad_blank : ContentError
  bad_line : ℕ → ContentError
  bad_base58 : Base58Error → ContentError
  bad_size : ℕ → ContentError
  bad_caps : CapsError → ContentError
  bad_timestamp non_canonical_timestamp : Bytes → ContentError

-- The errors of the package's `var` block, and that of a content.
pub data WalletError : Type 0 where
  empty_chain chain_too_long bad_key bad_signature broken_link leaf_mismatch : WalletError
  attenuation not_yet_valid expired wrong_session unknown_root forge_required : WalletError
  bad_content : ContentError → WalletError

abbrev pub content_header : Bytes
content_header = codes "mosey session authorization v1"

-- renderTime
abbrev pub render_time : Library → ℕ → Bytes
render_time lib t = lib.format_rfc3339 (t / 1000000000 * 1000000000)

-- Render
unfoldable pub render : Library → Fields → Bytes
render lib f = join (codes "\n") (
    content_header
    ∷ []
    ∷ (codes "session: " ++ base58_encode f.session_id)
    ∷ (codes "delegator: " ++ base58_encode f.delegator)
    ∷ (codes "delegate: " ++ base58_encode f.delegate)
    ∷ (codes "caps: " ++ caps_string f.caps)
    ∷ (codes "not-before: " ++ render_time lib f.not_before)
    ∷ (codes "not-after: " ++ render_time lib f.not_after)
    ∷ (codes "nonce: " ++ base58_encode f.nonce)
    ∷ [])

-- parseTime
unfoldable pub parse_time : Library → Bytes → Result ContentError ℕ
parse_time lib s = elim (lib.parse_rfc3339 s) [
  | none ↦ err (bad_timestamp s)
  | some t ↦ unless (bytes_eq (render_time lib t) s) (non_canonical_timestamp s) (ok t)
]

-- `lines[i]`; the caller has counted the lines.
abbrev pub line : ℕ → List Bytes → Bytes
line i lines = elim (drop i lines) [ [] ↦ [] | l ∷ ls ↦ l ]

-- The closures `field` and `key32` of ParseContent.
unfoldable pub field : List Bytes → ℕ → Bytes → Result ContentError Bytes
field lines i key =
    let prefix = key ++ codes ": " in
    unless (has_prefix prefix (line i lines)) (bad_line (i + 1))
      (ok (drop (length prefix) (line i lines)))

abbrev pub lift_base58 : Result Base58Error Bytes → Result ContentError Bytes
lift_base58 (err e) = err (bad_base58 e)
lift_base58 (ok b) = ok b

abbrev pub lift_caps : Result CapsError ℕ → Result ContentError ℕ
lift_caps (err e) = err (bad_caps e)
lift_caps (ok c) = ok c

abbrev pub sized_bytes : ℕ → Bytes → Result ContentError Bytes
sized_bytes n s =
    lift_base58 (base58_decode s) >>= λ b. unless (length b == n) (bad_size (length b)) (ok b)

unfoldable pub key32 : List Bytes → ℕ → Bytes → Result ContentError Bytes
key32 lines i name = field lines i name >>= λ s. sized_bytes public_key_size s

-- ParseContent behind the checks of the first two lines.
unfoldable pub parse_fields : Library → List Bytes → Result ContentError Fields
parse_fields lib lines = do
  session_id ← key32 lines 2 (codes "session")
  delegator ← key32 lines 3 (codes "delegator")
  delegate ← key32 lines 4 (codes "delegate")
  caps_text ← field lines 5 (codes "caps")
  caps ← lift_caps (parse_caps caps_text)
  before_text ← field lines 6 (codes "not-before")
  not_before ← parse_time lib before_text
  after_text ← field lines 7 (codes "not-after")
  not_after ← parse_time lib after_text
  nonce_text ← field lines 8 (codes "nonce")
  nonce ← sized_bytes nonce_size nonce_text
  ok (record {
    session_id = session_id;
    delegator = delegator;
    delegate = delegate;
    caps = caps;
    not_before = not_before;
    not_after = not_after;
    nonce = nonce;
  })

abbrev pub parse_lines : Library → List Bytes → Result ContentError Fields
parse_lines lib lines = unless (length lines == 9) (line_count (length lines)) (
    unless (bytes_eq (line 0 lines) content_header) bad_header
      (unless (bytes_eq (line 1 lines) []) bad_blank (parse_fields lib lines)))

-- ParseContent
unfoldable pub parse_content : Library → Bytes → Result ContentError Fields
parse_content lib content = parse_lines lib (split (codes "\n") content)

abbrev pub lift_content : Result ContentError Fields → Result WalletError Fields
lift_content (err e) = err (bad_content e)
lift_content (ok f) = ok f

-- Delegation.Fields
abbrev pub delegation_fields : Library → Delegation → Result WalletError Fields
delegation_fields lib d = lift_content (parse_content lib d.content)

-- Delegation.Verify
unfoldable pub verify : Library → Delegation → Result WalletError Fields
verify lib d = delegation_fields lib d >>= λ f.
    unless (length f.delegator == public_key_size) bad_key (
      unless (length d.signature == signature_size) bad_signature
        (unless (lib.ed25519_verify f.delegator d.content d.signature) bad_signature (ok f)))
