-- ===== src/Examples/Wallets.antt =====
-- The theorems on wallet credentials at concrete inputs.
use mosey.Base.{
  ℕ, zero, suc, ◌==◌, ◌<◌, ◌≡◌, ◌≢◌, ◌↔◌, refl, arith, true, false, Option, none, some,
}
use mosey.Base.{List, [], ◌∷◌, ◌++◌, Bytes, codes, bytes_eq, if◌then◌else◌, ok}
use mosey.Wallet.Text.{split_loop, has_prefix, join}
use mosey.Wallet.Caps.{has, subset, caps_string, caps_parts, parse_caps, parse_caps_iff, add_tokens}
use mosey.Wallet.Caps.{add_token}
use mosey.Wallet.Base58.{base58_encode, base58_decode, value_loop, digits_loop, letters, letter}
use mosey.Wallet.Base58.{leading, decode_loop, index_from}
use mosey.Wallet.Delegation.{Library, Delegation, render, parse_time, field, key32}
use mosey.Wallet.Delegation.{parse_fields, parse_content, verify}
use mosey.Wallet.Fold.{Snapshot, mem_snapshot, with_grant, fold, admit_hops, admit_hop, linked}
use mosey.Wallet.Fold.{last_hop, root_caps, attenuate, forges, fold_fields}
use mosey.Base.{All, length}
use mosey.Wallet.Delegation.{Fields}
use mosey.Wallet.Delegation.RoundTrip.{Sized, Canonical, parse_content-render}
use mosey.Auth.Identity.{PeerIdentity}
use mosey.Auth.Wallets.{Answers, Exchange, server_handshake, resolve_caps, chain_root}
use mosey.Auth.Wallets.Admission.{Admitted, server_handshake-Admitted}
use mosey.Wallet.Fold.Accepts.{Authorized, fold_iff}
use mosey.Wallet.Base58.RoundTrip.{decode-encode}
use mosey.Wallet.Fold.Attenuates.{fold_attenuates}
use mosey.Auth.Wallets.Dials.{WalletClient, WalletChallenge, challenge_message}
use mosey.Auth.Wallets.Dials.{Reached, session_reached, wallet_client_handshake}
use mosey.Auth.Wallets.Dials.{wallet_client-Reached}

-- The encoder on a known value.
base58_hello : base58_encode (codes "Hello World!") ≡ codes "2NEpo7TZRRrLZSi2U"
unfolding base58_encode leading letters letter digits_loop value_loop
base58_hello = refl

base58_hello_back : base58_decode (codes "2NEpo7TZRRrLZSi2U") ≡ ok (codes "Hello World!")
unfolding base58_decode leading decode_loop digits_loop index_from
base58_hello_back = refl

parse_caps_iff_example :
    (parse_caps (codes "write, forge") ≡ ok 5) ↔ ((5 < 8) × (codes "write, forge" ≡ caps_string 5))
parse_caps_iff_example = parse_caps_iff (codes "write, forge") 5

abbrev copies : ℕ → ℕ → Bytes
copies zero b = []
copies (suc n) b = b ∷ copies n b

-- Times are read from the digits of one minute, and a signature is the key twice.
abbrev minute : Bytes → Option ℕ
minute s =
    if bytes_eq s (codes "2026-01-01T00:00:00Z")
    then some 0
    else if bytes_eq s (codes "2026-01-01T00:01:00Z")
    then some 60000000000
    else none

abbrev library : Library
library = record {
  parse_rfc3339 = minute;
  format_rfc3339 =
      λ t. if t == 0 then codes "2026-01-01T00:00:00Z" else codes "2026-01-01T00:01:00Z";
  ed25519_verify = λ key content signature. bytes_eq signature (key ++ key);
}

abbrev grantee : Bytes
grantee = copies 32 7

abbrev viewer : Bytes
viewer = copies 32 9

abbrev connection : Bytes
connection = copies 32 11

abbrev session_key : Bytes
session_key = copies 32 13

abbrev grant_fields : Bytes → Bytes → ℕ → Fields
grant_fields delegator delegate caps = record {
  session_id = session_key;
  delegator = delegator;
  delegate = delegate;
  caps = caps;
  not_before = 0;
  not_after = 60000000000;
  nonce = copies 16 3;
}

abbrev hop : Bytes → Bytes → ℕ → Delegation
hop delegator delegate caps = record {
  content = render library (grant_fields delegator delegate caps);
  signature = delegator ++ delegator;
}

abbrev chain : List Delegation
chain = hop grantee viewer 3 ∷ hop viewer connection 1 ∷ []

abbrev granted_all : Snapshot
granted_all = with_grant (mem_snapshot (copies 32 1)) grantee 7

-- The whole chain is read, checked and folded.
folded : fold library chain connection session_key granted_all 5 ≡ ok (1, false)
unfolding fold admit_hops admit_hop verify parse_content parse_fields key32 field parse_time render
    join split_loop has_prefix base58_encode base58_decode leading letters letter digits_loop
    value_loop decode_loop index_from caps_string caps_parts has subset parse_caps add_tokens
    add_token bytes_eq linked last_hop root_caps attenuate forges fold_fields
folded = refl

fold_iff_example :
    (fold library chain connection session_key granted_all 5 ≡ ok (1, false))
    ↔ Authorized library chain connection session_key granted_all 5 1 false
fold_iff_example = fold_iff library chain connection session_key granted_all 5 1 false

granted_all-uint8 : (w : Bytes) (c : ℕ) → granted_all.grant_caps w ≡ some c → c < 256
granted_all-uint8 w c e = ground arith

fold_attenuates_example :
    (root : Bytes) × (c : ℕ) × (granted_all.grant_caps root ≡ some c)
    × (root ≢ granted_all.owner)
    × (subset 1 c ≡ true)
fold_attenuates_example =
    fold_attenuates library chain connection session_key granted_all 5 1 granted_all-uint8 folded

decode-encode_example :
    base58_decode (base58_encode (0 ∷ 0 ∷ 7 ∷ 255 ∷ [])) ≡ ok (0 ∷ 0 ∷ 7 ∷ 255 ∷ [])
decode-encode_example = decode-encode (0 ∷ 0 ∷ 7 ∷ 255 ∷ []) (ground arith) (λ e. cc)

-- The empty byte string and a single zero byte have the same text.
base58_collision : base58_encode [] ≡ base58_encode (0 ∷ [])
unfolding base58_encode leading letters digits_loop value_loop
base58_collision = refl

copies-small : (n b : ℕ) → b < 256 → All (λ c. c < 256) (copies n b)
copies-small zero b lt = tt
copies-small (suc n) b lt = (lt, copies-small n b lt)

copies-length : (n b : ℕ) → length (copies n b) ≡ n
copies-length zero b = refl
copies-length (suc n) b = omega (arith, copies-length n b)

copies-Sized : (n b : ℕ) → b < 256 → Sized n (copies n b)
copies-Sized n b lt = record { size = copies-length n b; bytes = copies-small n b lt }

grant_fields-Canonical : Canonical library (grant_fields grantee viewer 3)
unfolding bytes_eq
grant_fields-Canonical = record {
  session_id = copies-Sized 32 13 (omega arith);
  delegator = copies-Sized 32 7 (omega arith);
  delegate = copies-Sized 32 9 (omega arith);
  caps = omega arith;
  not_before = record { whole = refl; one_line = ground arith; read = refl };
  not_after = record { whole = refl; one_line = ground arith; read = refl };
  nonce = copies-Sized 16 3 (omega arith);
}

parse_content-render_example :
    parse_content library (render library (grant_fields grantee viewer 3))
    ≡ ok (grant_fields grantee viewer 3)
parse_content-render_example =
    parse_content-render library (grant_fields grantee viewer 3) grant_fields-Canonical

-- The line break is one byte.
line_break : codes "\n" ≡ 10 ∷ []
line_break = refl

abbrev answers : Answers
answers = record {
  snapshot = some (granted_all, true);
  verify_now = λ w. none;
  allowed = true;
  now = 5;
  later = 6;
}

abbrev exchange : Exchange
exchange = record {
  hello = some (record { client_pubkey = connection; nonce_c = copies 32 1; chain = chain });
  nonce_s = some (copies 32 2);
  challenge_sent = true;
  client_sig = some (connection ++ connection);
}

abbrev let_in : PeerIdentity
let_in = record {
  label = base58_encode grantee;
  caps = record { owner = false; write = true; resize = false };
}

-- The handshake runs through to a writer.
handshake : server_handshake library session_key answers exchange ≡ ok let_in
unfolding server_handshake resolve_caps chain_root fold admit_hops admit_hop verify parse_content
    parse_fields key32 field parse_time render join split_loop has_prefix base58_encode
    base58_decode leading letters letter digits_loop value_loop decode_loop index_from caps_string
    caps_parts has subset parse_caps add_tokens add_token bytes_eq linked last_hop root_caps
    attenuate forges fold_fields
handshake = refl

server_handshake-Admitted_example : Admitted library session_key answers exchange let_in
server_handshake-Admitted_example =
    server_handshake-Admitted library session_key answers exchange let_in handshake

abbrev dialling : WalletClient
dialling = record {
  conn_priv = some (copies 32 1);
  conn_pub = copies 32 1;
  chain = [];
  expect_session = some (copies 32 3);
}

abbrev challenge : WalletChallenge
challenge = record { session_key = copies 32 3; nonce_s = copies 32 4; server_sig = copies 64 3 }

wallet_client-Reached_example :
    (nonce_c : Bytes) × (some (copies 32 2) ≡ some nonce_c)
    × Reached library dialling nonce_c
        (some (challenge_message challenge) ∷ [])
        (session_reached library dialling (copies 32 3))
unfolding wallet_client_handshake bytes_eq
wallet_client-Reached_example =
    wallet_client-Reached library (λ key text. key ++ key) dialling (some (copies 32 2))
      (true ∷ true ∷ []) (some (challenge_message challenge) ∷ []) refl
