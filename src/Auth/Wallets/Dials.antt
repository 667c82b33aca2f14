-- ===== src/Auth/Wallets/Dials.antt =====
-- auth/wallet.go: the dialling side of the wallet handshake, as a script over its stream. Ed25519 and the
-- time format are parameters, and the nonce is what the random source answers.
use mosey.Base.{ℕ, Bool, true, false, Option, none, some, List, [], ◌∷◌, ◌++◌, Bytes, codes}
use mosey.Base.{bytes_eq, bytes_eq→eq, length, ◌==◌, ==_iff, Result, ok, err, ok_same}
use mosey.Base.{◌≡◌, refl, ap, sym, ◌∙◌, some_same}
use mosey.Auth.Identity.{PeerIdentity}
use mosey.Auth.Script.{Script, done, write, read, guard, run, guard-ok, write-ok, read-ok}
use mosey.Auth.Wallets.{WalletHello, wallet_nonce_size, wallet_client_label, wallet_transcript}
use mosey.Wallet.Caps.{has, cap_write, cap_resize}
use mosey.Wallet.Base58.{base58_encode}
use mosey.Wallet.Delegation.{
  Library, Delegation, Fields, WalletError, delegation_fields, public_key_size,
}

abbrev pub wallet_server_label : Bytes
wallet_server_label = codes "mosey-wallet-v1:server"

-- The client's part of WalletAuth; `none` is a nil key.
pub record WalletClient : Type 0 where
  pub conn_priv : Option Bytes
  pub conn_pub : Bytes
  pub chain : List Delegation
  pub expect_session : Option Bytes

-- api.WalletChallenge and api.WalletHandshakeMessage
pub record WalletChallenge : Type 0 where
  pub session_key : Bytes
  pub nonce_s : Bytes
  pub server_sig : Bytes

pub data WalletMessage : Type 0 where
  hello_message : WalletHello → WalletMessage
  challenge_message : WalletChallenge → WalletMessage
  proof_message : Bytes → WalletMessage

pub data DialFailure : Type 0 where
  not_a_client no_random hello_unsent no_challenge other_message : DialFailure
  bad_session_key bad_nonce_s bad_server_proof other_session proof_unsent : DialFailure

-- leafCaps, without its second result, which the caller drops.
abbrev pub caps_or_none : Result WalletError Fields → ℕ
caps_or_none (err e) = 0
caps_or_none (ok f) = f.caps

unfoldable pub leaf_caps : Library → List Delegation → ℕ
leaf_caps lib [] = 0
leaf_caps lib (d ∷ []) = caps_or_none (delegation_fields lib d)
leaf_caps lib (d ∷ e ∷ chain) = leaf_caps lib (e ∷ chain)

abbrev pub session_label : Bytes → Bytes
session_label session_key = codes "wallet:" ++ base58_encode session_key

abbrev pub session_reached : Library → WalletClient → Bytes → PeerIdentity
session_reached lib w session_key = record {
  label = session_label session_key;
  caps = record {
    owner = false;
    write = has (leaf_caps lib w.chain) cap_write;
    resize = has (leaf_caps lib w.chain) cap_resize;
  };
}

abbrev pub is_expected : Option Bytes → Bytes → Bool
is_expected none session_key = true
is_expected (some expected) session_key = bytes_eq expected session_key

abbrev pub answer_challenge :
    Library
    → (Bytes → Bytes → Bytes)
    → WalletClient
    → Bytes
    → Bytes
    → WalletChallenge
    → Script WalletMessage DialFailure PeerIdentity
answer_challenge lib sign w priv nonce_c c =
    guard (length c.session_key == public_key_size) bad_session_key (
      guard (length c.nonce_s == wallet_nonce_size) bad_nonce_s (
        guard
          (lib.ed25519_verify c.session_key
            (wallet_transcript wallet_server_label nonce_c c.nonce_s c.session_key) c.server_sig)
          bad_server_proof
          (guard (is_expected w.expect_session c.session_key) other_session (
            write
              (proof_message
                (sign priv (wallet_transcript wallet_client_label c.nonce_s nonce_c c.session_key)))
              proof_unsent (done (ok (session_reached lib w c.session_key)))))))

-- readWalletChallenge: another kind of message is refused.
abbrev pub with_challenge :
    (WalletChallenge → Script WalletMessage DialFailure PeerIdentity)
    → WalletMessage
    → Script WalletMessage DialFailure PeerIdentity
with_challenge next (hello_message h) = done (err other_message)
with_challenge next (proof_message s) = done (err other_message)
with_challenge next (challenge_message c) = next c

abbrev pub dial_as :
    Library
    → (Bytes → Bytes → Bytes)
    → WalletClient
    → Bytes
    → Bytes
    → Script WalletMessage DialFailure PeerIdentity
dial_as lib sign w priv nonce_c =
    write
      (hello_message (record { client_pubkey = w.conn_pub; nonce_c = nonce_c; chain = w.chain }))
      hello_unsent (read no_challenge (with_challenge (answer_challenge lib sign w priv nonce_c)))

-- ClientHandshake
unfoldable pub wallet_client_handshake :
    Library
    → (Bytes → Bytes → Bytes)
    → WalletClient
    → Option Bytes
    → Script WalletMessage DialFailure PeerIdentity
wallet_client_handshake lib sign w nonce = elim w.conn_priv [
  | none ↦ done (err not_a_client)
  | some priv ↦ elim nonce [
    | none ↦ done (err no_random)
    | some nonce_c ↦ dial_as lib sign w priv nonce_c
  ]
]

-- A challenge proves control of a session that the client may reach.
abbrev pub Proven : Library → WalletClient → Bytes → WalletChallenge → Type 0
Proven lib w nonce_c c =
    (length c.session_key ≡ public_key_size)
    × (length c.nonce_s ≡ wallet_nonce_size)
    × (lib.ed25519_verify c.session_key
          (wallet_transcript wallet_server_label nonce_c c.nonce_s c.session_key) c.server_sig
        ≡ true)
    × ((expected : Bytes) → w.expect_session ≡ some expected → expected ≡ c.session_key)

expected-eq :
    (o : Option Bytes) (key expected : Bytes)
    → is_expected o key ≡ true
    → o ≡ some expected
    → expected ≡ key
expected-eq none key expected h e = absurd (cc)
expected-eq (some k) key expected h e = sym (some_same e) ∙ bytes_eq→eq k key h

answer_challenge-Proven :
    (lib : Library) (sign : Bytes → Bytes → Bytes) (w : WalletClient) (priv nonce_c : Bytes)
    (c : WalletChallenge) (ws : List Bool) (rs : List (Option WalletMessage))
    {identity : PeerIdentity}
    → run (answer_challenge lib sign w priv nonce_c c) ws rs ≡ ok identity
    → Proven lib w nonce_c c × (identity ≡ session_reached lib w c.session_key)
answer_challenge-Proven lib sign w priv nonce_c c ws rs h =
    let (size, h1) = guard-ok _ _ _ ws rs h in
    let (nonce, h2) = guard-ok _ _ _ ws rs h1 in
    let (signed, h3) = guard-ok _ _ _ ws rs h2 in
    let (expected, h4) = guard-ok _ _ _ ws rs h3 in
    let proof =
      proof_message
        (sign priv (wallet_transcript wallet_client_label c.nonce_s nonce_c c.session_key)) in
    let (vs, _, h5) =
      write-ok proof proof_unsent (done (ok (session_reached lib w c.session_key))) ws rs h4 in
    (
      (
        (==_iff _ _).0 size,
        (==_iff _ _).0 nonce,
        signed,
        λ k e. expected-eq w.expect_session c.session_key k expected e,
      ),
      sym (ok_same h5),
    )

with_challenge-Proven :
    (lib : Library) (sign : Bytes → Bytes → Bytes) (w : WalletClient) (priv nonce_c : Bytes)
    (m : WalletMessage) (ws : List Bool) (rs : List (Option WalletMessage))
    {identity : PeerIdentity}
    → run (with_challenge (answer_challenge lib sign w priv nonce_c) m) ws rs ≡ ok identity
    → (c : WalletChallenge) × (m ≡ challenge_message c)
      × Proven lib w nonce_c c
      × (identity ≡ session_reached lib w c.session_key)
with_challenge-Proven lib sign w priv nonce_c (hello_message h) ws rs e = absurd (cc)
with_challenge-Proven lib sign w priv nonce_c (proof_message s) ws rs e = absurd (cc)
with_challenge-Proven lib sign w priv nonce_c (challenge_message c) ws rs e =
    let (proven, reached) = answer_challenge-Proven lib sign w priv nonce_c c ws rs e in
    (c, refl, proven, reached)

-- A challenge is the first message read, and it proves the session that the identity names.
abbrev pub Reached :
    Library → WalletClient → Bytes → List (Option WalletMessage) → PeerIdentity → Type 0
Reached lib w nonce_c rs identity =
    (c : WalletChallenge) × ((more : List (Option WalletMessage)) × (rs
        ≡ some (challenge_message c) ∷ more))
    × Proven lib w nonce_c c
    × (identity ≡ session_reached lib w c.session_key)

dial_as-Reached :
    (lib : Library) (sign : Bytes → Bytes → Bytes) (w : WalletClient) (priv nonce_c : Bytes)
    (ws : List Bool) (rs : List (Option WalletMessage)) {identity : PeerIdentity}
    → run (dial_as lib sign w priv nonce_c) ws rs ≡ ok identity
    → Reached lib w nonce_c rs identity
dial_as-Reached lib sign w priv nonce_c ws rs h =
    let next = with_challenge (answer_challenge lib sign w priv nonce_c) in
    let hello =
      hello_message (record { client_pubkey = w.conn_pub; nonce_c = nonce_c; chain = w.chain }) in
    let (vs, _, h1) = write-ok hello hello_unsent (read no_challenge next) ws rs h in
    let (m, more, got, h2) = read-ok no_challenge next vs rs h1 in
    let (c, is, proven, reached) = with_challenge-Proven lib sign w priv nonce_c m vs more h2 in
    (c, (more, got ∙ ap (λ x. some x ∷ more) is), proven, reached)

with_keys-Reached :
    (lib : Library) (sign : Bytes → Bytes → Bytes) (w : WalletClient) (o drawn : Option Bytes)
    (ws : List Bool) (rs : List (Option WalletMessage)) {identity : PeerIdentity}
    → run
        (elim o [
          | none ↦ done (err not_a_client)
          | some priv ↦ elim drawn [
            | none ↦ done (err no_random)
            | some nonce_c ↦ dial_as lib sign w priv nonce_c
          ]
        ])
        ws
        rs
      ≡ ok identity
    → (nonce_c : Bytes) × (drawn ≡ some nonce_c) × Reached lib w nonce_c rs identity
with_keys-Reached lib sign w none drawn ws rs h = absurd (cc)
with_keys-Reached lib sign w (some priv) none ws rs h = absurd (cc)
with_keys-Reached lib sign w (some priv) (some nonce_c) ws rs h =
    (nonce_c, refl, dial_as-Reached lib sign w priv nonce_c ws rs h)

-- Whatever the peer does, ClientHandshake of a WalletAuth returns an identity only if the first message
-- it read was a challenge whose signature, over the client's fresh nonce, is of the session key it
-- names; this is the expected session where one is set, and the identity names it, with the rights that
-- the client's own last delegation claims.
pub wallet_client-Reached :
    (lib : Library) (sign : Bytes → Bytes → Bytes) (w : WalletClient) (nonce : Option Bytes)
    (ws : List Bool) (rs : List (Option WalletMessage)) {identity : PeerIdentity}
    → run (wallet_client_handshake lib sign w nonce) ws rs ≡ ok identity
    → (nonce_c : Bytes) × (nonce ≡ some nonce_c) × Reached lib w nonce_c rs identity
unfolding wallet_client_handshake
wallet_client-Reached lib sign w nonce ws rs h =
    with_keys-Reached lib sign w w.conn_priv nonce ws rs h
