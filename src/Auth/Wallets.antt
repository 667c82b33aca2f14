-- ===== src/Auth/Wallets.antt =====
-- auth/wallet.go: the listener's side of the wallet handshake. What arrives, what the random source and
-- the snapshot source answer and the clock's readings are arguments; so is the rate limiter's verdict.
pub mod Admission
pub mod Dials
use mosey.Base.{ℕ, Bool, true, false, ◌&&◌, Option, none, some, List, [], ◌∷◌, ◌++◌, Bytes, codes}
use mosey.Base.{bytes_eq, length, ◌==◌, if◌then◌else◌, Result, ok, err, ◌>>=◌, unless}
use mosey.Auth.Identity.{PeerIdentity}
use mosey.Wallet.Caps.{has, all_caps, cap_write, cap_resize}
use mosey.Wallet.Base58.{base58_encode}
use mosey.Wallet.Delegation.{Library, Fields, Delegation, WalletError, empty_chain, unknown_root}
use mosey.Wallet.Delegation.{
  delegation_fields, public_key_size, chain_too_long, bad_key, bad_signature,
}
use mosey.Wallet.Delegation.{broken_link, leaf_mismatch, attenuation, not_yet_valid, expired}
use mosey.Wallet.Delegation.{wrong_session, forge_required, bad_content}
use mosey.Wallet.Fold.{Snapshot, fold}

abbrev pub wallet_nonce_size : ℕ
wallet_nonce_size = 32

abbrev pub wallet_client_label : Bytes
wallet_client_label = codes "mosey-wallet-v1:client"

-- api.WalletHello
pub record WalletHello : Type 0 where
  pub client_pubkey : Bytes
  pub nonce_c : Bytes
  pub chain : List Delegation

-- What the source, the clock and the limiter answer while the chain is resolved. `snapshot` has the
-- view and whether it is fresh; the clock is read for each Fold.
pub record Answers : Type 0 where
  pub snapshot : Option (Snapshot × Bool)
  pub verify_now : Bytes → Option ℕ
  pub allowed : Bool
  pub now : ℕ
  pub later : ℕ

-- The messages of the client and what writing to it answers; `none` where reading or the random source
-- failed, or another kind of message came.
pub record Exchange : Type 0 where
  pub hello : Option WalletHello
  pub nonce_s : Option Bytes
  pub challenge_sent : Bool
  pub client_sig : Option Bytes

pub data HandshakeError : Type 0 where
  no_hello no_nonce challenge_unsent no_proof bad_proof no_snapshot stale_snapshot : HandshakeError
  bad_pubkey bad_nonce : ℕ → HandshakeError
  unauthorized : WalletError → HandshakeError

-- walletTranscript
unfoldable pub wallet_transcript : Bytes → Bytes → Bytes → Bytes → Bytes
wallet_transcript label a b session = label ++ a ++ b ++ session

abbrev pub refuse : {A : Type 0} → Result WalletError A → Result HandshakeError A
refuse (err e) = err (unauthorized e)
refuse (ok x) = ok x

-- overlaySnapshot
unfoldable pub overlay : Snapshot → Bytes → ℕ → Snapshot
overlay snap root caps = record snap {
  grant_caps = λ w. if bytes_eq root w then some caps else snap.grant_caps w;
}

-- chainRoot
unfoldable pub chain_root : Library → List Delegation → Result WalletError Bytes
chain_root lib [] = err empty_chain
chain_root lib (d ∷ ds) = delegation_fields lib d >>= λ f. ok f.delegator

-- `errors.Is(ferr, wallet.ErrUnknownRoot)`
unfoldable pub is_unknown_root : WalletError → Bool
is_unknown_root unknown_root = true
is_unknown_root empty_chain = false
is_unknown_root chain_too_long = false
is_unknown_root bad_key = false
is_unknown_root bad_signature = false
is_unknown_root broken_link = false
is_unknown_root leaf_mismatch = false
is_unknown_root attenuation = false
is_unknown_root not_yet_valid = false
is_unknown_root expired = false
is_unknown_root wrong_session = false
is_unknown_root forge_required = false
is_unknown_root (bad_content c) = false

-- The capabilities, whether the root is the owner, and the root.
pub record Resolved : Type 0 where
  pub caps : ℕ
  pub own : Bool
  pub root : Bytes

abbrev pub resolved : Bytes → Result WalletError (ℕ × Bool) → Result HandshakeError Resolved
resolved root (err e) = err (unauthorized e)
resolved root (ok (caps, own)) = ok (record { caps = caps; own = own; root = root })

-- Behind a failed Fold: once more, if the root was unknown and the source grants it something.
unfoldable pub verify_on_miss :
    Library
    → Bytes
    → List Delegation
    → Bytes
    → Answers
    → Snapshot
    → Bytes
    → WalletError
    → Result HandshakeError Resolved
verify_on_miss lib session chain conn a snap root e =
    if is_unknown_root e && a.allowed
    then elim (a.verify_now root) [
      | none ↦ err (unauthorized e)
      | some gc ↦ resolved root (fold lib chain conn session (overlay snap root gc) a.later)
    ]
    else err (unauthorized e)

abbrev pub or_on_miss :
    Library
    → Bytes
    → List Delegation
    → Bytes
    → Answers
    → Snapshot
    → Bytes
    → Result WalletError (ℕ × Bool)
    → Result HandshakeError Resolved
or_on_miss lib session chain conn a snap root (ok r) = resolved root (ok r)
or_on_miss lib session chain conn a snap root (err e) =
    verify_on_miss lib session chain conn a snap root e

abbrev pub with_snapshot :
    Library
    → Bytes
    → List Delegation
    → Bytes
    → Answers
    → Bytes
    → Option (Snapshot × Bool)
    → Result HandshakeError Resolved
with_snapshot lib session chain conn a root none = err no_snapshot
with_snapshot lib session chain conn a root (some (snap, fresh)) =
    unless fresh stale_snapshot
      (or_on_miss lib session chain conn a snap root (fold lib chain conn session snap a.now))

-- resolveCaps
unfoldable pub resolve_caps :
    Library → Bytes → List Delegation → Bytes → Answers → Result HandshakeError Resolved
resolve_caps lib session chain conn a =
    refuse (chain_root lib chain) >>= λ root. with_snapshot lib session chain conn a root a.snapshot

-- The identity of ServerHandshake: only the whole set from the owner makes an owner.
abbrev pub wallet_identity : Resolved → PeerIdentity
wallet_identity r = record {
  label = base58_encode r.root;
  caps = record {
    owner = r.own && r.caps == all_caps;
    write = has r.caps cap_write;
    resize = has r.caps cap_resize;
  };
}

abbrev pub or_err : {A : Type 0} → HandshakeError → Option A → Result HandshakeError A
or_err e none = err e
or_err e (some x) = ok x

-- ServerHandshake behind the hello and the nonces.
abbrev pub check_proof :
    Library → Bytes → Answers → WalletHello → Bytes → Bytes → Result HandshakeError PeerIdentity
check_proof lib session a hello nonce_s sig =
    unless
      (lib.ed25519_verify hello.client_pubkey
        (wallet_transcript wallet_client_label nonce_s hello.nonce_c session) sig)
      bad_proof
      (resolve_caps lib session hello.chain hello.client_pubkey a >>= λ r. ok (wallet_identity r))

abbrev pub challenge :
    Library → Bytes → Answers → Exchange → WalletHello → Bytes → Result HandshakeError PeerIdentity
challenge lib session a x hello nonce_s =
    unless x.challenge_sent challenge_unsent
      (or_err no_proof x.client_sig >>= check_proof lib session a hello nonce_s)

abbrev pub greet :
    Library → Bytes → Answers → Exchange → WalletHello → Result HandshakeError PeerIdentity
greet lib session a x hello =
    unless (length hello.client_pubkey == public_key_size) (bad_pubkey (length hello.client_pubkey))
      (unless (length hello.nonce_c == wallet_nonce_size) (bad_nonce (length hello.nonce_c))
        (or_err no_nonce x.nonce_s >>= challenge lib session a x hello))

-- ServerHandshake of an instance that is configured as a server for the session.
unfoldable pub server_handshake :
    Library → Bytes → Answers → Exchange → Result HandshakeError PeerIdentity
server_handshake lib session a x = or_err no_hello x.hello >>= greet lib session a x
