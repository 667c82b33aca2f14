-- ===== src/Auth/Psk.antt =====
-- auth/psk.go: shared secrets and the handshake on them. HKDF and HMAC-SHA256 are parameters; what the
-- random source answers (`none` where it fails) is an argument of each handshake.
pub mod Accepts
pub mod Honest
pub mod Entries
use mosey.Base.{ℕ, Bool, true, false, not, Option, none, some, List, [], ◌∷◌, ◌++◌, Bytes, codes}
use mosey.Base.{bytes_eq, length, ◌==◌, if◌then◌else◌, Result, ok, err, ◌>>=◌, unless}
use mosey.Base.Dict.{lookup, insert}
use mosey.Auth.Identity.{Capabilities, PeerIdentity, no_caps, zero_identity}
use mosey.Auth.Script.{Script, done, guard, write, read}

abbrev pub mac_label_server : Bytes
mac_label_server = codes "mosey-auth-v1:S"

abbrev pub mac_label_client : Bytes
mac_label_client = codes "mosey-auth-v1:C"

abbrev pub label_owner : Bytes
label_owner = codes "owner"

abbrev pub psk_info : Bytes
psk_info = codes "mosey.v1.psk"

abbrev pub nonce_size : ℕ
nonce_size = 32

-- crypto/hmac over SHA-256 of a key and a message, and golang.org/x/crypto/hkdf: 32 bytes from a secret
-- and an info string, or a failure.
pub record Crypto : Type 0 where
  pub hmac : Bytes → Bytes → Bytes
  pub hkdf : Bytes → Bytes → Option Bytes

pub record NamedSecret : Type 0 where
  pub label : Bytes
  pub secret : Bytes
  pub caps : Capabilities

pub record Entry : Type 0 where
  pub label : Bytes
  pub key : Bytes
  pub identity : PeerIdentity

pub record PskAuth : Type 0 where
  pub by_label : List (Bytes × Entry)
  pub order : List Bytes

-- api.AuthMessage; `no_kind` is one whose oneof is unset.
pub data AuthMessage : Type 0 where
  client_hello : Bytes → Bytes → AuthMessage
  server_proof : Bytes → Bytes → AuthMessage
  client_proof : Bytes → AuthMessage
  no_kind : AuthMessage

pub data PskError : Type 0 where
  no_entries no_label no_nonce_source underivable hello_unsent proof_unsent unread : PskError
  wrong_message unknown_label mac_mismatch : PskError
  empty_secret duplicate_label : Bytes → PskError
  nonce_length : ℕ → PskError

-- derivePSKKey
unfoldable pub derive_psk_key : Crypto → Bytes → Result PskError Bytes
derive_psk_key lib secret = elim (lib.hkdf secret psk_info) [
  | none ↦ err underivable
  | some key ↦ ok key
]

-- mac
unfoldable pub mac : Crypto → Bytes → Bytes → Bytes → Bytes → Bytes
mac lib key label a b = lib.hmac key (label ++ a ++ b)

abbrev pub absent : {A : Type 0} → Option A → Bool
absent none = true
absent (some x) = false

abbrev pub entry_of : NamedSecret → Bytes → Entry
entry_of ns key = record {
  label = ns.label;
  key = key;
  identity = record { label = ns.label; caps = ns.caps };
}

abbrev pub put_entry : PskAuth → NamedSecret → Bytes → PskAuth
put_entry a ns key = record {
  by_label = insert bytes_eq ns.label (entry_of ns key) a.by_label;
  order = a.order ++ ns.label ∷ [];
}

-- The body of NewMultiPSKAuth's loop, and the loop.
unfoldable pub add_entry : Crypto → PskAuth → NamedSecret → Result PskError PskAuth
add_entry lib a ns = unless (not (bytes_eq ns.label [])) no_label (
    unless (not (bytes_eq ns.secret [])) (empty_secret ns.label) (
      unless (absent (lookup bytes_eq ns.label a.by_label)) (duplicate_label ns.label)
        (derive_psk_key lib ns.secret >>= λ key. ok (put_entry a ns key))))

unfoldable pub add_entries : Crypto → PskAuth → List NamedSecret → Result PskError PskAuth
add_entries lib a [] = ok a
add_entries lib a (ns ∷ rest) = add_entry lib a ns >>= λ b. add_entries lib b rest

-- NewMultiPSKAuth
unfoldable pub new_multi_psk_auth : Crypto → List NamedSecret → Result PskError PskAuth
new_multi_psk_auth lib [] = err no_entries
new_multi_psk_auth lib (ns ∷ rest) =
    add_entries lib (record { by_label = []; order = [] }) (ns ∷ rest)

-- NewPSKAuth
unfoldable pub new_psk_auth : Crypto → Bytes → Result PskError PskAuth
new_psk_auth lib secret = new_multi_psk_auth lib (
    record {
      label = label_owner;
      secret = secret;
      caps = record { owner = true; write = true; resize = true };
    }
    ∷ [])

-- A map read of Go on a missing label gives the zero entry.
abbrev pub or_zero : Option Entry → Entry
or_zero none = record { label = []; key = []; identity = zero_identity }
or_zero (some e) = e

abbrev pub PskScript : Type 0
PskScript = Script AuthMessage PskError PeerIdentity

-- ClientHandshake behind its hello.
unfoldable pub answer_server_proof : Crypto → Entry → Bytes → AuthMessage → PskScript
answer_server_proof lib e nonce_c (client_hello n l) = done (err wrong_message)
answer_server_proof lib e nonce_c (client_proof m) = done (err wrong_message)
answer_server_proof lib e nonce_c no_kind = done (err wrong_message)
answer_server_proof lib e nonce_c (server_proof nonce_s m) =
    guard (length nonce_s == nonce_size) (nonce_length (length nonce_s)) (
      guard (bytes_eq m (mac lib e.key mac_label_server nonce_c nonce_s)) mac_mismatch (
        write (client_proof (mac lib e.key mac_label_client nonce_s nonce_c)) proof_unsent
          (done (ok e.identity))))

abbrev pub client_as : Crypto → Entry → Option Bytes → Script AuthMessage PskError PeerIdentity
client_as lib e none = done (err no_nonce_source)
client_as lib e (some nonce_c) =
    write (client_hello nonce_c e.label) hello_unsent
      (read unread (answer_server_proof lib e nonce_c))

-- ClientHandshake: with the entry that was registered first.
unfoldable pub client_handshake : Crypto → PskAuth → Option Bytes → PskScript
client_handshake lib a fresh = elim a.order [
  | [] ↦ done (err no_entries)
  | first ∷ more ↦ client_as lib (or_zero (lookup bytes_eq first a.by_label)) fresh
]

-- ServerHandshake behind its proof.
unfoldable pub check_client_proof : Crypto → Entry → Bytes → Bytes → AuthMessage → PskScript
check_client_proof lib e nonce_c nonce_s (client_hello n l) = done (err wrong_message)
check_client_proof lib e nonce_c nonce_s (server_proof n m) = done (err wrong_message)
check_client_proof lib e nonce_c nonce_s no_kind = done (err wrong_message)
check_client_proof lib e nonce_c nonce_s (client_proof m) =
    guard (bytes_eq m (mac lib e.key mac_label_client nonce_s nonce_c)) mac_mismatch
      (done (ok e.identity))

abbrev pub prove_as :
    Crypto → Bytes → Option Bytes → Option Entry → Script AuthMessage PskError PeerIdentity
prove_as lib nonce_c fresh none = done (err unknown_label)
prove_as lib nonce_c none (some e) = done (err no_nonce_source)
prove_as lib nonce_c (some nonce_s) (some e) =
    write (server_proof nonce_s (mac lib e.key mac_label_server nonce_c nonce_s)) proof_unsent
      (read unread (check_client_proof lib e nonce_c nonce_s))

-- An empty hint asks for the owner's entry.
abbrev pub hinted : Bytes → Bytes
hinted [] = label_owner
hinted (c ∷ cs) = c ∷ cs

-- ServerHandshake behind the hello.
unfoldable pub answer_hello : Crypto → PskAuth → Option Bytes → AuthMessage → PskScript
answer_hello lib a fresh (server_proof n m) = done (err wrong_message)
answer_hello lib a fresh (client_proof m) = done (err wrong_message)
answer_hello lib a fresh no_kind = done (err wrong_message)
answer_hello lib a fresh (client_hello nonce_c label) =
    guard (length nonce_c == nonce_size) (nonce_length (length nonce_c))
      (prove_as lib nonce_c fresh (lookup bytes_eq (hinted label) a.by_label))

-- ServerHandshake
unfoldable pub psk_server_handshake : Crypto → PskAuth → Option Bytes → PskScript
psk_server_handshake lib a fresh = read unread (answer_hello lib a fresh)
