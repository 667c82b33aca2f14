-- ===== src/Auth/Certs.antt =====
-- auth/cert.go: the handshake on certificates. `wall` is the reading of the clock in cert.Verify; what the
-- random source answers is an argument.
pub mod Accepts
pub mod Honest
pub mod Echo
use mosey.Base.{ℕ, Bool, true, false, not, Option, none, some, List, [], ◌∷◌, ◌++◌, Bytes, codes}
use mosey.Base.{bytes_eq, length, ◌==◌, ◌&&◌, ◌||◌, Result, ok, err, ◌>>=◌, unless}
use mosey.Auth.Identity.{PeerIdentity}
use mosey.Auth.Script.{Script, done, guard, write, read}
use mosey.Cert.Claims.{
  Claim, Cert, Keys, CertError, VerifyOptions, verify, has_owner, has_write, has_resize,
}
use mosey.Cert.Claims.{private_key_size, public_key_size}

abbrev pub cert_nonce_size : ℕ
cert_nonce_size = 32

abbrev pub cert_proof_label : Bytes
cert_proof_label = codes "mosey-cert-v1"

pub record CertAuth : Type 0 where
  pub local_cert : Cert
  pub local_priv : Bytes
  pub master : Bytes
  pub workspace_id : Bytes
  pub revoked_set : List Bytes

pub record CertAuthOptions : Type 0 where
  pub own_cert : Option Cert
  pub own_priv : Bytes
  pub master_key : Bytes
  pub workspace_name : Bytes
  pub initially_revoked : List Bytes

-- api.CertHandshakeMessage; a hello may lack its certificate, and a message its payload.
pub data CertMessage : Type 0 where
  cert_hello : Option Cert → Bytes → CertMessage
  signed_nonce : Bytes → CertMessage
  no_payload : CertMessage

pub data CertAuthError : Type 0 where
  no_local_cert no_workspace key_mismatch no_random hello_unsent hello_unread : CertAuthError
  wrong_payload proof_unsent proof_unread bad_signature : CertAuthError
  private_length master_length peer_nonce_length : ℕ → CertAuthError
  local_invalid peer_invalid : CertError → CertAuthError

abbrev pub given : {A : Type 0} → CertAuthError → Option A → Result CertAuthError A
given e none = err e
given e (some x) = ok x

abbrev pub valid_local : Result CertError Claim → Result CertAuthError Claim
valid_local (err e) = err (local_invalid e)
valid_local (ok c) = ok c

-- pubKeyMatches
unfoldable pub pub_key_matches : Keys → Bytes → Bytes → Bool
pub_key_matches lib pub_key priv =
    length priv == private_key_size && bytes_eq pub_key (lib.public_of priv)

abbrev pub option_checks : CertAuthOptions → VerifyOptions
option_checks o = record {
  master_pub = o.master_key;
  workspace = o.workspace_name;
  now = 0;
  revoked_serials = o.initially_revoked;
}

abbrev pub built : CertAuthOptions → Cert → CertAuth
built o c = record {
  local_cert = c;
  local_priv = o.own_priv;
  master = o.master_key;
  workspace_id = o.workspace_name;
  revoked_set = o.initially_revoked;
}

-- NewCertAuth
unfoldable pub new_cert_auth : Keys → CertAuthOptions → ℕ → Result CertAuthError CertAuth
new_cert_auth lib o wall = given no_local_cert o.own_cert >>= λ c.
    unless (length o.own_priv == private_key_size) (private_length (length o.own_priv)) (
      unless (length o.master_key == public_key_size) (master_length (length o.master_key)) (
        unless (not (bytes_eq o.workspace_name [])) no_workspace (
          valid_local (verify lib (some c) (option_checks o) wall) >>= λ claim.
          unless (pub_key_matches lib claim.peer_pub_key o.own_priv) key_mismatch
            (ok (built o c)))))

-- UpdateRevoked
unfoldable pub update_revoked : CertAuth → List Bytes → CertAuth
update_revoked a serials = record a { revoked_set = serials }

-- claimToIdentity
unfoldable pub claim_to_identity : Claim → PeerIdentity
claim_to_identity c = record {
  label = c.label;
  caps = record {
    owner = has_owner c;
    write = has_write c || has_owner c;
    resize = has_resize c || has_owner c;
  };
}

-- The checks of runHandshake on the peer's certificate.
abbrev pub peer_checks : CertAuth → VerifyOptions
peer_checks a = record {
  master_pub = a.master;
  workspace = a.workspace_id;
  now = 0;
  revoked_serials = a.revoked_set;
}

abbrev pub CertScript : Type 0
CertScript = Script CertMessage CertAuthError PeerIdentity

-- readCertHello and readCertProof, on the message that they read.
abbrev pub with_hello : (Option Cert → Bytes → CertScript) → CertMessage → CertScript
with_hello next (cert_hello c n) = next c n
with_hello next (signed_nonce s) = done (err wrong_payload)
with_hello next no_payload = done (err wrong_payload)

abbrev pub with_proof : (Bytes → CertScript) → CertMessage → CertScript
with_proof next (cert_hello c n) = done (err wrong_payload)
with_proof next (signed_nonce s) = next s
with_proof next no_payload = done (err wrong_payload)

abbrev pub checked : Bytes → (Claim → CertScript) → Result CertError Claim → CertScript
checked n next (err e) = done (err (peer_invalid e))
checked n next (ok claim) =
    guard (length n == cert_nonce_size) (peer_nonce_length (length n)) (next claim)

-- What is signed of a nonce.
abbrev pub proof_text : Bytes → Bytes
proof_text n = cert_proof_label ++ n

abbrev pub proof_of : Keys → CertAuth → Bytes → CertMessage
proof_of lib a n = signed_nonce (lib.ed25519_sign a.local_priv (proof_text n))

-- The end of runHandshake.
unfoldable pub check_signature : Keys → Bytes → Claim → Bytes → CertScript
check_signature lib mine claim sig =
    guard (lib.ed25519_verify claim.peer_pub_key (proof_text mine) sig) bad_signature
      (done (ok (claim_to_identity claim)))

unfoldable pub client_proofs : Keys → CertAuth → Bytes → Bytes → Claim → CertScript
client_proofs lib a mine n claim =
    write (proof_of lib a n) proof_unsent
      (read proof_unread (with_proof (check_signature lib mine claim)))

unfoldable pub server_proofs : Keys → CertAuth → Bytes → Bytes → Claim → CertScript
server_proofs lib a mine n claim =
    read proof_unread (
      with_proof
        (λ sig. write (proof_of lib a n) proof_unsent (check_signature lib mine claim sig)))

unfoldable pub client_checks : Keys → CertAuth → ℕ → Bytes → Option Cert → Bytes → CertScript
client_checks lib a wall mine c n =
    checked n (client_proofs lib a mine n) (verify lib c (peer_checks a) wall)

unfoldable pub server_checks : Keys → CertAuth → ℕ → Bytes → Option Cert → Bytes → CertScript
server_checks lib a wall mine c n =
    checked n (server_proofs lib a mine n) (verify lib c (peer_checks a) wall)

-- runHandshake, for the side that sends first and for the other.
unfoldable pub run_handshake : Keys → CertAuth → ℕ → Option Bytes → Bool → CertScript
run_handshake lib a wall none client_first = done (err no_random)
run_handshake lib a wall (some mine) true =
    write (cert_hello (some a.local_cert) mine) hello_unsent
      (read hello_unread (with_hello (client_checks lib a wall mine)))
run_handshake lib a wall (some mine) false = read hello_unread (
    with_hello (λ c n.
      write (cert_hello (some a.local_cert) mine) hello_unsent (server_checks lib a wall mine c n)))

-- ClientHandshake and ServerHandshake
abbrev pub cert_client_handshake : Keys → CertAuth → ℕ → Option Bytes → CertScript
cert_client_handshake lib a wall fresh = run_handshake lib a wall fresh true

abbrev pub cert_server_handshake : Keys → CertAuth → ℕ → Option Bytes → CertScript
cert_server_handshake lib a wall fresh = run_handshake lib a wall fresh false
