-- ===== src/Auth/Certs/Accepts.antt =====
-- auth/cert.go: what an accepted handshake proves, on either side, whatever the peer sends.
use mosey.Base.{ℕ, Bool, true, false, Option, none, some, List, ◌∷◌, Bytes, length, ◌==◌, ==_iff}
use mosey.Base.{Result, ok, err, ok_same, ◌≡◌, refl, sym, ap, ◌∙◌, subst}
use mosey.Auth.Identity.{PeerIdentity}
use mosey.Auth.Script.{done, write, read, run, guard-ok, write-ok, read-ok}
use mosey.Cert.Claims.{Claim, Cert, Keys, CertError, verify}
use mosey.Cert.Claims.Valid.{Vouches, Timely, verify_iff}
use mosey.Auth.Certs.{CertAuth, CertMessage, cert_hello, signed_nonce, no_payload}
use mosey.Auth.Certs.{hello_unsent, hello_unread, proof_unsent, proof_unread, bad_signature}
use mosey.Auth.Certs.{peer_nonce_length, cert_nonce_size, peer_checks, CertScript, with_hello}
use mosey.Auth.Certs.{
  with_proof, checked, proof_text, proof_of, check_signature, client_proofs, server_proofs,
}
use mosey.Auth.Certs.{client_checks, server_checks, run_handshake, claim_to_identity}

-- The reads of a handshake that accepts: a hello with a certificate and a nonce of full length, and a
-- signature over the nonce drawn for this handshake, under the key of the certificate's claim.
abbrev pub Certifies :
    Keys → CertAuth → ℕ → Option Bytes → List (Option CertMessage) → PeerIdentity → Type 0
Certifies lib a wall fresh rs id =
    (c : Cert) × (n sig mine : Bytes) × (claim : Claim) × (rest : List (Option CertMessage)) × (rs
      ≡ some (cert_hello (some c) n) ∷ some (signed_nonce sig) ∷ rest)
    × (fresh ≡ some mine)
    × (length n ≡ cert_nonce_size)
    × Vouches lib (peer_checks a) c claim
    × Timely (peer_checks a) wall claim
    × (lib.ed25519_verify claim.peer_pub_key (proof_text mine) sig ≡ true)
    × (id ≡ claim_to_identity claim)

abbrev Signs : Keys → Bytes → Claim → Bytes → PeerIdentity → Type 0
Signs lib mine claim sig id =
    (lib.ed25519_verify claim.peer_pub_key (proof_text mine) sig ≡ true)
    × (id ≡ claim_to_identity claim)

check_signature-ok :
    (lib : Keys) (mine : Bytes) (claim : Claim) (sig : Bytes) (ws : List Bool)
    (rs : List (Option CertMessage)) {id : PeerIdentity}
    → run (check_signature lib mine claim sig) ws rs ≡ ok id
    → Signs lib mine claim sig id
unfolding check_signature
check_signature-ok lib mine claim sig ws rs h =
    let (valid, g) = guard-ok _ bad_signature (done (ok (claim_to_identity claim))) ws rs h in
    (valid, sym (ok_same g))

-- The message of a read that must be a proof.
with_proof-ok :
    (next : Bytes → CertScript) (m : CertMessage) (ws : List Bool) (rs : List (Option CertMessage))
    {id : PeerIdentity}
    → run (with_proof next m) ws rs ≡ ok id
    → (sig : Bytes) × (m ≡ signed_nonce sig) × (run (next sig) ws rs ≡ ok id)
with_proof-ok next (cert_hello c n) ws rs h = absurd (cc)
with_proof-ok next (signed_nonce s) ws rs h = (s, refl, h)
with_proof-ok next no_payload ws rs h = absurd (cc)

with_hello-ok :
    (next : Option Cert → Bytes → CertScript) (m : CertMessage) (ws : List Bool)
    (rs : List (Option CertMessage)) {id : PeerIdentity}
    → run (with_hello next m) ws rs ≡ ok id
    → (c : Option Cert) × (n : Bytes) × (m ≡ cert_hello c n) × (run (next c n) ws rs ≡ ok id)
with_hello-ok next (cert_hello c n) ws rs h = (c, n, refl, h)
with_hello-ok next (signed_nonce s) ws rs h = absurd (cc)
with_hello-ok next no_payload ws rs h = absurd (cc)

abbrev Proven : Keys → Bytes → Claim → List (Option CertMessage) → PeerIdentity → Type 0
Proven lib mine claim rs id =
    (sig : Bytes) × (rest : List (Option CertMessage)) × (rs ≡ some (signed_nonce sig) ∷ rest)
    × Signs lib mine claim sig id

client_proofs-Proven :
    (lib : Keys) (a : CertAuth) (mine n : Bytes) (claim : Claim) (ws : List Bool)
    (rs : List (Option CertMessage)) {id : PeerIdentity}
    → run (client_proofs lib a mine n claim) ws rs ≡ ok id
    → Proven lib mine claim rs id
unfolding client_proofs
client_proofs-Proven lib a mine n claim ws rs h =
    let next = with_proof (check_signature lib mine claim) in
    let (vs, _, g) = write-ok (proof_of lib a n) proof_unsent (read proof_unread next) ws rs h in
    let (m, rest, q, k) = read-ok proof_unread next vs rs g in
    let (sig, is, f) = with_proof-ok (check_signature lib mine claim) m vs rest k in
    (sig, rest, q ∙ ap (λ x. some x ∷ rest) is, check_signature-ok lib mine claim sig vs rest f)

server_proofs-Proven :
    (lib : Keys) (a : CertAuth) (mine n : Bytes) (claim : Claim) (ws : List Bool)
    (rs : List (Option CertMessage)) {id : PeerIdentity}
    → run (server_proofs lib a mine n claim) ws rs ≡ ok id
    → Proven lib mine claim rs id
unfolding server_proofs
server_proofs-Proven lib a mine n claim ws rs h =
    let reply : Bytes → CertScript =
      λ sig. write (proof_of lib a n) proof_unsent (check_signature lib mine claim sig) in
    let (m, rest, q, k) = read-ok proof_unread (with_proof reply) ws rs h in
    let (sig, is, f) = with_proof-ok reply m ws rest k in
    let (vs, _, e) =
      write-ok (proof_of lib a n) proof_unsent (check_signature lib mine claim sig) ws rest f in
    (sig, rest, q ∙ ap (λ x. some x ∷ rest) is, check_signature-ok lib mine claim sig vs rest e)

checked-ok :
    (n : Bytes) (next : Claim → CertScript) (r : Result CertError Claim) (ws : List Bool)
    (rs : List (Option CertMessage)) {id : PeerIdentity}
    → run (checked n next r) ws rs ≡ ok id
    → (claim : Claim) × (r ≡ ok claim)
      × (length n ≡ cert_nonce_size)
      × (run (next claim) ws rs ≡ ok id)
checked-ok n next (err e) ws rs h = absurd (cc)
checked-ok n next (ok claim) ws rs h =
    let (sized, g) =
      guard-ok (length n == cert_nonce_size) (peer_nonce_length (length n)) (next claim) ws rs h in
    (claim, refl, (==_iff _ _).0 sized, g)

verify-some :
    (lib : Keys) (o : Option Cert) (a : CertAuth) (wall : ℕ) {claim : Claim}
    → verify lib o (peer_checks a) wall ≡ ok claim
    → (c : Cert) × (o ≡ some c)
      × Vouches lib (peer_checks a) c claim
      × Timely (peer_checks a) wall claim
unfolding verify
verify-some lib none a wall h = absurd (cc)
verify-some lib (some c) a wall {claim} h =
    let (vouches, timely) = (verify_iff lib c (peer_checks a) wall claim).0 h in
    (c, refl, vouches, timely)

-- What is left after the hello, once it has been read.
certifies :
    (lib : Keys) (a : CertAuth) (wall : ℕ) (mine n : Bytes) (o : Option Cert) (claim : Claim)
    (qs : List (Option CertMessage)) {id : PeerIdentity}
    → verify lib o (peer_checks a) wall ≡ ok claim
    → length n ≡ cert_nonce_size
    → Proven lib mine claim qs id
    → Certifies lib a wall (some mine) (some (cert_hello o n) ∷ qs) id
certifies lib a wall mine n o claim qs {id} h sized (sig, rest, q, (signed, same)) =
    let (c, is, vouches, timely) = verify-some lib o a wall h in
    (
      c,
      n,
      sig,
      mine,
      claim,
      rest,
      ap (λ x. some (cert_hello x n) ∷ qs) is ∙ ap (◌∷◌ (some (cert_hello (some c) n))) q,
      refl,
      sized,
      vouches,
      timely,
      signed,
      same,
    )

client_accepts :
    (lib : Keys) (a : CertAuth) (wall : ℕ) (mine : Bytes) (ws : List Bool)
    (rs : List (Option CertMessage)) {id : PeerIdentity}
    → run (run_handshake lib a wall (some mine) true) ws rs ≡ ok id
    → Certifies lib a wall (some mine) rs id
unfolding run_handshake client_checks
client_accepts lib a wall mine ws rs {id} h =
    let next = with_hello (client_checks lib a wall mine) in
    let (vs, _, g) =
      write-ok (cert_hello (some a.local_cert) mine) hello_unsent (read hello_unread next) ws rs
        h in
    let (m, qs, q, k) = read-ok hello_unread next vs rs g in
    let (o, n, is, f) = with_hello-ok (client_checks lib a wall mine) m vs qs k in
    let (claim, valid, sized, e) =
      checked-ok n (client_proofs lib a mine n) (verify lib o (peer_checks a) wall) vs qs f in
    let proven = client_proofs-Proven lib a mine n claim vs qs e in
    subst (λ x. Certifies lib a wall (some mine) x id) (sym (q ∙ ap (λ x. some x ∷ qs) is))
      (certifies lib a wall mine n o claim qs valid sized proven)

server_accepts :
    (lib : Keys) (a : CertAuth) (wall : ℕ) (mine : Bytes) (ws : List Bool)
    (rs : List (Option CertMessage)) {id : PeerIdentity}
    → run (run_handshake lib a wall (some mine) false) ws rs ≡ ok id
    → Certifies lib a wall (some mine) rs id
unfolding run_handshake server_checks
server_accepts lib a wall mine ws rs {id} h =
    let reply : Option Cert → Bytes → CertScript = λ c n.
      write (cert_hello (some a.local_cert) mine) hello_unsent
        (server_checks lib a wall mine c n) in
    let (m, qs, q, k) = read-ok hello_unread (with_hello reply) ws rs h in
    let (o, n, is, f) = with_hello-ok reply m ws qs k in
    let (vs, _, g) =
      write-ok (cert_hello (some a.local_cert) mine) hello_unsent
        (server_checks lib a wall mine o n) ws qs f in
    let (claim, valid, sized, e) =
      checked-ok n (server_proofs lib a mine n) (verify lib o (peer_checks a) wall) vs qs g in
    let proven = server_proofs-Proven lib a mine n claim vs qs e in
    subst (λ x. Certifies lib a wall (some mine) x id) (sym (q ∙ ap (λ x. some x ∷ qs) is))
      (certifies lib a wall mine n o claim qs valid sized proven)

-- On both sides, whatever the peer sends and whichever writes fail: if runHandshake returns an identity,
-- then the peer sent a certificate that the master signed, whose claim is in its window, of the workspace
-- and not revoked, and then a signature, under the key of that claim, over the nonce drawn for this
-- handshake; and the identity is that of the claim.
pub cert_handshake_accepts :
    (lib : Keys) (a : CertAuth) (wall : ℕ) (fresh : Option Bytes) (client_first : Bool)
    (ws : List Bool) (rs : List (Option CertMessage)) {id : PeerIdentity}
    → run (run_handshake lib a wall fresh client_first) ws rs ≡ ok id
    → Certifies lib a wall fresh rs id
unfolding run_handshake
cert_handshake_accepts lib a wall none client_first ws rs h = absurd (cc)
cert_handshake_accepts lib a wall (some mine) true ws rs h = client_accepts lib a wall mine ws rs h
cert_handshake_accepts lib a wall (some mine) false ws rs h = server_accepts lib a wall mine ws rs h
