-- ===== src/Auth/Certs/Honest.antt =====
-- auth/cert.go: two agents of one workspace.
use mosey.Base.{ℕ, true, some, Bytes, length, ◌==◌, ==_iff}
use mosey.Base.{ok, ◌≡◌, refl, ap, ◌∙◌}
use mosey.Auth.Script.{talk, done}
use mosey.Cert.Claims.{Claim, Keys, Documented, verify}
use mosey.Auth.Certs.{CertAuth}
use mosey.Auth.Certs.{cert_nonce_size, peer_checks, proof_text}
use mosey.Auth.Certs.{
  check_signature, client_proofs, server_proofs, client_checks, server_checks, run_handshake,
}
use mosey.Auth.Certs.{claim_to_identity, cert_client_handshake, cert_server_handshake, CertScript}

-- The certificate of one agent is good for the other, and vouches for the key that the agent signs with.
abbrev pub Trusts : Keys → CertAuth → ℕ → CertAuth → Claim → Type 0
Trusts lib verifier wall agent claim =
    (verify lib (some agent.local_cert) (peer_checks verifier) wall ≡ ok claim)
    × (claim.peer_pub_key ≡ lib.public_of agent.local_priv)

pub client_checks-good :
    (lib : Keys) (a b : CertAuth) (wall : ℕ) (mine n : Bytes) (claim : Claim)
    → verify lib (some b.local_cert) (peer_checks a) wall ≡ ok claim
    → length n ≡ cert_nonce_size
    → client_checks lib a wall mine (some b.local_cert) n ≡ client_proofs lib a mine n claim
unfolding client_checks
client_checks-good lib a b wall mine n claim valid sized =
    let full : (length n == cert_nonce_size) ≡ true = (==_iff _ _).1 sized in rw (valid, full) refl

server_checks-good :
    (lib : Keys) (a b : CertAuth) (wall : ℕ) (mine n : Bytes) (claim : Claim)
    → verify lib (some b.local_cert) (peer_checks a) wall ≡ ok claim
    → length n ≡ cert_nonce_size
    → server_checks lib a wall mine (some b.local_cert) n ≡ server_proofs lib a mine n claim
unfolding server_checks
server_checks-good lib a b wall mine n claim valid sized =
    let full : (length n == cert_nonce_size) ≡ true = (==_iff _ _).1 sized in rw (valid, full) refl

pub check_signature-good :
    (lib : Keys) (docs : Documented lib) (b : CertAuth) (mine : Bytes) (claim : Claim)
    → claim.peer_pub_key ≡ lib.public_of b.local_priv
    → check_signature lib mine claim (lib.ed25519_sign b.local_priv (proof_text mine))
      ≡ done (ok (claim_to_identity claim))
unfolding check_signature
check_signature-good lib docs b mine claim own =
    rw (own, docs.signs b.local_priv (proof_text mine)) refl

-- The end of the talk, after both hellos.
proofs_meet :
    (lib : Keys) (docs : Documented lib) (c s : CertAuth) (n_c n_s : Bytes) (of_c of_s : Claim)
    → of_c.peer_pub_key ≡ lib.public_of c.local_priv
    → of_s.peer_pub_key ≡ lib.public_of s.local_priv
    → talk (client_proofs lib c n_c n_s of_s) (server_proofs lib s n_s n_c of_c)
      ≡ some (ok (claim_to_identity of_s), ok (claim_to_identity of_c))
unfolding talk client_proofs server_proofs
proofs_meet lib docs c s n_c n_s of_c of_s own_c own_s =
    let seen = check_signature-good lib docs c n_s of_c own_c in
    let seeing = check_signature-good lib docs s n_c of_s own_s in
    ap
      (λ (x : CertScript).
        talk x (check_signature lib n_s of_c (lib.ed25519_sign c.local_priv (proof_text n_s))))
      seeing
    ∙ ap (talk (done (ok (claim_to_identity of_s)))) seen

-- Two agents that trust each other, with nonces of 32 bytes: the handshakes never wait for each other, and
-- each side returns the identity of the other's claim.
pub trusted_agents_admit :
    (lib : Keys) (docs : Documented lib) (c s : CertAuth) (wall_c wall_s : ℕ) (n_c n_s : Bytes)
    (of_c of_s : Claim)
    → Trusts lib c wall_c s of_s
    → Trusts lib s wall_s c of_c
    → length n_c ≡ cert_nonce_size
    → length n_s ≡ cert_nonce_size
    → talk
        (cert_client_handshake lib c wall_c (some n_c))
        (cert_server_handshake lib s wall_s (some n_s))
      ≡ some (ok (claim_to_identity of_s), ok (claim_to_identity of_c))
unfolding talk run_handshake
trusted_agents_admit lib docs c s wall_c wall_s n_c n_s of_c of_s (good_s, own_s) (good_c, own_c)
      size_c size_s =
    ap (λ (x : CertScript). talk x (server_checks lib s wall_s n_s (some c.local_cert) n_c))
      (client_checks-good lib c s wall_c n_c n_s of_s good_s size_s)
    ∙ ap (talk (client_proofs lib c n_c n_s of_s))
        (server_checks-good lib s c wall_s n_s n_c of_c good_c size_c)
    ∙ proofs_meet lib docs c s n_c n_s of_c of_s own_c own_s
