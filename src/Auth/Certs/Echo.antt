-- ===== src/Auth/Certs/Echo.antt =====
-- auth/cert.go: a peer that sends back what a client sends.
use mosey.Base.{ℕ, true, not, Option, none, some, List, [], ◌∷◌, Bytes, bytes_eq, bytes_eq→eq}
use mosey.Base.{length, ◌==◌, Result, ok, err, ok_same, step-ok, unless-ok, ◌≡◌, ap, subst}
use mosey.Auth.Certs.{CertScript}
use mosey.Base.{◌∙◌, arith, unless, ◌>>=◌}
use mosey.Auth.Script.{run, sent_by}
use mosey.Cert.Claims.{
  Claim, Cert, CertError, Keys, Documented, verify, private_key_size, public_key_size,
}
use mosey.Auth.Certs.{CertAuth, CertAuthOptions, CertAuthError, CertMessage, cert_hello}
use mosey.Auth.Certs.{
  no_local_cert, private_length, master_length, no_workspace, key_mismatch, given,
}
use mosey.Auth.Certs.{valid_local, pub_key_matches, option_checks, built, new_cert_auth}
use mosey.Auth.Certs.{cert_nonce_size, client_proofs, run_handshake}
use mosey.Auth.Certs.{claim_to_identity, cert_client_handshake, proof_of}
use mosey.Auth.Certs.Honest.{Trusts, client_checks-good, check_signature-good}

given-ok : {A : Type 0} (e : CertAuthError) (o : Option A) {x : A} → given e o ≡ ok x → o ≡ some x
given-ok e none h = absurd (cc)
given-ok e (some y) h = ap some (ok_same h)

valid_local-ok : (r : Result CertError Claim) {c : Claim} → valid_local r ≡ ok c → r ≡ ok c
valid_local-ok (err e) h = absurd (cc)
valid_local-ok (ok d) h = ap ok (ok_same h)

pub_key_matches-true :
    (lib : Keys) (k priv : Bytes) → pub_key_matches lib k priv ≡ true → k ≡ lib.public_of priv
unfolding pub_key_matches
pub_key_matches-true lib k priv h = ground (arith, bytes_eq→eq k (lib.public_of priv))

-- NewCertAuth gives an instance that trusts its own certificate.
new_cert_auth-Trusts :
    (lib : Keys) (o : CertAuthOptions) (wall : ℕ) {a : CertAuth}
    → new_cert_auth lib o wall ≡ ok a
    → (claim : Claim) × Trusts lib a wall a claim
unfolding new_cert_auth
new_cert_auth-Trusts lib o wall {a} h =
    let inside : Cert → Claim → Result CertAuthError CertAuth = λ c claim.
      unless (pub_key_matches lib claim.peer_pub_key o.own_priv) key_mismatch (ok (built o c)) in
    let inner : Cert → Result CertAuthError CertAuth =
      λ c. valid_local (verify lib (some c) (option_checks o) wall) >>= inside c in
    let guarded : Cert → Result CertAuthError CertAuth = λ c.
      unless (length o.own_priv == private_key_size) (private_length (length o.own_priv)) (
        unless (length o.master_key == public_key_size) (master_length (length o.master_key))
          (unless (not (bytes_eq o.workspace_name [])) no_workspace (inner c))) in
    let (c, _, h0) = step-ok (given no_local_cert o.own_cert) guarded h in
    let (_, h1) =
      unless-ok (length o.own_priv == private_key_size) (private_length (length o.own_priv)) _ h0 in
    let (_, h2) =
      unless-ok (length o.master_key == public_key_size) (master_length (length o.master_key)) _
        h1 in
    let (_, h3) = unless-ok (not (bytes_eq o.workspace_name [])) no_workspace (inner c) h2 in
    let (claim, valid, h4) =
      step-ok (valid_local (verify lib (some c) (option_checks o) wall)) (inside c) h3 in
    let (matches, h5) =
      unless-ok (pub_key_matches lib claim.peer_pub_key o.own_priv) key_mismatch _ h4 in
    subst (λ x. (k : Claim) × Trusts lib x wall x k) (ok_same h5)
      (
        claim,
        (valid_local-ok _ valid, pub_key_matches-true lib claim.peer_pub_key o.own_priv matches),
      )

-- The messages that an echo returns: the client's own hello and its own proof.
abbrev pub echoed : Keys → CertAuth → Bytes → List (Option CertMessage)
echoed lib a mine = some (cert_hello (some a.local_cert) mine) ∷ some (proof_of lib a mine) ∷ []

-- The client of an instance that NewCertAuth built, at that time, accepts a peer that has neither a
-- certificate nor a key and only sends back each message that the client writes: what it reads is what it
-- has written, and it returns an identity, that of its own certificate.
pub echo_is_accepted :
    (lib : Keys) (docs : Documented lib) (o : CertAuthOptions) (wall : ℕ) (mine : Bytes)
    {a : CertAuth}
    → new_cert_auth lib o wall ≡ ok a
    → length mine ≡ cert_nonce_size
    → (claim : Claim) × (sent_by
          (cert_client_handshake lib a wall (some mine))
          (true ∷ true ∷ [])
          (echoed lib a mine)
        ≡ cert_hello (some a.local_cert) mine ∷ proof_of lib a mine ∷ [])
      × (run (cert_client_handshake lib a wall (some mine)) (true ∷ true ∷ []) (echoed lib a mine)
          ≡ ok (claim_to_identity claim))
unfolding run_handshake client_proofs
echo_is_accepted lib docs o wall mine {a} h sized =
    let (claim, (good, own)) = new_cert_auth-Trusts lib o wall h in
    let checks = client_checks-good lib a a wall mine mine claim good sized in
    let signed = check_signature-good lib docs a mine claim own in
    let again = some (proof_of lib a mine) ∷ [] in
    (
      claim,
      ap (λ (x : CertScript). cert_hello (some a.local_cert) mine ∷ sent_by x (true ∷ []) again)
            checks
          ∙ ap
              (λ (x : CertScript).
                cert_hello (some a.local_cert) mine ∷ proof_of lib a mine ∷ sent_by x [] [])
              signed,
      ap (λ (x : CertScript). run x (true ∷ []) again) checks
          ∙ ap (λ (x : CertScript). run x [] []) signed,
    )
