-- ===== src/Examples/Certificates.antt =====
-- The theorems on certificates at concrete inputs. In the toy cryptography a signature is the public key
-- and the message, the public half of a private key is its first half, and a content is its fields.
use mosey.Base.{
  ℕ, zero, suc, true, false, Option, none, some, List, [], ◌∷◌, ◌++◌, Bytes, codes, take,
}
use mosey.Base.{bytes_eq, bytes_eq_self, length, ok, ◌≡◌, ◌≢◌, ◌↔◌, refl, arith, inr}
use mosey.Base.{drop, ap, sym, ◌∙◌}
use mosey.Auth.Script.{run, talk, sent_by}
use mosey.Cert.Claims.{
  Claim, Cert, Keys, Documented, sign, verify, VerifyOptions, check_content, mem_serial, time_of,
}
use mosey.Cert.Claims.Valid.{Vouches, Timely, verify_iff, sign-verify}
use mosey.Cert.Revocation.{holding, append_revocation, load_revocation_file, parse_revocation}
use mosey.Cert.Revocation.{
  parse_lines, raw_lines, drop_cr, trim_space, trim_front, space_width, note_line,
}
use mosey.Cert.Revocation.{add_serial, contains_any, has_byte}
use mosey.Cert.Revocation.Effect.{appended_serial_is_refused}
use mosey.Wallet.Text.{has_prefix}
use mosey.Auth.Certs.{
  CertAuth, CertAuthOptions, CertMessage, cert_hello, signed_nonce, new_cert_auth, pub_key_matches,
}
use mosey.Auth.Certs.{run_handshake, server_checks, server_proofs, check_signature}
use mosey.Auth.Certs.{
  claim_to_identity, cert_client_handshake, cert_server_handshake, proof_text, proof_of,
}
use mosey.Auth.Certs.Accepts.{Certifies, cert_handshake_accepts}
use mosey.Auth.Certs.Honest.{Trusts, trusted_agents_admit}
use mosey.Auth.Certs.Echo.{echo_is_accepted, echoed}

abbrev filled : ℕ → ℕ → Bytes
filled zero b = []
filled (suc n) b = b ∷ filled n b

abbrev master_priv : Bytes
master_priv = filled 64 1

abbrev agent_priv : Bytes
agent_priv = filled 64 2

abbrev agent_claim : Claim
agent_claim = record {
  agent_id = codes "a1";
  peer_pub_key = filled 32 2;
  label = codes "agent";
  caps_bits = 2;
  not_before = 10;
  not_after = 90;
  serial = codes "c1";
  workspace_id = codes "w";
}

-- A content as its fields, each text behind its length.
abbrev put : Bytes → Bytes → Bytes
put field rest = length field ∷ field ++ rest

abbrev wire : Claim → Bytes
wire c = put c.agent_id (
    put c.peer_pub_key (
      put c.label
        (put c.serial (put c.workspace_id (c.caps_bits ∷ c.not_before ∷ c.not_after ∷ [])))))

abbrev get : Bytes → (Bytes → Bytes → Option Claim) → Option Claim
get [] next = none
get (n ∷ rest) next = next (take n rest) (drop n rest)

abbrev numbers : Bytes → (ℕ → ℕ → ℕ → Option Claim) → Option Claim
numbers [] next = none
numbers (a ∷ []) next = none
numbers (a ∷ b ∷ []) next = none
numbers (a ∷ b ∷ c ∷ rest) next = next a b c

abbrev parse : Bytes → Option Claim
parse bytes = get bytes (λ agent_id r1. get r1 (λ peer r2. get r2 (λ label r3. get r3 (λ serial r4.
    get r4 (λ workspace r5. numbers r5 (λ caps from until. some (record {
      agent_id = agent_id;
      peer_pub_key = peer;
      label = label;
      caps_bits = caps;
      not_before = from;
      not_after = until;
      serial = serial;
      workspace_id = workspace;
    })))))))

take_own : (xs ys : Bytes) → take (length xs) (xs ++ ys) ≡ xs
take_own [] ys = refl
take_own (x ∷ xs) ys = ap (◌∷◌ x) (take_own xs ys)

drop_own : (xs ys : Bytes) → drop (length xs) (xs ++ ys) ≡ ys
drop_own [] ys = refl
drop_own (x ∷ xs) ys = drop_own xs ys

parse-wire : (c : Claim) → parse (wire c) ≡ some c
parse-wire c = simp (take_own, drop_own)

abbrev keys : Keys
keys = record {
  ed25519_sign = λ priv msg. take 32 priv ++ msg;
  ed25519_verify = λ key msg sig. bytes_eq sig (key ++ msg);
  public_of = λ priv. take 32 priv;
  marshal = λ c. some (wire c);
  unmarshal = parse;
}

some_bytes : Option Bytes → Bytes
some_bytes none = []
some_bytes (some b) = b

written : {a : Bytes} (b : Bytes) → some a ≡ some b → b ≡ a
unfolding some_bytes
written b e = sym (ap some_bytes e)

keys-Documented : Documented keys
keys-Documented = record {
  signs = λ priv msg. bytes_eq_self (take 32 priv ++ msg);
  reads_back = λ c b e. ap parse (written b e) ∙ parse-wire c;
}

abbrev agent_cert : Cert
agent_cert = record { content = wire agent_claim; signature = filled 32 1 ++ wire agent_claim }

abbrev verifier : VerifyOptions
verifier = record {
  master_pub = filled 32 1;
  workspace = codes "w";
  now = 0;
  revoked_serials = codes "old" ∷ [];
}

verify_iff_example : (verify keys (some agent_cert) verifier 50 ≡ ok agent_claim) ↔ (
    Vouches keys verifier agent_cert agent_claim
    × Timely verifier (time_of verifier 50) agent_claim)
verify_iff_example = verify_iff keys agent_cert verifier 50 agent_claim

agent_signed : sign keys master_priv agent_claim ≡ ok agent_cert
unfolding sign
agent_signed = refl

agent-Timely : Timely verifier (time_of verifier 50) agent_claim
unfolding mem_serial bytes_eq
agent-Timely = (omega arith, omega arith, inr refl, refl, refl)

sign-verify_example : verify keys (some agent_cert) verifier 50 ≡ ok agent_claim
sign-verify_example =
    sign-verify keys keys-Documented master_priv agent_claim verifier 50 agent_signed refl refl
      agent-Timely

abbrev old_file : Bytes
old_file = codes "old" ++ 10 ∷ []

old_loaded : load_revocation_file (holding old_file) ≡ ok (codes "old" ∷ [])
unfolding load_revocation_file parse_revocation parse_lines raw_lines drop_cr trim_space trim_front
    space_width has_prefix note_line bytes_eq add_serial mem_serial
old_loaded = refl

new_loaded :
    load_revocation_file (append_revocation (holding old_file) none (codes "c1")).0
    ≡ ok (codes "old" ∷ codes "c1" ∷ [])
unfolding load_revocation_file parse_revocation parse_lines raw_lines drop_cr trim_space trim_front
    space_width has_prefix note_line bytes_eq add_serial mem_serial append_revocation contains_any
    has_byte
new_loaded = refl

appended : (append_revocation (holding old_file) none (codes "c1")).1 ≡ none
unfolding append_revocation contains_any has_byte bytes_eq
appended = refl

c1_uncut : drop_cr (codes "c1") ≡ codes "c1"
unfolding drop_cr
c1_uncut = refl

c1_trimmed : trim_space (codes "c1") ≡ codes "c1"
unfolding trim_space trim_front space_width has_prefix
c1_trimmed = refl

abbrev reloaded : VerifyOptions
reloaded = record verifier { revoked_serials = codes "old" ∷ codes "c1" ∷ [] }

appended_serial_is_refused_example : verify keys (some agent_cert) reloaded 50 ≢ ok agent_claim
appended_serial_is_refused_example =
    appended_serial_is_refused old_file (codes "c1") keys agent_cert reloaded 50 agent_claim
      old_loaded (inr (codes "old", refl)) (c1_uncut, c1_trimmed) (omega arith) appended new_loaded
      refl

-- A file whose last line lacks its newline: the appended serial runs into that line, and neither the old
-- serial nor the new one is in the set any more.
glued :
    load_revocation_file (append_revocation (holding (codes "old")) none (codes "c1")).0
    ≡ ok (codes "oldc1" ∷ [])
unfolding load_revocation_file parse_revocation parse_lines raw_lines drop_cr trim_space trim_front
    space_width has_prefix note_line bytes_eq add_serial mem_serial append_revocation contains_any
    has_byte
glued = refl

abbrev agent_options : CertAuthOptions
agent_options = record {
  own_cert = some agent_cert;
  own_priv = agent_priv;
  master_key = filled 32 1;
  workspace_name = codes "w";
  initially_revoked = [];
}

abbrev agent : CertAuth
agent = record {
  local_cert = agent_cert;
  local_priv = agent_priv;
  master = filled 32 1;
  workspace_id = codes "w";
  revoked_set = [];
}

agent_built : new_cert_auth keys agent_options 50 ≡ ok agent
unfolding new_cert_auth pub_key_matches verify check_content mem_serial bytes_eq
agent_built = refl

agent_trusted : Trusts keys agent 50 agent agent_claim
unfolding verify check_content mem_serial bytes_eq
agent_trusted = (refl, refl)

agent_trusted_later : Trusts keys agent 60 agent agent_claim
unfolding verify check_content mem_serial bytes_eq
agent_trusted_later = (refl, refl)

abbrev nonce_c : Bytes
nonce_c = filled 32 3

abbrev nonce_s : Bytes
nonce_s = filled 32 4

trusted_agents_admit_example :
    talk
      (cert_client_handshake keys agent 50 (some nonce_c))
      (cert_server_handshake keys agent 60 (some nonce_s))
    ≡ some (ok (claim_to_identity agent_claim), ok (claim_to_identity agent_claim))
trusted_agents_admit_example =
    trusted_agents_admit keys keys-Documented agent agent 50 60 nonce_c nonce_s agent_claim
      agent_claim agent_trusted agent_trusted_later refl refl

echo_is_accepted_example :
    (claim : Claim) × (sent_by
        (cert_client_handshake keys agent 50 (some nonce_c))
        (true ∷ true ∷ [])
        (echoed keys agent nonce_c)
      ≡ cert_hello (some agent_cert) nonce_c ∷ proof_of keys agent nonce_c ∷ [])
    × (run
          (cert_client_handshake keys agent 50 (some nonce_c))
          (true ∷ true ∷ [])
          (echoed keys agent nonce_c)
        ≡ ok (claim_to_identity claim))
echo_is_accepted_example =
    echo_is_accepted keys keys-Documented agent_options 50 nonce_c agent_built refl

abbrev server_reads : List (Option CertMessage)
server_reads =
    some (cert_hello (some agent_cert) nonce_c)
    ∷ some (signed_nonce (filled 32 2 ++ proof_text nonce_s))
    ∷ []

server_accepted :
    run (run_handshake keys agent 50 (some nonce_s) false) (true ∷ true ∷ []) server_reads
    ≡ ok (claim_to_identity agent_claim)
unfolding run_handshake server_checks server_proofs check_signature verify check_content mem_serial
    bytes_eq
server_accepted = refl

cert_handshake_accepts_example :
    Certifies keys agent 50 (some nonce_s) server_reads (claim_to_identity agent_claim)
cert_handshake_accepts_example =
    cert_handshake_accepts keys agent 50 (some nonce_s) false (true ∷ true ∷ []) server_reads
      server_accepted
