-- ===== src/Auth/Psk/Accepts.antt =====
-- auth/psk.go: what an accepted handshake proves, whatever the peer sends.
use mosey.Base.{Bool, Option, none, some, List, ◌∷◌, Bytes, bytes_eq, length, ==_iff}
use mosey.Base.{ok, ◌≡◌, refl, sym, ap, ◌∙◌, subst, ok_same, bytes_eq→eq}
use mosey.Base.Dict.{lookup}
use mosey.Auth.Identity.{PeerIdentity}
use mosey.Auth.Script.{done, read, run, guard-ok, write-ok, read-ok}
use mosey.Auth.Psk.{
  Crypto, Entry, PskAuth, AuthMessage, client_hello, server_proof, client_proof, no_kind,
}
use mosey.Auth.Psk.{
  mac, mac_label_client, mac_label_server, nonce_size, hinted, prove_as, check_client_proof,
}
use mosey.Auth.Psk.{
  answer_hello, psk_server_handshake, proof_unsent, unread, mac_mismatch, nonce_length,
}

-- The reads of a handshake that accepts: a hello with a nonce of full length, then the MAC that the key
-- of the hinted entry gives over the nonce drawn for this handshake and the nonce of the hello.
abbrev pub Proves :
    Crypto → PskAuth → Option Bytes → List (Option AuthMessage) → PeerIdentity → Type 0
Proves lib a fresh rs id =
    (nonce_c label nonce_s : Bytes) × (e : Entry) × (rest : List (Option AuthMessage)) × (rs
      ≡ some (client_hello nonce_c label)
        ∷ some (client_proof (mac lib e.key mac_label_client nonce_s nonce_c))
        ∷ rest)
    × (fresh ≡ some nonce_s)
    × (length nonce_c ≡ nonce_size)
    × (lookup bytes_eq (hinted label) a.by_label ≡ some e)
    × (id ≡ e.identity)

-- The last read is the client's proof.
check_client_proof-ok :
    (lib : Crypto) (e : Entry) (nonce_c nonce_s : Bytes) (m : AuthMessage) (ws : List Bool)
    (rs : List (Option AuthMessage)) {id : PeerIdentity}
    → run (check_client_proof lib e nonce_c nonce_s m) ws rs ≡ ok id
    → (m ≡ client_proof (mac lib e.key mac_label_client nonce_s nonce_c)) × (id ≡ e.identity)
unfolding check_client_proof
check_client_proof-ok lib e nonce_c nonce_s (client_hello n l) ws rs h = absurd (cc)
check_client_proof-ok lib e nonce_c nonce_s (server_proof n m) ws rs h = absurd (cc)
check_client_proof-ok lib e nonce_c nonce_s no_kind ws rs h = absurd (cc)
check_client_proof-ok lib e nonce_c nonce_s (client_proof m) ws rs h =
    let (same, g) = guard-ok _ mac_mismatch (done (ok e.identity)) ws rs h in
    (ap client_proof (bytes_eq→eq m _ same), sym (ok_same g))

prove_as-ok :
    (lib : Crypto) (nonce_c : Bytes) (fresh : Option Bytes) (o : Option Entry) (ws : List Bool)
    (rs : List (Option AuthMessage)) {id : PeerIdentity}
    → run (prove_as lib nonce_c fresh o) ws rs ≡ ok id
    → (nonce_s : Bytes) × (e : Entry) × (rest : List (Option AuthMessage)) × (rs
        ≡ some (client_proof (mac lib e.key mac_label_client nonce_s nonce_c)) ∷ rest)
      × (fresh ≡ some nonce_s)
      × (o ≡ some e)
      × (id ≡ e.identity)
prove_as-ok lib nonce_c fresh none ws rs h = absurd (cc)
prove_as-ok lib nonce_c none (some e) ws rs h = absurd (cc)
prove_as-ok lib nonce_c (some nonce_s) (some e) ws rs h =
    let finish = check_client_proof lib e nonce_c nonce_s in
    let offer = server_proof nonce_s (mac lib e.key mac_label_server nonce_c nonce_s) in
    let (vs, _, g) = write-ok offer proof_unsent (read unread finish) ws rs h in
    let (m, rest, q, k) = read-ok unread finish vs rs g in
    let (p, same) = check_client_proof-ok lib e nonce_c nonce_s m vs rest k in
    (nonce_s, e, rest, q ∙ ap (λ x. some x ∷ rest) p, refl, refl, same)

answer_hello-ok :
    (lib : Crypto) (a : PskAuth) (fresh : Option Bytes) (m : AuthMessage) (ws : List Bool)
    (rs : List (Option AuthMessage)) {id : PeerIdentity}
    → run (answer_hello lib a fresh m) ws rs ≡ ok id
    → Proves lib a fresh (some m ∷ rs) id
unfolding answer_hello
answer_hello-ok lib a fresh (server_proof n m) ws rs h = absurd (cc)
answer_hello-ok lib a fresh (client_proof m) ws rs h = absurd (cc)
answer_hello-ok lib a fresh no_kind ws rs h = absurd (cc)
answer_hello-ok lib a fresh (client_hello n l) ws rs h =
    let (size, g) = guard-ok _ (nonce_length (length n)) (prove_as lib n fresh _) ws rs h in
    let (nonce_s, e, rest, q, drawn, found, same) = prove_as-ok lib n fresh _ ws rs g in
    (
      n,
      l,
      nonce_s,
      e,
      rest,
      ap (◌∷◌ (some (client_hello n l))) q,
      drawn,
      (==_iff (length n) nonce_size).0 size,
      found,
      same,
    )

-- Whatever a peer sends and whichever writes fail: if ServerHandshake of a PSKAuth returns an identity,
-- then the peer sent a hello with a 32-byte nonce and then the MAC, under the key registered for the label
-- of that hello ("owner" for an empty one), over the nonce that this handshake drew and the peer's nonce;
-- and the identity is the one registered with that key.
pub psk_server_accepts :
    (lib : Crypto) (a : PskAuth) (fresh : Option Bytes) (ws : List Bool)
    (rs : List (Option AuthMessage)) {id : PeerIdentity}
    → run (psk_server_handshake lib a fresh) ws rs ≡ ok id
    → Proves lib a fresh rs id
unfolding psk_server_handshake
psk_server_accepts lib a fresh ws rs {id} h =
    let (m, rest, q, g) = read-ok unread (answer_hello lib a fresh) ws rs h in
    subst (λ x. Proves lib a fresh x id) (sym q) (answer_hello-ok lib a fresh m ws rest g)
