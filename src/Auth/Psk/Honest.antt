-- ===== src/Auth/Psk/Honest.antt =====
-- auth/psk.go: a client and a server that share a secret.
use mosey.Base.{true, some, List, ◌∷◌, Bytes, bytes_eq, length, ◌==◌, ==_iff}
use mosey.Base.{ok, ◌≡◌, sym, ap, ◌∙◌, bytes_eq_self}
use mosey.Base.Dict.{lookup}
use mosey.Auth.Script.{talk, done, write, read}
use mosey.Auth.Psk.{
  Crypto, Entry, PskAuth, mac, nonce_size, hinted, client_handshake, client_as, prove_as,
}
use mosey.Auth.Psk.{
  unread, server_proof, client_proof, client_hello, mac_label_server, mac_label_client,
  proof_unsent,
}
use mosey.Auth.Psk.{answer_server_proof, check_client_proof, answer_hello, psk_server_handshake}

client_handshake-first :
    (lib : Crypto) (c : PskAuth) (e : Entry) (first : Bytes) (more : List Bytes) (n : Bytes)
    → c.order ≡ first ∷ more
    → lookup bytes_eq first c.by_label ≡ some e
    → client_handshake lib c (some n) ≡ client_as lib e (some n)
unfolding client_handshake
client_handshake-first lib c e first more n ordered mine = rw (ordered, mine)

answer_hello-found :
    (lib : Crypto) (s : PskAuth) (e : Entry) (nonce_c nonce_s label : Bytes)
    → lookup bytes_eq (hinted label) s.by_label ≡ some e
    → length nonce_c ≡ nonce_size
    → answer_hello lib s (some nonce_s) (client_hello nonce_c label)
      ≡ prove_as lib nonce_c (some nonce_s) (some e)
unfolding answer_hello
answer_hello-found lib s e nonce_c nonce_s label found size =
    let sized : (length nonce_c == nonce_size) ≡ true = (==_iff _ _).1 size in rw (sized, found)

answer_server_proof-true :
    (lib : Crypto) (e : Entry) (nonce_c nonce_s : Bytes)
    → length nonce_s ≡ nonce_size
    → answer_server_proof lib e nonce_c
        (server_proof nonce_s (mac lib e.key mac_label_server nonce_c nonce_s))
      ≡ write
          (client_proof (mac lib e.key mac_label_client nonce_s nonce_c))
          proof_unsent
          (done (ok e.identity))
unfolding answer_server_proof
answer_server_proof-true lib e nonce_c nonce_s size =
    let sized : (length nonce_s == nonce_size) ≡ true = (==_iff _ _).1 size in
    rw (sized, bytes_eq_self)

check_client_proof-true :
    (lib : Crypto) (e : Entry) (nonce_c nonce_s : Bytes)
    → check_client_proof lib e nonce_c nonce_s
        (client_proof (mac lib e.key mac_label_client nonce_s nonce_c))
      ≡ done (ok e.identity)
unfolding check_client_proof
check_client_proof-true lib e nonce_c nonce_s = rw bytes_eq_self

-- A client whose first entry has the key that the server registered for that label: with two nonces of
-- full length the handshake does not block, and both sides return the identity that each registered.
pub psk_honest :
    (lib : Crypto) (c s : PskAuth) (ce se : Entry) (first : Bytes) (more : List Bytes)
    (nonce_c nonce_s : Bytes)
    → c.order ≡ first ∷ more
    → lookup bytes_eq first c.by_label ≡ some ce
    → lookup bytes_eq (hinted ce.label) s.by_label ≡ some se
    → ce.key ≡ se.key
    → length nonce_c ≡ nonce_size
    → length nonce_s ≡ nonce_size
    → talk (client_handshake lib c (some nonce_c)) (psk_server_handshake lib s (some nonce_s))
      ≡ some (ok ce.identity, ok se.identity)
unfolding talk psk_server_handshake
psk_honest lib c s ce se first more nonce_c nonce_s ordered mine theirs shared size_c size_s =
    let reply = read unread (answer_server_proof lib ce nonce_c) in
    let finish = check_client_proof lib se nonce_c nonce_s in
    let proof =
      λ (key : Bytes). server_proof nonce_s (mac lib key mac_label_server nonce_c nonce_s) in
    ap (λ x. talk x (psk_server_handshake lib s (some nonce_s)))
      (client_handshake-first lib c ce first more nonce_c ordered mine)
    ∙ ap (talk reply) (answer_hello-found lib s se nonce_c nonce_s ce.label theirs size_c)
    ∙ ap
        (λ (key : Bytes).
          talk (answer_server_proof lib ce nonce_c (proof key)) (read unread finish))
        (sym shared)
    ∙ ap (λ x. talk x (read unread finish)) (answer_server_proof-true lib ce nonce_c nonce_s size_s)
    ∙ ap
        (λ key.
          talk (done (ok ce.identity))
            (finish (client_proof (mac lib key mac_label_client nonce_s nonce_c))))
        shared
    ∙ ap (talk (done (ok ce.identity))) (check_client_proof-true lib se nonce_c nonce_s)
