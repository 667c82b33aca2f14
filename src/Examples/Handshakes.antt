-- ===== src/Examples/Handshakes.antt =====
-- The theorems on the handshakes, the wrapper and the certificates at concrete inputs. In the toy
-- cryptography a MAC is the key before the message, a key is its secret, a signature is the private key
-- and the message, and the public half of a private key is its first half.
use mosey.Base.{ℕ, zero, suc, true, false, Option, some, List, [], ◌∷◌, ◌++◌, Bytes, codes}
use mosey.Base.{bytes_eq, ok, ◌≡◌, refl}
use mosey.Base.Dict.{lookup, insert}
use mosey.Auth.Identity.{Capabilities, PeerIdentity, Stream}
use mosey.Auth.Script.{run, talk}
use mosey.Auth.Psk.{
  Crypto, NamedSecret, PskAuth, AuthMessage, client_hello, server_proof, client_proof,
}
use mosey.Auth.Psk.{mac, mac_label_client, mac_label_server, psk_server_handshake, client_handshake}
use mosey.Auth.Psk.{new_multi_psk_auth, add_entries, add_entry, derive_psk_key, PskError, entry_of}
use mosey.Auth.Psk.{answer_hello, check_client_proof, answer_server_proof}
use mosey.Auth.Psk.Accepts.{Proves, psk_server_accepts}
use mosey.Auth.Psk.Entries.{shared_secret_admits}
use mosey.Auth.Wrap.{Frame, message, byte, ack_ok, wrap, arrive, called, proto_auth, dial_script}
use mosey.Auth.Wrap.{serve_script, handle, serve, serve_stream, gate}
use mosey.Auth.Wrap.Ack.{Acknowledged, dial-Acknowledged, dial-serve}
use mosey.Auth.Wrap.Steps.{Event, handles, serves, arrives, nobody, record_all, step}
use mosey.Auth.Wrap.Steps
use mosey.Auth.Wrap.Gate.{Sees, handlers_see_authenticated}

abbrev repeated : ℕ → ℕ → Bytes
repeated zero b = []
repeated (suc n) b = b ∷ repeated n b

abbrev crypto : Crypto
crypto = record { hmac = λ key m. key ++ m; hkdf = λ secret info. some secret }

abbrev owner_caps : Capabilities
owner_caps = record { owner = true; write = true; resize = true }

abbrev reader_caps : Capabilities
reader_caps = record { owner = false; write = false; resize = false }

abbrev owner_secret : NamedSecret
owner_secret = record { label = codes "owner"; secret = codes "s3"; caps = owner_caps }

abbrev reader_secret : NamedSecret
reader_secret = record { label = codes "reader"; secret = codes "r2"; caps = reader_caps }

abbrev shared : PskAuth
shared = record {
  by_label =
      (codes "owner", entry_of owner_secret (codes "s3"))
      ∷ (codes "reader", entry_of reader_secret (codes "r2"))
      ∷ [];
  order = codes "owner" ∷ codes "reader" ∷ [];
}

abbrev reading : PskAuth
reading = record {
  by_label = (codes "reader", entry_of reader_secret (codes "r2")) ∷ [];
  order = codes "reader" ∷ [];
}

abbrev nonce_a : Bytes
nonce_a = repeated 32 7

abbrev nonce_b : Bytes
nonce_b = repeated 32 9

abbrev reader : PeerIdentity
reader = record { label = codes "reader"; caps = reader_caps }

abbrev reader_reads : List (Option AuthMessage)
reader_reads =
    some (client_hello nonce_a (codes "reader"))
    ∷ some (client_proof (codes "r2" ++ mac_label_client ++ nonce_b ++ nonce_a))
    ∷ []

reader_accepted :
    run (psk_server_handshake crypto shared (some nonce_b)) (true ∷ []) reader_reads ≡ ok reader
unfolding psk_server_handshake answer_hello check_client_proof mac lookup bytes_eq
reader_accepted = refl

psk_server_accepts_example : Proves crypto shared (some nonce_b) reader_reads reader
psk_server_accepts_example =
    psk_server_accepts crypto shared (some nonce_b) (true ∷ []) reader_reads reader_accepted

shared_built : new_multi_psk_auth crypto (owner_secret ∷ reader_secret ∷ []) ≡ ok shared
unfolding new_multi_psk_auth add_entries add_entry derive_psk_key lookup insert bytes_eq
shared_built = refl

reading_built : new_multi_psk_auth crypto (reader_secret ∷ []) ≡ ok reading
unfolding new_multi_psk_auth add_entries add_entry derive_psk_key lookup insert bytes_eq
reading_built = refl

shared_secret_admits_example :
    talk
      (client_handshake crypto reading (some nonce_a))
      (psk_server_handshake crypto shared (some nonce_b))
    ≡ some (ok reader, ok reader)
shared_secret_admits_example =
    shared_secret_admits crypto reader_secret [] (owner_secret ∷ []) reader_secret [] nonce_a
      nonce_b reading_built shared_built refl refl refl refl

dial-serve_example :
    talk
      (dial_script (λ m. 0) (client_handshake crypto reading (some nonce_a)))
      (serve_script (psk_server_handshake crypto shared (some nonce_b)))
    ≡ some (ok reader, ok reader)
dial-serve_example =
    dial-serve (λ m. 0) (client_handshake crypto reading (some nonce_a))
      (psk_server_handshake crypto shared (some nonce_b)) shared_secret_admits_example

-- A dialer whose server proves the secret and acknowledges.
abbrev served_frames : List (Option (Frame AuthMessage))
served_frames =
    some (message (server_proof nonce_b (codes "r2" ++ mac_label_server ++ nonce_a ++ nonce_b)))
    ∷ some (byte ack_ok)
    ∷ []

dialled_in :
    run
      (dial_script (λ m. 0) (client_handshake crypto reading (some nonce_a)))
      (true ∷ true ∷ [])
      served_frames
    ≡ ok reader
unfolding dial_script client_handshake answer_server_proof mac lookup bytes_eq
dialled_in = refl

dial-Acknowledged_example :
    Acknowledged
      (λ m. 0)
      (client_handshake crypto reading (some nonce_a))
      (true ∷ true ∷ [])
      served_frames
      reader
dial-Acknowledged_example =
    dial-Acknowledged (λ m. 0) (client_handshake crypto reading (some nonce_a)) (true ∷ true ∷ [])
      served_frames dialled_in

-- One protocol, one remote that authenticates twice, as an owner and then as a reader.
abbrev events : List (Event ℕ PskError)
events =
    serves
    ∷ handles (codes "pty") 5
    ∷ arrives proto_auth (codes "bob") (ok (record { label = codes "owner"; caps = owner_caps }))
    ∷ arrives proto_auth (codes "bob") (ok reader)
    ∷ []

abbrev bobs_stream : Stream
bobs_stream = record { remote_id = codes "bob"; identity = some reader }

bob_called :
    (arrive {E = PskError} (Steps.run wrap events) (codes "pty") (codes "bob") (ok reader)).1
    ≡ called 5 bobs_stream
unfolding arrive Steps.run step handle serve serve_stream gate lookup insert bytes_eq
bob_called = refl

handlers_see_authenticated_example :
    Sees
      ((record_all {H = ℕ} {E = PskError} nobody events).authenticated (codes "bob"))
      (codes "bob")
      bobs_stream
handlers_see_authenticated_example =
    handlers_see_authenticated {E = PskError} events (codes "pty") (codes "bob") (ok reader) 5
      bobs_stream bob_called
