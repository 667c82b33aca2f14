-- ===== src/Auth/Psk/Entries.antt =====
-- auth/psk.go: what NewMultiPSKAuth registers, and the handshake of two instances that it built.
use mosey.Base.{some_same}
use mosey.Base.{true, not, Option, none, some, List, [], ◌∷◌, ◌++◌, map, Bytes}
use mosey.Base.{bytes_eq, bytes_eq_self, bytes_eq→eq, length, All, append_assoc}
use mosey.Base.{ok, unless-ok, step-ok, ok_same, ◌≡◌, ◌∙◌, refl, sym, ap, arith}
use mosey.Base.{subst, append-nil}
use mosey.Base.Dict.{lookup, insert, lookup-insert}
use mosey.Auth.Identity.{PeerIdentity}
use mosey.Auth.Script.{talk}
use mosey.Auth.Psk.{Crypto, NamedSecret, Entry, PskAuth, no_label, empty_secret}
use mosey.Auth.Psk.{duplicate_label, psk_info, derive_psk_key, absent, entry_of, put_entry}
use mosey.Auth.Psk.{
  add_entry, add_entries, new_multi_psk_auth, nonce_size, hinted, client_handshake,
}
use mosey.Auth.Psk.{psk_server_handshake}
use mosey.Auth.Psk.Honest.{psk_honest}

-- The label of a secret is bound to the key that its plaintext gives, and to its capabilities.
abbrev pub Registered : Crypto → PskAuth → NamedSecret → Type 0
Registered lib a ns =
    (key : Bytes) × (lib.hkdf ns.secret psk_info ≡ some key)
    × (lookup bytes_eq ns.label a.by_label ≡ some (entry_of ns key))
    × (hinted ns.label ≡ ns.label)

-- No label of the first is bound to anything else in the second.
abbrev Keeps : PskAuth → PskAuth → Type 0
Keeps a b =
    (l : Bytes) (e : Entry)
    → lookup bytes_eq l a.by_label ≡ some e
    → lookup bytes_eq l b.by_label ≡ some e

derive_psk_key-ok :
    (lib : Crypto) (secret : Bytes) {key : Bytes}
    → derive_psk_key lib secret ≡ ok key
    → lib.hkdf secret psk_info ≡ some key
unfolding derive_psk_key
derive_psk_key-ok lib secret h = ground arith

absent_lem : {A : Type 0} (o : Option A) → absent o ≡ true → o ≡ none
absent_lem none h = refl
absent_lem (some x) h = absurd (cc)

hinted_lem : (l : Bytes) → not (bytes_eq l []) ≡ true → hinted l ≡ l
unfolding bytes_eq
hinted_lem [] h = absurd (cc)
hinted_lem (c ∷ cs) h = refl

lookup-insert_same :
    (l : Bytes) (e : Entry) (m : List (Bytes × Entry))
    → lookup bytes_eq l (insert bytes_eq l e m) ≡ some e
lookup-insert_same l e m =
    rw (lookup-insert bytes_eq bytes_eq_self bytes_eq→eq l l e m, bytes_eq_self l)

put_entry-Keeps :
    (a : PskAuth) (ns : NamedSecret) (key : Bytes)
    → lookup bytes_eq ns.label a.by_label ≡ none
    → Keeps a (put_entry a ns key)
put_entry-Keeps a ns key free l e h =
    rw (lookup-insert bytes_eq bytes_eq_self bytes_eq→eq ns.label l (entry_of ns key) a.by_label)
      (ground (arith, bytes_eq→eq ns.label l))

add_entry-ok :
    (lib : Crypto) (a : PskAuth) (ns : NamedSecret) {b : PskAuth}
    → add_entry lib a ns ≡ ok b
    → Registered lib b ns × Keeps a b × (b.order ≡ a.order ++ ns.label ∷ [])
unfolding add_entry
add_entry-ok lib a ns {b} h =
    let (named, h1) = unless-ok _ no_label _ h in
    let (_, h2) = unless-ok _ (empty_secret ns.label) _ h1 in
    let (free, h3) = unless-ok _ (duplicate_label ns.label) _ h2 in
    let (key, drawn, h4) = step-ok _ (λ k. ok (put_entry a ns k)) h3 in
    subst (λ x. Registered lib x ns × Keeps a x × (x.order ≡ a.order ++ ns.label ∷ [])) (ok_same h4)
      (
        (
          key,
          derive_psk_key-ok lib ns.secret drawn,
          lookup-insert_same ns.label (entry_of ns key) _,
          hinted_lem ns.label named,
        ),
        put_entry-Keeps a ns key (absent_lem _ free),
        refl,
      )

add_entries-ok :
    (lib : Crypto) (a : PskAuth) (es : List NamedSecret) {b : PskAuth}
    → add_entries lib a es ≡ ok b
    → All (Registered lib b) es × Keeps a b × (b.order ≡ a.order ++ map (λ ns. ns.label) es)
unfolding add_entries
add_entries-ok lib a [] {b} h =
    subst (λ x. All (Registered lib x) [] × Keeps a x × (x.order ≡ a.order ++ [])) (ok_same h)
      (tt, (λ l e q. q), sym (append-nil a.order))
add_entries-ok lib a (ns ∷ es) {b} h =
    let (c, first, more) = step-ok (add_entry lib a ns) (λ x. add_entries lib x es) h in
    let ((key, drawn, bound, named), kept, ordered) = add_entry-ok lib a ns first in
    let (each, keeps, orders) = add_entries-ok lib c es more in
    (
      ((key, drawn, keeps _ _ bound, named), each),
      (λ l e q. keeps l e (kept l e q)),
      rw (orders, ordered) (append_assoc a.order (ns.label ∷ []) _),
    )

-- If NewMultiPSKAuth succeeds, every secret it was given is registered under its label, which is not
-- empty, with the key that HKDF gives for it and its own capabilities, and the labels are kept in order.
pub new_multi_psk_auth-registers :
    (lib : Crypto) (es : List NamedSecret) {a : PskAuth}
    → new_multi_psk_auth lib es ≡ ok a
    → All (Registered lib a) es × (a.order ≡ map (λ ns. ns.label) es)
unfolding new_multi_psk_auth
new_multi_psk_auth-registers lib [] h = absurd (cc)
new_multi_psk_auth-registers lib (ns ∷ es) h =
    let (each, _, ordered) =
      add_entries-ok lib (record { by_label = []; order = [] }) (ns ∷ es) h in
    (each, ordered)

All-middle {ℓ κ} :
    {A : Type ℓ} (P : A → Type κ) (xs : List A) (y : A) (ys : List A) → All P (xs ++ y ∷ ys) → P y
All-middle P [] y ys (p, _) = p
All-middle P (x ∷ xs) y ys (_, ps) = All-middle P xs y ys ps

abbrev granted : NamedSecret → PeerIdentity
granted ns = record { label = ns.label; caps = ns.caps }

-- A client whose first secret is one of the server's, under the same label: for nonces of 32 bytes the
-- two handshakes never wait for each other, and each side returns the label with the capabilities that it
-- configured itself.
pub shared_secret_admits :
    (lib : Crypto) (mine : NamedSecret) (more before : List NamedSecret) (theirs : NamedSecret)
    (after : List NamedSecret) (nonce_c nonce_s : Bytes) {c s : PskAuth}
    → new_multi_psk_auth lib (mine ∷ more) ≡ ok c
    → new_multi_psk_auth lib (before ++ theirs ∷ after) ≡ ok s
    → mine.label ≡ theirs.label
    → mine.secret ≡ theirs.secret
    → length nonce_c ≡ nonce_size
    → length nonce_s ≡ nonce_size
    → talk (client_handshake lib c (some nonce_c)) (psk_server_handshake lib s (some nonce_s))
      ≡ some (ok (granted mine), ok (granted theirs))
shared_secret_admits lib mine more before theirs after nonce_c nonce_s {c} {s} hc hs same_label
      same_secret size_c size_s =
    let (((kc, drawn_c, bound_c, named), _), ordered) =
      new_multi_psk_auth-registers lib (mine ∷ more) hc in
    let (all_s, _) = new_multi_psk_auth-registers lib (before ++ theirs ∷ after) hs in
    let (ks, drawn_s, bound_s, _) = All-middle (Registered lib s) before theirs after all_s in
    let hint : lookup bytes_eq (hinted mine.label) s.by_label ≡ some (entry_of theirs ks) =
      rw (named, same_label) bound_s in
    let key : kc ≡ ks =
      some_same (sym drawn_c ∙ ap (λ x. lib.hkdf x psk_info) same_secret ∙ drawn_s) in
    psk_honest lib c s (entry_of mine kc) (entry_of theirs ks) mine.label
      (map (λ ns. ns.label) more) nonce_c nonce_s ordered bound_c hint key size_c size_s
