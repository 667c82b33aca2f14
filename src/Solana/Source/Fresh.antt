-- ===== src/Solana/Source/Fresh.antt =====
-- walletsolana/source.go: what VerifyNow and a refreshed Snapshot may grant.
use mosey.Base.{ℕ, true, Option, none, some, List, [], ◌∷◌, Bytes, bytes_eq, bytes_eq→eq}
use mosey.Base.{Result, ok, err, step-ok, ok_same, ◌≡◌, refl, sym, ap, ◌∙◌, subst, inl, inr}
use mosey.Base.{some_same, if_some, ◌⊎◌}
use mosey.Solana.Source.{RpcAccount, SourceError, left_by, refreshes}
use mathlib.Core.List.{Memᴰ}
use mosey.Wallet.Base58.{Base58Error, parse_address}
use mosey.Solana.Accounts.{
  Session, Grant, DecodeError, session_disc, grant_disc, decode_session, decode_grant,
}
use mosey.Solana.Accounts.{is_live, build_snapshot}
use mosey.Solana.Accounts.Live.{build_snapshot-Granted}
use mosey.Solana.Source.{Decoders, Source, Decoded, decode_accounts, has_disc, FoundSession}
use mosey.Solana.Source.{
  at_address, own_session, try_session, or_next, find_session, own_grant, try_grant,
}
use mosey.Solana.Source.{
  add_found, find_grants, refresh_with, Answer, refresh, looked_up, verify_now,
}

-- An account that is a session of the key, at an address.
abbrev pub IsSession : Decoders → Bytes → Bytes → Bytes → FoundSession → Type 0
IsSession lib key text bytes f =
    (decode_session lib.sha256 bytes ≡ ok f.found)
    × (f.found.session_key ≡ key)
    × (parse_address text ≡ ok f.address)

-- An account that is a grant of the session at an address.
abbrev pub IsGrant : Decoders → Bytes → Bytes → Grant → Type 0
IsGrant lib address bytes g = (decode_grant lib.sha256 bytes ≡ ok g) × (g.session ≡ address)

at_address-some :
    (s : Session) (text : Bytes) (r : Result Base58Error Bytes) (f : FoundSession)
    → at_address s text r ≡ some f
    → (r ≡ ok f.address) × (s ≡ f.found)
at_address-some s text (err e) f h = absurd (cc)
at_address-some s text (ok a) f h =
    let e = some_same h in (ap (λ x. ok x.address) e, ap (λ x. x.found) e)

own_session-IsSession :
    (lib : Decoders) (key text bytes : Bytes) (r : Result DecodeError Session) (f : FoundSession)
    → decode_session lib.sha256 bytes ≡ r
    → own_session key text r ≡ some f
    → IsSession lib key text bytes f
own_session-IsSession lib key text bytes (err e) f q h = absurd (cc)
own_session-IsSession lib key text bytes (ok s) f q h =
    let (same, placed) =
      if_some (bytes_eq s.session_key key) (at_address s text (parse_address text)) h in
    let (there, this) = at_address-some s text (parse_address text) f placed in
    (q ∙ ap ok this, sym (ap (λ x. x.session_key) this) ∙ bytes_eq→eq s.session_key key same, there)

try_session-IsSession :
    (lib : Decoders) (key text bytes : Bytes) (f : FoundSession)
    → try_session lib key text bytes ≡ some f
    → IsSession lib key text bytes f
unfolding try_session
try_session-IsSession lib key text bytes f h =
    let (_, k) =
      if_some (has_disc (session_disc lib.sha256) bytes)
        (own_session key text (decode_session lib.sha256 bytes)) h in
    own_session-IsSession lib key text bytes (decode_session lib.sha256 bytes) f refl k

own_grant-IsGrant :
    (lib : Decoders) (address bytes : Bytes) (r : Result DecodeError Grant) (g : Grant)
    → decode_grant lib.sha256 bytes ≡ r
    → own_grant address r ≡ some g
    → IsGrant lib address bytes g
own_grant-IsGrant lib address bytes (err e) g q h = absurd (cc)
own_grant-IsGrant lib address bytes (ok f) g q h =
    let (same, this) = if_some (bytes_eq f.session address) (some f) h in
    let e = some_same this in
    (q ∙ ap ok e, sym (ap (λ x. x.session) e) ∙ bytes_eq→eq f.session address same)

try_grant-IsGrant :
    (lib : Decoders) (address bytes : Bytes) (g : Grant)
    → try_grant lib address bytes ≡ some g
    → IsGrant lib address bytes g
unfolding try_grant
try_grant-IsGrant lib address bytes g h =
    let (_, k) =
      if_some (has_disc (grant_disc lib.sha256) bytes)
        (own_grant address (decode_grant lib.sha256 bytes)) h in
    own_grant-IsGrant lib address bytes (decode_grant lib.sha256 bytes) g refl k

-- Such an account is among those decoded.
abbrev pub SessionIn : Decoders → Bytes → Decoded → FoundSession → Type 0
SessionIn lib key decoded f =
    (text bytes : Bytes) × Memᴰ (text, bytes) decoded × IsSession lib key text bytes f

abbrev pub GrantIn : Decoders → Bytes → Decoded → Grant → Type 0
GrantIn lib address decoded g =
    (text bytes : Bytes) × Memᴰ (text, bytes) decoded × IsGrant lib address bytes g

or_next-some :
    (a b : Option FoundSession) (f : FoundSession)
    → or_next a b ≡ some f
    → (a ≡ some f) ⊎ (b ≡ some f)
or_next-some none b f h = inr h
or_next-some (some a) b f h = inl h

add_found-Memᴰ :
    (text : Bytes) (o : Option Grant) (found : List Grant × List Bytes) (g : Grant)
    → Memᴰ g (add_found text o found).0
    → (o ≡ some g) ⊎ Memᴰ g found.0
add_found-Memᴰ text none (grants, targets) g m = inr m
add_found-Memᴰ text (some f) (grants, targets) g (Memᴰ.head e) = inl (ap some (sym e))
add_found-Memᴰ text (some f) (grants, targets) g (Memᴰ.tail m) = inr m

find_session-SessionIn :
    (lib : Decoders) (key : Bytes) (decoded : Decoded) (f : FoundSession)
    → find_session lib key decoded ≡ some f
    → SessionIn lib key decoded f
unfolding find_session
find_session-SessionIn lib key [] f h = absurd (cc)
find_session-SessionIn lib key ((text, bytes) ∷ rest) f h =
    elim (or_next-some (try_session lib key text bytes) _ f h) [
      | inl here ↦ (text, bytes, Memᴰ.head refl, try_session-IsSession lib key text bytes f here)
      | inr later ↦
          let (t, b, m, is) = find_session-SessionIn lib key rest f later in (t, b, Memᴰ.tail m, is)
    ]

find_grants-GrantIn :
    (lib : Decoders) (address : Bytes) (decoded : Decoded) (g : Grant)
    → Memᴰ g (find_grants lib address decoded).0
    → GrantIn lib address decoded g
unfolding find_grants
find_grants-GrantIn lib address [] g m = elim m [ ]
find_grants-GrantIn lib address ((text, bytes) ∷ rest) g m =
    elim (add_found-Memᴰ text (try_grant lib address bytes) (find_grants lib address rest) g m) [
      | inl here ↦ (text, bytes, Memᴰ.head refl, try_grant-IsGrant lib address bytes g here)
      | inr later ↦
          let (t, b, n, is) = find_grants-GrantIn lib address rest g later in
          (t, b, Memᴰ.tail n, is)
    ]

-- A visit of a map sees nothing that is not in it.
abbrev pub Visits : (Decoded → Decoded) → Type 0
Visits visit = (decoded : Decoded) (p : Bytes × Bytes) → Memᴰ p (visit decoded) → Memᴰ p decoded

-- Behind the capabilities of a wallet stand two accounts among those decoded: a session of the key, and a
-- live grant of that session for the wallet.
abbrev pub Backed : Decoders → Bytes → Decoded → ℕ → Bytes → ℕ → Type 0
Backed lib key decoded now w c =
    (f : FoundSession) × SessionIn lib key decoded f
    × ((g : Grant) × GrantIn lib f.address decoded g
        × (is_live f.found now g ≡ true)
        × (g.grantee ≡ w)
        × (g.caps ≡ c))

SessionIn-visit :
    (lib : Decoders) (key : Bytes) (visit : Decoded → Decoded) (decoded : Decoded)
    (f : FoundSession)
    → Visits visit
    → SessionIn lib key (visit decoded) f
    → SessionIn lib key decoded f
SessionIn-visit lib key visit decoded f sees (text, bytes, m, is) =
    (text, bytes, sees decoded _ m, is)

GrantIn-visit :
    (lib : Decoders) (address : Bytes) (visit : Decoded → Decoded) (decoded : Decoded) (g : Grant)
    → Visits visit
    → GrantIn lib address (visit decoded) g
    → GrantIn lib address decoded g
GrantIn-visit lib address visit decoded g sees (text, bytes, m, is) =
    (text, bytes, sees decoded _ m, is)

refresh_with-Backed :
    (lib : Decoders) (visit : Decoded → Decoded) (s t : Source) (now later : ℕ) (decoded : Decoded)
    (o : Option FoundSession) (w : Bytes) (c : ℕ)
    → Visits visit
    → ((f : FoundSession) → o ≡ some f → SessionIn lib s.session_key decoded f)
    → refresh_with lib visit s now later decoded o ≡ ok t
    → looked_up w t.snap ≡ some c
    → Backed lib s.session_key decoded now w c
refresh_with-Backed lib visit s t now later decoded none w c sees from h k = absurd (cc)
refresh_with-Backed lib visit s t now later decoded (some f) w c sees from h k =
    let gs = (find_grants lib f.address (visit decoded)).0 in
    let k1 : looked_up w (some (build_snapshot f.found gs now)) ≡ some c =
      subst (λ x. looked_up w x.snap ≡ some c) (sym (ok_same h)) k in
    let (g, m, live, who, what) = (build_snapshot-Granted f.found gs now w).0 c k1 in
    let found = find_grants-GrantIn lib f.address (visit decoded) g m in
    (f, from f refl, (g, GrantIn-visit lib f.address visit decoded g sees found, live, who, what))

refresh-Backed :
    (lib : Decoders) (s t : Source) (a : Answer) (o : Option (List RpcAccount)) (w : Bytes) (c : ℕ)
    → Visits a.first_visit
    → Visits a.second_visit
    → refresh lib s (record a { accounts = o }) ≡ ok t
    → looked_up w t.snap ≡ some c
    → (accounts : List RpcAccount) × (o ≡ some accounts)
      × Backed lib s.session_key (decode_accounts lib [] accounts) a.built_at w c
unfolding refresh
refresh-Backed lib s t a none w c first second h k = absurd (cc)
refresh-Backed lib s t a (some accounts) w c first second h k =
    let decoded = decode_accounts lib [] accounts in
    let from : (f : FoundSession)
        → find_session lib s.session_key (a.first_visit decoded) ≡ some f
        → SessionIn lib s.session_key decoded f =
      λ f q.
        SessionIn-visit lib s.session_key a.first_visit decoded f first
          (find_session-SessionIn lib s.session_key (a.first_visit decoded) f q) in
    (
      accounts,
      refl,
      refresh_with-Backed lib a.second_visit s t a.built_at a.stored_at decoded
          (find_session lib s.session_key (a.first_visit decoded)) w c second from h k,
    )

-- Behind the capabilities stand accounts of this answer.
abbrev pub BackedBy : Decoders → Bytes → Answer → Bytes → ℕ → Type 0
BackedBy lib key a w c =
    (accounts : List RpcAccount) × (a.accounts ≡ some accounts)
    × Backed lib key (decode_accounts lib [] accounts) a.built_at w c

-- Its two visits of the map see nothing that is not in it.
abbrev pub IsVisited : Answer → Type 0
IsVisited a = Visits a.first_visit × Visits a.second_visit

refresh-session_key :
    (lib : Decoders) (s t : Source) (a : Answer) (o : Option (List RpcAccount))
    → refresh lib s (record a { accounts = o }) ≡ ok t
    → t.session_key ≡ s.session_key
unfolding refresh
refresh-session_key lib s t a none h = absurd (cc)
refresh-session_key lib s t a (some accounts) h =
    let decoded = decode_accounts lib [] accounts in
    same_key lib a.second_visit s t a.built_at a.stored_at decoded
      (find_session lib s.session_key (a.first_visit decoded)) h
  where
    same_key :
        (lib : Decoders) (visit : Decoded → Decoded) (s t : Source) (now later : ℕ)
        (decoded : Decoded) (o : Option FoundSession)
        → refresh_with lib visit s now later decoded o ≡ ok t
        → t.session_key ≡ s.session_key
    same_key lib visit s t now later decoded none h = absurd (cc)
    same_key lib visit s t now later decoded (some f) h = sym (ap (λ x. x.session_key) (ok_same h))

-- What a refresh of another goroutine leaves: the old view, or that of its own answer.
left_by-BackedBy :
    (lib : Decoders) (s : Source) (a : Answer) (r : Result SourceError Source) (w : Bytes) (c : ℕ)
    → IsVisited a
    → refresh lib s a ≡ r
    → looked_up w (left_by s r).snap ≡ some c
    → (looked_up w s.snap ≡ some c) ⊎ BackedBy lib s.session_key a w c
left_by-BackedBy lib s a (err e) w c visited h k = inl k
left_by-BackedBy lib s a (ok t) w c (first, second) h k =
    inr (refresh-Backed lib s t a a.accounts w c first second h k)

left_by-session_key :
    (lib : Decoders) (s : Source) (a : Answer) (r : Result SourceError Source)
    → refresh lib s a ≡ r
    → (left_by s r).session_key ≡ s.session_key
left_by-session_key lib s a (err e) h = refl
left_by-session_key lib s a (ok t) h = refresh-session_key lib s t a a.accounts h

-- After any refreshes: the view of before, or that of one of their answers.
refreshes-BackedBy :
    (lib : Decoders) (s : Source) (answers : List Answer) (w : Bytes) (c : ℕ)
    → ((b : Answer) → Memᴰ b answers → IsVisited b)
    → looked_up w (refreshes lib s answers).snap ≡ some c
    → (looked_up w s.snap ≡ some c)
      ⊎ ((b : Answer) × Memᴰ b answers × BackedBy lib s.session_key b w c)
unfolding refreshes
refreshes-BackedBy lib s [] w c visited h = inl h
refreshes-BackedBy lib s (a ∷ more) w c visited h =
    let r = refresh lib s a in
    elim (refreshes-BackedBy lib (left_by s r) more w c (λ b m. visited b (Memᴰ.tail m)) h) [
      | inl before ↦
          elim (left_by-BackedBy lib s a r w c (visited a (Memᴰ.head refl)) refl before) [
            | inl old ↦ inl old
            | inr backed ↦ inr (a, Memᴰ.head refl, backed)
          ]
      | inr (b, m, backed) ↦ inr (
        b,
        Memᴰ.tail m,
        subst (λ key. BackedBy lib key b w c) (left_by-session_key lib s a r refl) backed,
      )
    ]

-- Whatever the RPC node answers, in whatever order Go visits its map, and whichever refreshes of other
-- goroutines come between VerifyNow's own and its read of the snapshot: if it gives a wallet capabilities,
-- then among the accounts of its own answer, or of the answer to one of those refreshes, are a session of
-- this source's key and a grant of that session for the wallet with these capabilities, of the session's
-- epoch and not expired when that snapshot was built.
pub verify_now-Backed :
    (lib : Decoders) (s t : Source) (a : Answer) (between : List Answer) (w : Bytes) (c : ℕ)
    → ((b : Answer) → Memᴰ b (a ∷ between) → IsVisited b)
    → verify_now lib s a between w ≡ ok (t, some c)
    → (b : Answer) × Memᴰ b (a ∷ between) × BackedBy lib s.session_key b w c
unfolding verify_now
verify_now-Backed lib s t a between w c visited h =
    let (u, refreshed, k) =
      step-ok (refresh lib s a)
        (λ x. ok (refreshes lib x between, looked_up w (refreshes lib x between).snap)) h in
    let view : looked_up w (refreshes lib u between).snap ≡ some c = ap (λ x. x.1) (ok_same k) in
    let (first, second) = visited a (Memᴰ.head refl) in
    elim (refreshes-BackedBy lib u between w c (λ b m. visited b (Memᴰ.tail m)) view) [
      | inl own ↦
          (a, Memᴰ.head refl, refresh-Backed lib s u a a.accounts w c first second refreshed own)
      | inr (b, m, backed) ↦ (
        b,
        Memᴰ.tail m,
        subst (λ key. BackedBy lib key b w c) (refresh-session_key lib s u a a.accounts refreshed)
            backed,
      )
    ]
