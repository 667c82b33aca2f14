-- ===== src/Auth/Wallets/Admission.antt =====
-- auth/wallet.go: whom the wallet handshake lets in.
use mosey.Base.{ℕ, ◌≡◌, inl, inr, refl, sym, ◌∙◌, ap, Bool, true, false, ◌&&◌, Option, none, some}
use mosey.Base.{List, Bytes, length, ◌==◌, Result, ok, err, unless-ok, step-ok}
use mosey.Base.{ok_same, Bool-cases, Option-cases}
use mosey.Auth.Identity.{PeerIdentity}
use mosey.Base.{◌↔◌, ==_iff, subst, [], ◌∷◌}
use mosey.Wallet.Caps.{has, all_caps, cap_write, cap_resize}
use mosey.Wallet.Base58.{base58_encode}
use mosey.Wallet.Delegation.{Fields, ContentError, parse_content, lift_content, delegation_fields}
use mosey.Wallet.Delegation.{Library, Delegation, WalletError, public_key_size}
use mosey.Wallet.Fold.{Snapshot, fold}
use mosey.Wallet.Fold.Accepts.{Authorized, fold_iff}
use mosey.Auth.Wallets.{Answers, Exchange, HandshakeError, WalletHello, Resolved, resolved, overlay}
use mosey.Auth.Wallets.{no_hello, no_nonce, challenge_unsent, no_proof, bad_proof}
use mosey.Auth.Wallets.{
  bad_pubkey, bad_nonce, wallet_transcript, wallet_client_label, or_err, refuse,
}
use mosey.Auth.Wallets.{
  wallet_identity, server_handshake, greet, challenge, check_proof, chain_root,
}
use mosey.Auth.Wallets.{resolve_caps, with_snapshot, or_on_miss, verify_on_miss, is_unknown_root}
use mosey.Auth.Wallets.{wallet_nonce_size, unauthorized}

-- The view that a chain was authorized under, and when: a fresh snapshot, or that snapshot with what the
-- source said of the root when asked at once.
pub data Consulted (a : Answers) : Snapshot → ℕ → Type 0 where
  cached : {snap : Snapshot} → a.snapshot ≡ some (snap, true) → Consulted a snap a.now
  asked :
      {snap : Snapshot} {root : Bytes} {gc : ℕ}
      → a.snapshot ≡ some (snap, true)
      → a.verify_now root ≡ some gc
      → Consulted a (overlay snap root gc) a.later

-- A chain begins with a delegation of this delegator.
abbrev pub BeginsWith : Library → List Delegation → Bytes → Type 0
BeginsWith lib chain root =
    (d : Delegation) × (rest : List Delegation) × (f : Fields) × (chain ≡ d ∷ rest)
    × (parse_content lib d.content ≡ ok f)
    × (f.delegator ≡ root)

-- Why the peer is let in.
pub record Admitted (lib : Library) (session : Bytes) (a : Answers) (x : Exchange)
    (who : PeerIdentity) : Type 0 where
  pub hello : WalletHello
  pub nonce_s : Bytes
  pub sig : Bytes
  pub said : x.hello ≡ some hello
  pub drawn : x.nonce_s ≡ some nonce_s
  pub signed : x.client_sig ≡ some sig
  pub proved :
      lib.ed25519_verify hello.client_pubkey
        (wallet_transcript wallet_client_label nonce_s hello.nonce_c session)
        sig
      ≡ true
  pub snap : Snapshot
  pub time : ℕ
  pub consulted : Consulted a snap time
  pub result : Resolved
  pub authorized :
      Authorized lib hello.chain hello.client_pubkey session snap time result.caps result.own
  pub begins : BeginsWith lib hello.chain result.root
  pub label : who.label ≡ base58_encode result.root
  pub write : who.caps.write ≡ has result.caps cap_write
  pub resize : who.caps.resize ≡ has result.caps cap_resize
  pub owner : (who.caps.owner ≡ true) ↔ ((result.own ≡ true) × (result.caps ≡ all_caps))

or_err-ok :
    {A : Type 0} (e : HandshakeError) (o : Option A) {x : A} → or_err e o ≡ ok x → o ≡ some x
or_err-ok e none p = absurd (cc)
or_err-ok e (some y) p = ap some (ok_same p)

lift_content-ok : (r : Result ContentError Fields) (f : Fields) → lift_content r ≡ ok f → r ≡ ok f
lift_content-ok (err e) f h = absurd (cc)
lift_content-ok (ok g) f h = ap ok (ok_same h)

chain_root-BeginsWith :
    (lib : Library) (chain : List Delegation) (root : Bytes)
    → chain_root lib chain ≡ ok root
    → BeginsWith lib chain root
unfolding chain_root
chain_root-BeginsWith lib [] root h = absurd (cc)
chain_root-BeginsWith lib (d ∷ ds) root h =
    let (f, parsed, named) = step-ok (delegation_fields lib d) (λ g. ok g.delegator) h in
    (d, ds, f, refl, lift_content-ok (parse_content lib d.content) f parsed, ok_same named)

refuse-ok : (m : Result WalletError Bytes) (x : Bytes) → refuse m ≡ ok x → m ≡ ok x
refuse-ok (err e) x h = absurd (cc)
refuse-ok (ok y) x h = ap ok (ok_same h)

owner_iff :
    (own : Bool) (caps : ℕ)
    → ((own && caps == all_caps) ≡ true) ↔ ((own ≡ true) × (caps ≡ all_caps))
owner_iff true caps = ((λ h. (refl, (==_iff caps all_caps).0 h)), λ p. (==_iff caps all_caps).1 p.1)
owner_iff false caps = ((λ h. absurd (cc)), λ p. absurd (let h = p.0 in cc))

-- The part about the chain.
record Granted (lib : Library) (session : Bytes) (chain : List Delegation) (conn : Bytes)
    (a : Answers) (root : Bytes) (r : Resolved) : Type 0 where
  same_root : r.root ≡ root
  snap : Snapshot
  time : ℕ
  consulted : Consulted a snap time
  authorized : Authorized lib chain conn session snap time r.caps r.own

resolved-ok :
    (root : Bytes) (m : Result WalletError (ℕ × Bool)) (r : Resolved)
    → resolved root m ≡ ok r
    → (m ≡ ok (r.caps, r.own)) × (r.root ≡ root)
resolved-ok root (err e) r p = absurd (cc)
resolved-ok root (ok (caps, own)) r p =
    (ap (λ s. ok (s.caps, s.own)) (ok_same p), sym (ap (λ s. s.root) (ok_same p)))

missed :
    (lib : Library) (session : Bytes) (chain : List Delegation) (conn : Bytes) (a : Answers)
    (snap : Snapshot) (root : Bytes) (e : WalletError) (r : Resolved)
    → a.snapshot ≡ some (snap, true)
    → verify_on_miss lib session chain conn a snap root e ≡ ok r
    → Granted lib session chain conn a root r
unfolding verify_on_miss
missed lib session chain conn a snap root e r s p =
    elim (Bool-cases (is_unknown_root e && a.allowed)) [
      | inl y ↦ elim (Option-cases (a.verify_now root)) [
        | inl gone ↦
            let q : ◌≡◌ {A = Result HandshakeError Resolved} (err (unauthorized e)) (ok r) =
              rw (y, gone) at p in
            absurd (cc)
        | inr (gc, there) ↦
            let q : resolved root (fold lib chain conn session (overlay snap root gc) a.later)
                ≡ ok r =
              rw (y, there) at p in
            let (folded, named) =
              resolved-ok root (fold lib chain conn session (overlay snap root gc) a.later) r q in
            record {
              same_root = named;
              snap = overlay snap root gc;
              time = a.later;
              consulted = asked s there;
              authorized =
                  (fold_iff lib chain conn session (overlay snap root gc) a.later r.caps r.own).0
                    folded;
            }
      ]
      | inr n ↦
          let q : ◌≡◌ {A = Result HandshakeError Resolved} (err (unauthorized e)) (ok r) =
            rw n at p in
          absurd (cc)
    ]

found_or_missed :
    (lib : Library) (session : Bytes) (chain : List Delegation) (conn : Bytes) (a : Answers)
    (snap : Snapshot) (root : Bytes) (m : Result WalletError (ℕ × Bool)) (r : Resolved)
    → a.snapshot ≡ some (snap, true)
    → fold lib chain conn session snap a.now ≡ m
    → or_on_miss lib session chain conn a snap root m ≡ ok r
    → Granted lib session chain conn a root r
found_or_missed lib session chain conn a snap root (err e) r s f p =
    missed lib session chain conn a snap root e r s p
found_or_missed lib session chain conn a snap root (ok q) r s f p = record {
  same_root = (resolved-ok root (ok q) r p).1;
  snap = snap;
  time = a.now;
  consulted = cached s;
  authorized =
      (fold_iff lib chain conn session snap a.now r.caps r.own).0
        (f ∙ (resolved-ok root (ok q) r p).0);
}

with_snapshot-Granted :
    (lib : Library) (session : Bytes) (chain : List Delegation) (conn : Bytes) (a : Answers)
    (root : Bytes) (o : Option (Snapshot × Bool)) (r : Resolved)
    → a.snapshot ≡ o
    → with_snapshot lib session chain conn a root o ≡ ok r
    → Granted lib session chain conn a root r
with_snapshot-Granted lib session chain conn a root none r s p = absurd (cc)
with_snapshot-Granted lib session chain conn a root (some (snap, false)) r s p = absurd (cc)
with_snapshot-Granted lib session chain conn a root (some (snap, true)) r s p =
    found_or_missed lib session chain conn a snap root (fold lib chain conn session snap a.now) r s
      refl p

-- A peer that the handshake lets in has signed the fresh challenge with the key that it presented, and its
-- chain is authorized for that key and this session, under a snapshot that was fresh, or that one with a
-- grant of the root just verified. The label of its identity is the address of the delegator of the
-- chain's first delegation, it may write and resize as the authorized capabilities say, and it is an owner
-- exactly with all capabilities from the owner.
pub server_handshake-Admitted :
    (lib : Library) (session : Bytes) (a : Answers) (x : Exchange) (who : PeerIdentity)
    → server_handshake lib session a x ≡ ok who
    → Admitted lib session a x who
unfolding server_handshake resolve_caps
server_handshake-Admitted lib session a x who p =
    let (hello, h, p1) = step-ok (or_err no_hello x.hello) (greet lib session a x) p in
    let (_, p2) =
      unless-ok (length hello.client_pubkey == public_key_size)
        (bad_pubkey (length hello.client_pubkey)) _ p1 in
    let (_, p3) =
      unless-ok (length hello.nonce_c == wallet_nonce_size) (bad_nonce (length hello.nonce_c)) _
        p2 in
    let (nonce_s, n, p4) =
      step-ok (or_err no_nonce x.nonce_s) (challenge lib session a x hello) p3 in
    let (_, p5) = unless-ok x.challenge_sent challenge_unsent _ p4 in
    let (sig, s, p6) =
      step-ok (or_err no_proof x.client_sig) (check_proof lib session a hello nonce_s) p5 in
    let (v, p7) =
      unless-ok
        (lib.ed25519_verify hello.client_pubkey
          (wallet_transcript wallet_client_label nonce_s hello.nonce_c session) sig)
        bad_proof _ p6 in
    let (r, q, p8) =
      step-ok (resolve_caps lib session hello.chain hello.client_pubkey a)
        (λ t. ok (wallet_identity t)) p7 in
    let (root, begun, q1) = step-ok (refuse (chain_root lib hello.chain)) _ q in
    let g =
      with_snapshot-Granted lib session hello.chain hello.client_pubkey a root a.snapshot r refl
        q1 in
    record {
      hello = hello;
      nonce_s = nonce_s;
      sig = sig;
      said = or_err-ok no_hello x.hello h;
      drawn = or_err-ok no_nonce x.nonce_s n;
      signed = or_err-ok no_proof x.client_sig s;
      proved = v;
      snap = g.snap;
      time = g.time;
      consulted = g.consulted;
      result = r;
      authorized = g.authorized;
      begins = subst (BeginsWith lib hello.chain) (sym g.same_root) (
          chain_root-BeginsWith lib hello.chain root
            (refuse-ok (chain_root lib hello.chain) root begun));
      label = sym (ap (λ i. i.label) (ok_same p8));
      write = sym (ap (λ i. i.caps.write) (ok_same p8));
      resize = sym (ap (λ i. i.caps.resize) (ok_same p8));
      owner =
          subst (λ i. (i.caps.owner ≡ true) ↔ ((r.own ≡ true) × (r.caps ≡ all_caps))) (ok_same p8)
            (owner_iff r.own r.caps);
    }
