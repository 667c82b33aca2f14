-- ===== src/Wallet/Fold/Attenuates.antt =====
-- wallet/delegation.go: however long the chain, what Fold gives is within what the root holds.
use mosey.Base.{ℕ, ◌<◌, ◌≡◌, ◌≢◌, refl, subst, arith, Bool, true, false, some}
use mosey.Base.{List, [], Bytes, bytes_eq, length, ◌==◌, Result, ok, err}
use mosey.Base.{unless-ok, step-ok, ok_same, Result-cases, inl, inr, All}
use mosey.Base.{codes, Ensures, step-Ensures, unless-Ensures}
use mosey.Wallet.Text.{split}
use mosey.Wallet.Caps.{subset, parse_caps, parse_caps_iff}
use mosey.Wallet.Attenuation.{subset_trans}
use mosey.Wallet.Delegation.{Library, Fields, Delegation, ContentError, verify, parse_fields}
use mosey.Wallet.Delegation.{key32, field, lift_caps, parse_content, delegation_fields}
use mosey.Wallet.Delegation.{
  sized_bytes, parse_time, nonce_size, public_key_size, signature_size, bad_key, bad_signature,
  line, line_count, bad_header, bad_blank, content_header, lift_content,
}
use mosey.Wallet.Fold.{Snapshot, fold}
use mosey.Wallet.Fold.Chains.{Signed, Confers, Rooted, owner_root, granted_root, none_left, signed}
use mosey.Wallet.Fold.Chains.{to_leaf, onward}
use mosey.Wallet.Fold.Accepts.{root_of, fold_iff}

lift_caps-lt : (s : Bytes) (c : ℕ) → lift_caps (parse_caps s) ≡ ok c → c < 8
lift_caps-lt s c e = elim (Result-cases (parse_caps s)) [
  | inl (x, bad) ↦ absurd (ground (arith, bad))
  | inr (d, good) ↦ ground (arith, good, (parse_caps_iff s d).0 good)
]

-- A text names only the three capabilities.
abbrev Small : Fields → Type 0
Small f = f.caps < 8

parse_fields-Small : (lib : Library) (lines : List Bytes) → Ensures Small (parse_fields lib lines)
unfolding parse_fields
parse_fields-Small lib lines = step-Ensures Small (key32 lines 2 (codes "session")) _ (λ a _.
    step-Ensures Small (key32 lines 3 (codes "delegator")) _ (λ b _.
      step-Ensures Small (key32 lines 4 (codes "delegate")) _ (λ c _.
        step-Ensures Small (field lines 5 (codes "caps")) _ (λ t _.
          step-Ensures Small (lift_caps (parse_caps t)) _ (λ k e.
            step-Ensures Small (field lines 6 (codes "not-before")) _ (λ u _.
              step-Ensures Small (parse_time lib u) _ (λ v _.
                step-Ensures Small (field lines 7 (codes "not-after")) _ (λ w _.
                  step-Ensures Small (parse_time lib w) _ (λ x _.
                    step-Ensures Small (field lines 8 (codes "nonce")) _ (λ y _.
                      step-Ensures Small (sized_bytes nonce_size y) _
                        (λ z _. lift_caps-lt t k e)))))))))))

verify-Small : (lib : Library) (d : Delegation) (f : Fields) → verify lib d ≡ ok f → f.caps < 8
unfolding verify parse_content
verify-Small lib d f e =
    let (g, q, p) = step-ok (delegation_fields lib d) _ e in
    let (_, p1) = unless-ok (length g.delegator == public_key_size) bad_key _ p in
    let (_, p2) = unless-ok (length d.signature == signature_size) bad_signature _ p1 in
    let (_, p3) =
      unless-ok (lib.ed25519_verify g.delegator d.content d.signature) bad_signature (ok g) p2 in
    subst Small (ok_same p3) (parsed (parse_content lib d.content) g lines q)
  where
    lines : Ensures Small (parse_content lib d.content)
    lines =
        let ls = split (codes "\n") d.content in
        unless-Ensures Small (length ls == 9) (line_count (length ls)) _ (
          unless-Ensures Small (bytes_eq (line 0 ls) content_header) bad_header _ (
            unless-Ensures Small (bytes_eq (line 1 ls) []) bad_blank _ (parse_fields-Small lib ls)))

    parsed :
        (r : Result ContentError Fields) (g : Fields)
        → Ensures Small r
        → lift_content r ≡ ok g
        → g.caps < 8
    parsed (err x) g s q = absurd (cc)
    parsed (ok h) g s q = subst Small (ok_same q) s

Signed-Small :
    {lib : Library} {session : Bytes} {now : ℕ} {ds : List Delegation} {fs : List Fields}
    → Signed lib session now ds fs
    → All Small fs
Signed-Small none_left = tt
Signed-Small (signed d f v s b a rest) = (verify-Small _ d f v, Signed-Small rest)

Confers-Small :
    {leaf : Bytes} {held granted : ℕ} {fs : List Fields}
    → Confers leaf held fs granted
    → All Small fs
    → granted < 8
Confers-Small (to_leaf f s e) small = small.0
Confers-Small (onward f g s h e c) small = Confers-Small c small.1

Confers-subset :
    {leaf : Bytes} {held granted : ℕ} {fs : List Fields}
    → Confers leaf held fs granted
    → All Small fs
    → held < 256
    → subset granted held ≡ true
Confers-subset (to_leaf f s e) small lt = s
Confers-subset (onward f g s h e c) small lt =
    subset_trans _ f.caps _ (Confers-Small c small.1) small.0 lt
      (Confers-subset c small.1 (omega (arith, small.0))) s

from_grant :
    (snap : Snapshot) (root : Bytes) (held granted : ℕ) (own : Bool)
    → ((w : Bytes) (c : ℕ) → snap.grant_caps w ≡ some c → c < 256)
    → Rooted snap root held own
    → own ≡ false
    → (held < 256 → subset granted held ≡ true)
    → (r : Bytes) × (c : ℕ) × (snap.grant_caps r ≡ some c)
      × (r ≢ snap.owner)
      × (subset granted c ≡ true)
from_grant snap root held granted own uint8 (owner_root e) f within = absurd (cc)
from_grant snap root held granted own uint8 (granted_root n g) f within =
    (root, held, g, n, within (uint8 root held g))

-- A chain that is not rooted at the owner is rooted at a wallet that the snapshot grants something,
-- and what Fold gives is within that grant, where grants are uint8: no capability is gained on the way.
pub fold_attenuates :
    (lib : Library) (chain : List Delegation) (leaf session : Bytes) (snap : Snapshot)
    (now granted : ℕ)
    → ((w : Bytes) (c : ℕ) → snap.grant_caps w ≡ some c → c < 256)
    → fold lib chain leaf session snap now ≡ ok (granted, false)
    → (root : Bytes) × (c : ℕ) × (snap.grant_caps root ≡ some c)
      × (root ≢ snap.owner)
      × (subset granted c ≡ true)
fold_attenuates lib chain leaf session snap now granted uint8 e =
    let a = (fold_iff lib chain leaf session snap now granted false).0 e in
    let small = Signed-Small a.hops in
    from_grant snap (root_of a.fields) a.held granted false uint8 a.rooted refl
      (Confers-subset a.confers small)
