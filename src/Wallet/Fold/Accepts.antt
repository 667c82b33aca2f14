-- ===== src/Wallet/Fold/Accepts.antt =====
-- wallet/delegation.go: Fold accepts exactly the chains that are authorized, and gives what they confer.
use mosey.Base.{ℕ, ◌≤◌, ◌≡◌, ◌≢◌, ◌↔◌, refl, sym, ◌∙◌, ap, subst, arith, Bool, true, false}
use mosey.Base.{none, List, [], ◌∷◌, Bytes, bytes_eq, bytes_eq→eq, bytes_eq_self, length}
use mosey.Base.{ltb, ◌==◌, Result, ok, err, ◌>>=◌, unless, not, inl, inr}
use mosey.Base.{Bool-cases, Option-cases, unless-ok, step-ok, ok_same}
use mosey.Wallet.Caps.{all_caps}
use mosey.Wallet.Delegation.{Library, Fields, Delegation, WalletError, max_chain_depth}
use mosey.Wallet.Delegation.{empty_chain, chain_too_long, broken_link, leaf_mismatch}
use mosey.Wallet.Delegation.{forge_required, unknown_root}
use mosey.Wallet.Fold.{conferred, from_root}
use mosey.Wallet.Fold.{Snapshot, admit_hops, linked, last_hop, root_caps, attenuate}
use mosey.Wallet.Fold.{forges, fold_fields, fold_hops, fold}
use mosey.Wallet.Fold.Chains.{Signed, Confers, Rooted, owner_root, granted_root, none_left, signed}
use mosey.Wallet.Fold.Chains.{to_leaf, onward, accepted, Confers-Checks, Signed-hops, hops-Signed}

abbrev pub root_of : List Fields → Bytes
root_of [] = []
root_of (f ∷ fs) = f.delegator

-- The chain is of a length that is allowed, signed and live hop by hop, starts at a root that the
-- snapshot knows, and confers `granted` on the leaf.
pub record Authorized (lib : Library) (chain : List Delegation) (leaf session : Bytes)
    (snap : Snapshot) (now granted : ℕ) (own : Bool) : Type 0 where
  pub fields : List Fields
  pub held : ℕ
  pub short : length chain ≤ max_chain_depth
  pub hops : Signed lib session now chain fields
  pub rooted : Rooted snap (root_of fields) held own
  pub confers : Confers leaf held fields granted

not_granted :
    (root : Bytes) (snap : Snapshot) (c : ℕ) (own : Bool)
    → bytes_eq root snap.owner ≡ false
    → snap.grant_caps root ≡ none
    → root_caps snap root ≢ ok (c, own)
unfolding root_caps
not_granted root snap c own isnt gone e =
    let q : ◌≡◌ {A = Result WalletError (ℕ × Bool)} (err unknown_root) (ok (c, own)) =
      rw (isnt, gone) at e in
    cc

root-Rooted :
    (snap : Snapshot) (root : Bytes) (c : ℕ) (own : Bool)
    → root_caps snap root ≡ ok (c, own)
    → Rooted snap root c own
unfolding root_caps
root-Rooted snap root c own e = elim (Bool-cases (bytes_eq root snap.owner)) [
  | inl is ↦
      let q : ◌≡◌ {A = Result WalletError (ℕ × Bool)} (ok (all_caps, true)) (ok (c, own)) =
        rw is at e in
      subst (λ p. Rooted snap root p.0 p.1) (ok_same q)
        (owner_root (bytes_eq→eq root snap.owner is))
  | inr isnt ↦ elim (Option-cases (snap.grant_caps root)) [
    | inl gone ↦ absurd (not_granted root snap c own isnt gone e)
    | inr (k, there) ↦
        let q : ◌≡◌ {A = Result WalletError (ℕ × Bool)} (ok (k, false)) (ok (c, own)) =
          rw (isnt, there) at e in
        subst (λ p. Rooted snap root p.0 p.1) (ok_same q)
          (granted_root (λ same. let t = ap (bytes_eq root) (sym same) ∙ bytes_eq_self root in cc)
            there)
  ]
]

Rooted-root :
    {snap : Snapshot} {root : Bytes} {c : ℕ} {own : Bool}
    → Rooted snap root c own
    → root_caps snap root ≡ ok (c, own)
unfolding root_caps
Rooted-root {snap} (owner_root e) = rw (e, bytes_eq_self snap.owner)
Rooted-root {snap} {root} (granted_root n g) = elim (Bool-cases (bytes_eq root snap.owner)) [
  | inl is ↦ absurd (n (bytes_eq→eq root snap.owner is))
  | inr isnt ↦ rw (isnt, g)
]

from_root_fields :
    (leaf : Bytes) (snap : Snapshot) (f : Fields) (fs : List Fields) (held : ℕ) (own' : Bool)
    (granted : ℕ) (own : Bool)
    → linked f fs ≡ true
    → bytes_eq (last_hop f fs).delegate leaf ≡ true
    → root_caps snap f.delegator ≡ ok (held, own')
    → from_root f fs (held, own') ≡ ok (granted, own)
    → (k : ℕ) × Rooted snap f.delegator k own × Confers leaf k (f ∷ fs) granted
from_root_fields leaf snap f fs held own' granted own l m t u =
    let (eff, a, v) = step-ok (attenuate held (f ∷ fs)) (conferred held own' f fs) u in
    let (g, w) = unless-ok (forges held f fs) forge_required (ok (eff, own')) v in
    let r = root-Rooted snap f.delegator held own' t in
    let c = accepted leaf held f fs eff l m a g in
    subst (λ p. (k : ℕ) × Rooted snap f.delegator k p.1 × Confers leaf k (f ∷ fs) p.0) (ok_same w)
      (held, r, c)

from_fields :
    (leaf : Bytes) (snap : Snapshot) (fs : List Fields) (granted : ℕ) (own : Bool)
    → fold_hops leaf snap fs ≡ ok (granted, own)
    → (held : ℕ) × Rooted snap (root_of fs) held own × Confers leaf held fs granted
unfolding fold_fields
from_fields leaf snap [] granted own e = absurd (cc)
from_fields leaf snap (f ∷ fs) granted own e =
    let (l, p) =
      unless-ok (linked f fs) broken_link
        (unless (bytes_eq (last_hop f fs).delegate leaf) leaf_mismatch
          (root_caps snap f.delegator >>= from_root f fs))
        e in
    let (m, q) =
      unless-ok (bytes_eq (last_hop f fs).delegate leaf) leaf_mismatch
        (root_caps snap f.delegator >>= from_root f fs) p in
    let (r, t, u) = step-ok (root_caps snap f.delegator) (from_root f fs) q in
    from_root_fields leaf snap f fs r.0 r.1 granted own l m t u

to_fields :
    (leaf : Bytes) (snap : Snapshot) (fs : List Fields) (held granted : ℕ) (own : Bool)
    → Rooted snap (root_of fs) held own
    → Confers leaf held fs granted
    → fold_hops leaf snap fs ≡ ok (granted, own)
unfolding fold_fields
to_fields leaf snap [] held granted own r c = absurd (Confers-Checks c)
to_fields leaf snap (f ∷ fs) held granted own r c =
    let k = Confers-Checks c in rw (k.links, k.leaves, Rooted-root r, k.narrows, k.may_forge)

Confers-cons :
    {leaf : Bytes} {held granted : ℕ} {fs : List Fields} → Confers leaf held fs granted → fs ≢ []
Confers-cons (to_leaf f s e) q = cc
Confers-cons (onward f g s h e c) q = cc

not_empty :
    {lib : Library} {session : Bytes} {now : ℕ} {ds : List Delegation} {fs : List Fields}
    → Signed lib session now ds fs
    → fs ≢ []
    → not (length ds == 0) ≡ true
not_empty none_left ne = absurd (ne refl)
not_empty (signed {ds = ds} d f v s b a rest) ne = ground arith

fold-Authorized :
    (lib : Library) (chain : List Delegation) (leaf session : Bytes) (snap : Snapshot)
    (now granted : ℕ) (own : Bool)
    → fold lib chain leaf session snap now ≡ ok (granted, own)
    → Authorized lib chain leaf session snap now granted own
unfolding fold
fold-Authorized lib chain leaf session snap now granted own e =
    let rest = admit_hops lib session now chain >>= fold_hops leaf snap in
    let (ne, p) =
      unless-ok (not (length chain == 0)) empty_chain
        (unless (not (ltb max_chain_depth (length chain))) chain_too_long rest) e in
    let (fits, q) = unless-ok (not (ltb max_chain_depth (length chain))) chain_too_long rest p in
    let (fs, h, t) = step-ok (admit_hops lib session now chain) (fold_hops leaf snap) q in
    let (held, r, c) = from_fields leaf snap fs granted own t in
    record {
      fields = fs;
      held = held;
      short = ground arith;
      hops = Signed-hops lib session now chain fs h;
      rooted = r;
      confers = c;
    }

Authorized-fold :
    (lib : Library) (chain : List Delegation) (leaf session : Bytes) (snap : Snapshot)
    (now granted : ℕ) (own : Bool)
    → Authorized lib chain leaf session snap now granted own
    → fold lib chain leaf session snap now ≡ ok (granted, own)
unfolding fold
Authorized-fold lib chain leaf session snap now granted own a =
    let fits : not (ltb max_chain_depth (length chain)) ≡ true = ground (arith, a.short) in
    let some_hop : not (length chain == 0) ≡ true = not_empty a.hops (Confers-cons a.confers) in
    rw (some_hop, fits, hops-Signed a.hops)
      (to_fields leaf snap a.fields a.held granted own a.rooted a.confers)

-- Fold accepts a chain, with what it grants and whether its root is the owner, exactly if the chain has
-- one to eight hops, each verified, for the session and live now; its root is the owner, holding all, or
-- has a grant; no hop grants more than its delegator holds; every delegator but the last may forge;
-- and each delegate is the next delegator, the last one the key of the connection.
pub fold_iff :
    (lib : Library) (chain : List Delegation) (leaf session : Bytes) (snap : Snapshot)
    (now granted : ℕ) (own : Bool)
    → (fold lib chain leaf session snap now ≡ ok (granted, own))
      ↔ Authorized lib chain leaf session snap now granted own
fold_iff lib chain leaf session snap now granted own = (
  fold-Authorized lib chain leaf session snap now granted own,
  Authorized-fold lib chain leaf session snap now granted own,
)
