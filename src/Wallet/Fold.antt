-- ===== src/Wallet/Fold.antt =====
-- wallet/delegation.go: Fold, which gives the capabilities that a chain of delegations confers.
pub mod Chains
pub mod Accepts
pub mod Attenuates
use mosey.Base.{ℕ, suc, Bool, true, false, ◌&&◌, Option, none, some, List, [], ◌∷◌, Bytes, bytes_eq}
use mosey.Base.{length, ltb, ◌==◌, if◌then◌else◌, Result, ok, err, ◌>>=◌, unless, not}
use mosey.Wallet.Caps.{has, subset, all_caps, cap_forge}
use mosey.Wallet.Delegation.{Library, Fields, Delegation, WalletError, verify, max_chain_depth}
use mosey.Wallet.Delegation.{empty_chain, chain_too_long, broken_link, leaf_mismatch, attenuation}
use mosey.Wallet.Delegation.{not_yet_valid, expired, wrong_session, unknown_root, forge_required}

-- wallet.Snapshot
pub record Snapshot : Type 0 where
  pub owner : Bytes
  pub grant_caps : Bytes → Option ℕ

-- MemSnapshot, and WithGrant
abbrev pub mem_snapshot : Bytes → Snapshot
mem_snapshot owner = record { owner = owner; grant_caps = λ w. none }

abbrev pub with_grant : Snapshot → Bytes → ℕ → Snapshot
with_grant s wallet caps = record s {
  grant_caps = λ w. if bytes_eq w wallet then some caps else s.grant_caps w;
}

-- One round of the first loop, behind the signature and from it on.
abbrev pub live_hop : Bytes → ℕ → Fields → Result WalletError Fields
live_hop session now f = unless (bytes_eq session f.session_id) wrong_session (
    unless (not (ltb now f.not_before)) not_yet_valid
      (unless (not (ltb f.not_after now)) expired (ok f)))

unfoldable pub admit_hop : Library → Bytes → ℕ → Delegation → Result WalletError Fields
admit_hop lib session now d = verify lib d >>= live_hop session now

unfoldable pub admit_hops : Library → Bytes → ℕ → List Delegation → Result WalletError (List Fields)
admit_hops lib session now [] = ok []
admit_hops lib session now (d ∷ ds) =
    admit_hop lib session now d >>= λ f. admit_hops lib session now ds >>= λ fs. ok (f ∷ fs)

-- The loop over the links.
unfoldable pub linked : Fields → List Fields → Bool
linked f [] = true
linked f (g ∷ gs) = bytes_eq f.delegate g.delegator && linked g gs

unfoldable pub last_hop : Fields → List Fields → Fields
last_hop f [] = f
last_hop f (g ∷ gs) = last_hop g gs

-- The root's capabilities, and whether it is the owner.
unfoldable pub root_caps : Snapshot → Bytes → Result WalletError (ℕ × Bool)
root_caps snap root =
    if bytes_eq root snap.owner
    then ok (all_caps, true)
    else elim (snap.grant_caps root) [ none ↦ err unknown_root | some c ↦ ok (c, false) ]

-- The loop over the capabilities: none may be wider than the one before.
unfoldable pub attenuate : ℕ → List Fields → Result WalletError ℕ
attenuate effective [] = ok effective
attenuate effective (f ∷ fs) = unless (subset f.caps effective) attenuation (attenuate f.caps fs)

-- The last loop: `held` is what the delegator of the first hop holds.
unfoldable pub forges : ℕ → Fields → List Fields → Bool
forges held f [] = true
forges held f (g ∷ gs) = has held cap_forge && forges f.caps g gs

-- The last check, and the results.
abbrev pub conferred : ℕ → Bool → Fields → List Fields → ℕ → Result WalletError (ℕ × Bool)
conferred held own f fs effective = unless (forges held f fs) forge_required (ok (effective, own))

abbrev pub from_root : Fields → List Fields → ℕ × Bool → Result WalletError (ℕ × Bool)
from_root f fs (held, own) = attenuate held (f ∷ fs) >>= conferred held own f fs

-- Fold behind its first loop.
unfoldable pub fold_fields : Bytes → Snapshot → Fields → List Fields → Result WalletError (ℕ × Bool)
fold_fields leaf snap f fs = unless (linked f fs) broken_link (
    unless (bytes_eq (last_hop f fs).delegate leaf) leaf_mismatch
      (root_caps snap f.delegator >>= from_root f fs))

-- A chain that is not empty has a first hop.
abbrev pub fold_hops : Bytes → Snapshot → List Fields → Result WalletError (ℕ × Bool)
fold_hops leaf snap [] = err empty_chain
fold_hops leaf snap (f ∷ fs) = fold_fields leaf snap f fs

-- Fold
unfoldable pub fold :
    Library → List Delegation → Bytes → Bytes → Snapshot → ℕ → Result WalletError (ℕ × Bool)
fold lib chain leaf session snap now = unless (not (length chain == 0)) empty_chain (
    unless (not (ltb max_chain_depth (length chain))) chain_too_long
      (admit_hops lib session now chain >>= fold_hops leaf snap))
