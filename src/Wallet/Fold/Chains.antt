-- ===== src/Wallet/Fold/Chains.antt =====
-- wallet/delegation.go: Fold against a description of the chains that it is to accept.
use mosey.Base.{ℕ, ◌≤◌, ◌≡◌, ◌≢◌, refl, sym, ◌∙◌, ap, subst, arith, Bool, true, false, ◌&&◌}
use mosey.Base.{some, List, [], ◌∷◌, Bytes, bytes_eq, bytes_eq→eq, bytes_eq_self}
use mosey.Base.{ltb, ok, ◌>>=◌, unless, not}
use mosey.Wallet.Caps.{has, subset, all_caps, cap_forge}
use mosey.Wallet.Delegation.{Library, Fields, Delegation, verify}
use mosey.Wallet.Delegation.{attenuation, wrong_session, not_yet_valid, expired}
use mosey.Wallet.Fold.{live_hop}
use mosey.Base.{unless-ok, step-ok, ok_same}
use mosey.Wallet.Fold.{Snapshot, admit_hop, admit_hops, linked, last_hop, attenuate}
use mosey.Wallet.Fold.{forges}

-- The delegations are signed and live now, for the session, with these fields.
pub data Signed (lib : Library) (session : Bytes) (now : ℕ)
    : List Delegation → List Fields → Type 0 where
  none_left : Signed lib session now [] []
  signed :
      {ds : List Delegation} {fs : List Fields} (d : Delegation) (f : Fields)
      → verify lib d ≡ ok f
      → f.session_id ≡ session
      → f.not_before ≤ now
      → now ≤ f.not_after
      → Signed lib session now ds fs
      → Signed lib session now (d ∷ ds) (f ∷ fs)

-- A chain confers `granted` on `leaf`, where the delegator of its first hop holds `held`: no hop grants
-- more than its delegator holds, who may forge unless the hop is the last, and each delegate is the
-- next delegator.
pub data Confers (leaf : Bytes) : ℕ → List Fields → ℕ → Type 0 where
  to_leaf :
      {held : ℕ} (f : Fields)
      → subset f.caps held ≡ true
      → f.delegate ≡ leaf
      → Confers leaf held (f ∷ []) f.caps
  onward :
      {held granted : ℕ} {gs : List Fields} (f g : Fields)
      → subset f.caps held ≡ true
      → has held cap_forge ≡ true
      → f.delegate ≡ g.delegator
      → Confers leaf f.caps (g ∷ gs) granted
      → Confers leaf held (f ∷ g ∷ gs) granted

-- What the snapshot says of a root: the owner holds all, another one what it was granted.
pub data Rooted (snap : Snapshot) (root : Bytes) : ℕ → Bool → Type 0 where
  owner_root : root ≡ snap.owner → Rooted snap root all_caps true
  granted_root :
      {c : ℕ} → root ≢ snap.owner → snap.grant_caps root ≡ some c → Rooted snap root c false

both : (a b : Bool) → (a && b) ≡ true → (a ≡ true) × (b ≡ true)
both true b e = (refl, e)
both false b e = absurd (cc)

-- The checks of the three loops, for chains whose first loop has passed.
pub accepted :
    (leaf : Bytes) (held : ℕ) (f : Fields) (fs : List Fields) (granted : ℕ)
    → linked f fs ≡ true
    → bytes_eq (last_hop f fs).delegate leaf ≡ true
    → attenuate held (f ∷ fs) ≡ ok granted
    → forges held f fs ≡ true
    → Confers leaf held (f ∷ fs) granted
unfolding linked last_hop attenuate forges
accepted leaf held f [] granted l e a g =
    let (s, q) = unless-ok (subset f.caps held) attenuation (attenuate f.caps []) a in
    subst (Confers leaf held (f ∷ [])) (ok_same q) (to_leaf f s (bytes_eq→eq f.delegate leaf e))
accepted leaf held f (h ∷ hs) granted l e a g =
    let (link, links) = both (bytes_eq f.delegate h.delegator) (linked h hs) l in
    let (s, q) = unless-ok (subset f.caps held) attenuation (attenuate f.caps (h ∷ hs)) a in
    let (forge, forging) = both (has held cap_forge) (forges f.caps h hs) g in
    onward f h s forge (bytes_eq→eq f.delegate h.delegator link)
      (accepted leaf f.caps h hs granted links e q forging)

-- The checks, read off an accepted chain.
pub record Checks (leaf : Bytes) (held : ℕ) (f : Fields) (fs : List Fields) (granted : ℕ)
    : Type 0 where
  pub links : linked f fs ≡ true
  pub leaves : bytes_eq (last_hop f fs).delegate leaf ≡ true
  pub narrows : attenuate held (f ∷ fs) ≡ ok granted
  pub may_forge : forges held f fs ≡ true

checked_last :
    (leaf : Bytes) (held : ℕ) (f : Fields)
    → subset f.caps held ≡ true
    → f.delegate ≡ leaf
    → Checks leaf held f [] f.caps
unfolding linked last_hop attenuate forges
checked_last leaf held f s e = record {
  links = refl;
  leaves = rw e (bytes_eq_self leaf);
  narrows = rw s;
  may_forge = refl;
}

checked_more :
    (leaf : Bytes) (held : ℕ) (f g : Fields) (gs : List Fields) (granted : ℕ)
    → subset f.caps held ≡ true
    → has held cap_forge ≡ true
    → f.delegate ≡ g.delegator
    → Checks leaf f.caps g gs granted
    → Checks leaf held f (g ∷ gs) granted
unfolding linked last_hop attenuate forges
checked_more leaf held f g gs granted s h e c = record {
  links = rw (e, bytes_eq_self g.delegator) c.links;
  leaves = c.leaves;
  narrows = rw s c.narrows;
  may_forge = rw h c.may_forge;
}

-- A chain that confers something is not empty.
abbrev pub Passes : Bytes → ℕ → List Fields → ℕ → Type 0
Passes leaf held [] granted = ⊥
Passes leaf held (f ∷ fs) granted = Checks leaf held f fs granted

pub Confers-Checks :
    {leaf : Bytes} {held granted : ℕ} {fs : List Fields}
    → Confers leaf held fs granted
    → Passes leaf held fs granted
Confers-Checks {leaf} {held} (to_leaf f s e) = checked_last leaf held f s e
Confers-Checks {leaf} {held} {granted} (onward {gs = gs} f g s h e c) =
    checked_more leaf held f g gs granted s h e (Confers-Checks c)

-- One hop that the first loop takes.
record Taken (lib : Library) (session : Bytes) (now : ℕ) (d : Delegation) (f : Fields)
    : Type 0 where
  verified : verify lib d ≡ ok f
  scoped : f.session_id ≡ session
  begun : f.not_before ≤ now
  lasting : now ≤ f.not_after

hop-Taken :
    (lib : Library) (session : Bytes) (now : ℕ) (d : Delegation) (f : Fields)
    → admit_hop lib session now d ≡ ok f
    → Taken lib session now d f
unfolding admit_hop
hop-Taken lib session now d f e =
    let (g, v, p) = step-ok (verify lib d) (live_hop session now) e in
    let (s, q) =
      unless-ok (bytes_eq session g.session_id) wrong_session
        (unless (not (ltb now g.not_before)) not_yet_valid
          (unless (not (ltb g.not_after now)) expired (ok g)))
        p in
    let (b, r) =
      unless-ok (not (ltb now g.not_before)) not_yet_valid
        (unless (not (ltb g.not_after now)) expired (ok g)) q in
    let (a, t) = unless-ok (not (ltb g.not_after now)) expired (ok g) r in
    subst (Taken lib session now d) (ok_same t) (record {
      verified = v;
      scoped = sym (bytes_eq→eq session g.session_id s);
      begun = ground arith;
      lasting = ground arith;
    })

Taken-hop :
    (lib : Library) (session : Bytes) (now : ℕ) (d : Delegation) (f : Fields)
    → Taken lib session now d f
    → admit_hop lib session now d ≡ ok f
unfolding admit_hop
Taken-hop lib session now d f t =
    ap (λ m. m >>= live_hop session now) t.verified
    ∙ ground (arith, t.begun, t.lasting, ap (bytes_eq session) t.scoped, bytes_eq_self session)

pub Signed-hops :
    (lib : Library) (session : Bytes) (now : ℕ) (ds : List Delegation) (fs : List Fields)
    → admit_hops lib session now ds ≡ ok fs
    → Signed lib session now ds fs
unfolding admit_hops admit_hop
Signed-hops lib session now [] fs e = subst (Signed lib session now []) (ok_same e) none_left
Signed-hops lib session now (d ∷ ds) fs e =
    let (f, h, p) =
      step-ok (admit_hop lib session now d)
        (λ f. admit_hops lib session now ds >>= λ fs. ok (f ∷ fs)) e in
    let (gs, k, q) = step-ok (admit_hops lib session now ds) (λ fs. ok (f ∷ fs)) p in
    let t = hop-Taken lib session now d f h in
    subst (Signed lib session now (d ∷ ds)) (ok_same q)
      (signed d f t.verified t.scoped t.begun t.lasting (Signed-hops lib session now ds gs k))

pub hops-Signed :
    {lib : Library} {session : Bytes} {now : ℕ} {ds : List Delegation} {fs : List Fields}
    → Signed lib session now ds fs
    → admit_hops lib session now ds ≡ ok fs
unfolding admit_hops admit_hop
hops-Signed none_left = refl
hops-Signed (signed d f v s b a rest) = rw (
  Taken-hop _ _ _ d f (record { verified = v; scoped = s; begun = b; lasting = a }),
  hops-Signed rest,
)
