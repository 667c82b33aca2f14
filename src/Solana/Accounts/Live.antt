-- ===== src/Solana/Accounts/Live.antt =====
-- walletsolana/snapshot.go: a snapshot grants what a live grant says, and every live grantee something.
use mosey.Base.{some_same}
use mosey.Base.{
  ℕ, Bool, true, false, Option, some, List, [], ◌∷◌, Bytes, bytes_eq, bytes_eq_self, bytes_eq→eq,
}
use mosey.Base.{if◌then◌else◌, ◌≡◌, refl, ◌⊎◌, inl, inr}
use mosey.Base.{◌≢◌}
use mathlib.Core.List.{Memᴰ}
use mosey.Base.Dict.{lookup, insert, lookup-insert}
use mosey.Solana.Accounts.{Session, Grant, is_live, add_grants, build_snapshot, as_snapshot}

-- A live grant of the wallet for the capabilities is among those given.
abbrev pub Granted : Session → ℕ → List Grant → Bytes → ℕ → Type 0
Granted s now gs w c =
    (g : Grant) × Memᴰ g gs × (is_live s now g ≡ true) × (g.grantee ≡ w) × (g.caps ≡ c)

lookup_put :
    (k j : Bytes) (v : ℕ) (m : List (Bytes × ℕ))
    → lookup bytes_eq j (insert bytes_eq k v m)
      ≡ (if bytes_eq k j then some v else lookup bytes_eq j m)
lookup_put = lookup-insert bytes_eq bytes_eq_self bytes_eq→eq

lookup_nil : (w : Bytes) (c : ℕ) → lookup {V = ℕ} bytes_eq w [] ≢ some c
unfolding lookup
lookup_nil w c e = cc

pick :
    (b : Bool) (v c : ℕ) (o : Option ℕ)
    → o ≡ some c
    → (d : ℕ) × ((if b then some v else o) ≡ some d)
pick true v c o h = (v, refl)
pick false v c o h = (c, h)

add_one :
    (b e : Bool) (k w : Bytes) (v c : ℕ) (m : List (Bytes × ℕ))
    → bytes_eq k w ≡ e
    → lookup bytes_eq w (if b then insert bytes_eq k v m else m) ≡ some c
    → (lookup bytes_eq w m ≡ some c) ⊎ ((b ≡ true) × (k ≡ w) × (v ≡ c))
add_one false e k w v c m q h = inl h
add_one true true k w v c m q h =
    let h1 : (if bytes_eq k w then some v else lookup bytes_eq w m) ≡ some c =
      rw (lookup_put k w v m) at h in
    let h2 : some v ≡ some c = rw q at h1 in inr (refl, bytes_eq→eq k w q, some_same h2)
add_one true false k w v c m q h =
    let h1 : (if bytes_eq k w then some v else lookup bytes_eq w m) ≡ some c =
      rw (lookup_put k w v m) at h in
    let h2 : lookup bytes_eq w m ≡ some c = rw q at h1 in inl h2

add_grants-Granted :
    (s : Session) (now : ℕ) (gs : List Grant) (known : List (Bytes × ℕ)) (w : Bytes) (c : ℕ)
    → lookup bytes_eq w (add_grants s now known gs) ≡ some c
    → (lookup bytes_eq w known ≡ some c) ⊎ Granted s now gs w c
unfolding add_grants
add_grants-Granted s now [] known w c h = inl h
add_grants-Granted s now (g ∷ gs) known w c h = elim (add_grants-Granted s now gs _ w c h) [
  | inl before ↦ elim (add_one (is_live s now g) _ g.grantee w g.caps c known refl before) [
    | inl known_one ↦ inl known_one
    | inr (live, who, what) ↦ inr (g, Memᴰ.head refl, live, who, what)
  ]
  | inr (k, m, live, who, what) ↦ inr (k, Memᴰ.tail m, live, who, what)
]

-- Something is known of a wallet; later grants keep it so.
abbrev Known : Bytes → List (Bytes × ℕ) → Type 0
Known w m = (c : ℕ) × (lookup bytes_eq w m ≡ some c)

put-Known :
    (k w : Bytes) (v : ℕ) (m : List (Bytes × ℕ)) → Known w m → Known w (insert bytes_eq k v m)
put-Known k w v m (c, h) = rw (lookup_put k w v m) (pick (bytes_eq k w) v c (lookup bytes_eq w m) h)

add-Known :
    (b : Bool) (k w : Bytes) (v : ℕ) (m : List (Bytes × ℕ))
    → Known w m
    → Known w (if b then insert bytes_eq k v m else m)
add-Known true k w v m known = put-Known k w v m known
add-Known false k w v m known = known

add_grants-Known :
    (s : Session) (now : ℕ) (gs : List Grant) (known : List (Bytes × ℕ)) (w : Bytes)
    → Known w known
    → Known w (add_grants s now known gs)
unfolding add_grants
add_grants-Known s now [] known w k = k
add_grants-Known s now (g ∷ gs) known w k =
    add_grants-Known s now gs _ w (add-Known (is_live s now g) g.grantee w g.caps known k)

add_live-Known :
    (s : Session) (now : ℕ) (g : Grant) (gs : List Grant) (known : List (Bytes × ℕ))
    → Memᴰ g gs
    → is_live s now g ≡ true
    → Known g.grantee (add_grants s now known gs)
unfolding add_grants
add_live-Known s now g [] known m live = elim m [ ]
add_live-Known s now g (f ∷ gs) known (Memᴰ.head e) live = rw⁻¹ e (
    rw live (
      add_grants-Known s now gs _ g.grantee
        (g.caps, rw (lookup_put g.grantee g.grantee g.caps known, bytes_eq_self g.grantee) refl)))
add_live-Known s now g (f ∷ gs) known (Memᴰ.tail m) live = add_live-Known s now g gs _ m live

-- What the snapshot built for a session at a time grants a wallet is what some live grant of that wallet
-- says, of the session's epoch and not expired; and every wallet with a live grant is granted something.
pub build_snapshot-Granted :
    (s : Session) (gs : List Grant) (now : ℕ) (w : Bytes)
    → ((c : ℕ)
        → (as_snapshot (build_snapshot s gs now)).grant_caps w ≡ some c
        → Granted s now gs w c)
      × ((g : Grant)
          → Memᴰ g gs
          → is_live s now g ≡ true
          → g.grantee ≡ w
          → (c : ℕ) × ((as_snapshot (build_snapshot s gs now)).grant_caps w ≡ some c))
unfolding as_snapshot build_snapshot
build_snapshot-Granted s gs now w = (
  (λ c h. elim (add_grants-Granted s now gs [] w c h) [
    | inl none_known ↦ absurd (lookup_nil w c none_known)
    | inr granted ↦ granted
  ]),
  λ g m live who. rw⁻¹ who (add_live-Known s now g gs [] m live),
)
