-- ===== src/Solana/Message/Index.antt =====
-- walletsolana/tx.go: the index of compileMessage from keys to places.
use mosey.Base.{
  ℕ, zero, suc, ◌+◌, ◌<◌, Bool, true, false, Option, none, some, List, [], ◌∷◌, ◌++◌, Bytes, map,
  length,
}
use mosey.Base.{bytes_eq, bytes_eq_self, bytes_eq→eq, if◌then◌else◌, ◌≡◌, refl, sym, ap, arith}
use mosey.Base.{inl, inr, ◌⊎◌, some_same}
use mathlib.Core.List.{Memᴰ}
use mosey.Base.Dict.{lookup, insert, lookup-insert}
use mosey.Solana.Message.{AccountMeta}
use mosey.Solana.Message.{index_accounts}

abbrev pub get {ℓ} : {A : Type ℓ} → ℕ → List A → Option A
get i [] = none
get zero (x ∷ xs) = some x
get (suc i) (x ∷ xs) = get i xs

module _ {ℓ} {A : Type ℓ} where
  pub get-Memᴰ : (i : ℕ) (xs : List A) (x : A) → get i xs ≡ some x → Memᴰ x xs
  get-Memᴰ i [] x h = absurd (cc)
  get-Memᴰ zero (y ∷ xs) x h = Memᴰ.head (sym (some_same h))
  get-Memᴰ (suc i) (y ∷ xs) x h = Memᴰ.tail (get-Memᴰ i xs x h)

  -- A place in two lists one behind the other.
  pub get-append :
      (i : ℕ) (xs ys : List A) (x : A) → get i (xs ++ ys) ≡ some x → (i < length xs) ⊎ Memᴰ x ys
  get-append i [] ys x h = inr (get-Memᴰ i ys x h)
  get-append zero (y ∷ xs) ys x h = inl (omega arith)
  get-append (suc i) (y ∷ xs) ys x h = elim (get-append i xs ys x h) [
    | inl low ↦ inl (omega arith)
    | inr later ↦ inr later
  ]

pub get-map :
    (i : ℕ) (xs : List AccountMeta) (a : AccountMeta)
    → get i xs ≡ some a
    → get i (map (λ x. x.key) xs) ≡ some a.key
get-map i [] a h = absurd (cc)
get-map zero (x ∷ xs) a h = ap (λ y. some y.key) (some_same h)
get-map (suc i) (x ∷ xs) a h = get-map i xs a h

-- A place of the index is known from before, or it is that of an account with the key.
abbrev pub Indexed : ℕ → List (Bytes × ℕ) → List AccountMeta → Bytes → ℕ → Type 0
Indexed i index xs k j =
    (lookup bytes_eq k index ≡ some j)
    ⊎ ((d : ℕ) × (a : AccountMeta) × (j ≡ i + d) × (get d xs ≡ some a) × (a.key ≡ k))

lookup_put :
    (k j : Bytes) (v : ℕ) (m : List (Bytes × ℕ))
    → lookup bytes_eq j (insert bytes_eq k v m)
      ≡ (if bytes_eq k j then some v else lookup bytes_eq j m)
lookup_put = lookup-insert bytes_eq bytes_eq_self bytes_eq→eq

put_cases :
    (b : Bool) (v j : ℕ) (o : Option ℕ)
    → (if b then some v else o) ≡ some j
    → ((b ≡ true) × (v ≡ j)) ⊎ (o ≡ some j)
put_cases true v j o h = inl (refl, some_same h)
put_cases false v j o h = inr h

pub index_accounts-Indexed :
    (xs : List AccountMeta) (i : ℕ) (index : List (Bytes × ℕ)) (k : Bytes) (j : ℕ)
    → lookup bytes_eq k (index_accounts i index xs) ≡ some j
    → Indexed i index xs k j
unfolding index_accounts
index_accounts-Indexed [] i index k j h = inl h
index_accounts-Indexed (a ∷ xs) i index k j h = elim (index_accounts-Indexed xs (i + 1) _ k j h) [
  | inl before ↦
      let h1 : (if bytes_eq a.key k then some i else lookup bytes_eq k index) ≡ some j =
        rw (lookup_put a.key k i index) at before in
      elim (put_cases (bytes_eq a.key k) i j (lookup bytes_eq k index) h1) [
        | inl (same, e) ↦ inr (0, a, omega (arith, e), refl, bytes_eq→eq a.key k same)
        | inr known ↦ inl known
      ]
  | inr (d, b, e, there, same) ↦ inr (suc d, b, omega (arith, e), there, same)
]

abbrev pub Known : Bytes → List (Bytes × ℕ) → Type 0
Known k index = (j : ℕ) × (lookup bytes_eq k index ≡ some j)

known_if :
    (b : Bool) (v j : ℕ) (o : Option ℕ)
    → o ≡ some j
    → (d : ℕ) × ((if b then some v else o) ≡ some d)
known_if true v j o h = (v, refl)
known_if false v j o h = (j, h)

put-Known :
    (a k : Bytes) (i : ℕ) (index : List (Bytes × ℕ))
    → Known k index
    → Known k (insert bytes_eq a i index)
put-Known a k i index (j, h) = rw (lookup_put a k i index) (known_if (bytes_eq a k) i j _ h)

Known-index_accounts :
    (xs : List AccountMeta) (i : ℕ) (index : List (Bytes × ℕ)) (k : Bytes)
    → Known k index
    → Known k (index_accounts i index xs)
unfolding index_accounts
Known-index_accounts [] i index k known = known
Known-index_accounts (a ∷ xs) i index k known =
    Known-index_accounts xs (i + 1) _ k (put-Known a.key k i index known)

pub index_accounts-Known :
    (xs : List AccountMeta) (i : ℕ) (index : List (Bytes × ℕ)) (a : AccountMeta)
    → Memᴰ a xs
    → Known a.key (index_accounts i index xs)
unfolding index_accounts
index_accounts-Known [] i index a t = elim t [ ]
index_accounts-Known (x ∷ xs) i index a (Memᴰ.head e) =
    Known-index_accounts xs (i + 1) (insert bytes_eq x.key i index) a.key
      (i, rw (lookup_put x.key a.key i index, e, bytes_eq_self x.key) refl)
index_accounts-Known (x ∷ xs) i index a (Memᴰ.tail t) = index_accounts-Known xs (i + 1) _ a t
