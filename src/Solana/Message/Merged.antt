-- ===== src/Solana/Message/Merged.antt =====
-- walletsolana/tx.go: the merged accounts of compileMessage, one for each key, and their four ranks.
use mosey.Base.{Bool, true, false, ◌&&◌, ◌||◌, List, [], ◌∷◌, Bytes, All}
use mosey.Base.{
  bytes_eq, bytes_eq_self, bytes_eq→eq, if◌then◌else◌, ◌≡◌, refl, sym, ap, ◌∙◌, arith, Bool-cases,
  inl, inr, ◌⊎◌,
}
use mosey.Base.{subst, ◌≢◌}
use mathlib.Core.List.{Memᴰ}
use mosey.Solana.Message.{AccountMeta, add_account, add_accounts, same_flag, of_rank}

-- No two accounts have one key.
abbrev pub Apart : Bytes → List AccountMeta → Type 0
Apart k xs = All (λ b. bytes_eq k b.key ≡ false) xs

abbrev pub Unique : List AccountMeta → Type 0
Unique [] = Unit
Unique (a ∷ xs) = Apart a.key xs × Unique xs

-- An account of the key that signs, and is writable, wherever this is asked.
abbrev pub Has : AccountMeta → List AccountMeta → Type 0
Has m xs =
    (a : AccountMeta) × Memᴰ a xs
    × (a.key ≡ m.key)
    × (m.is_signer ≡ true → a.is_signer ≡ true)
    × (m.writable ≡ true → a.writable ≡ true)

abbrev joined : AccountMeta → AccountMeta → AccountMeta
joined a m = record {
  key = a.key;
  is_signer = a.is_signer || m.is_signer;
  writable = a.writable || m.writable;
}

or_left : (a b : Bool) → a ≡ true → (a || b) ≡ true
or_left a b h = ground arith

or_right : (a b : Bool) → b ≡ true → (a || b) ≡ true
or_right a b h = ground arith

Apart-add_account :
    (k : Bytes) (xs : List AccountMeta) (m : AccountMeta)
    → Apart k xs
    → bytes_eq k m.key ≡ false
    → Apart k (add_account xs m)
unfolding add_account
Apart-add_account k [] m apart other = (other, tt)
Apart-add_account k (a ∷ xs) m (first, rest) other = elim (Bool-cases (bytes_eq a.key m.key)) [
  | inl found ↦ rw found (first, rest)
  | inr later ↦ rw later (first, Apart-add_account k xs m rest other)
]

Unique-add_account :
    (xs : List AccountMeta) (m : AccountMeta) → Unique xs → Unique (add_account xs m)
unfolding add_account
Unique-add_account [] m unique = (tt, tt)
Unique-add_account (a ∷ xs) m (first, rest) = elim (Bool-cases (bytes_eq a.key m.key)) [
  | inl found ↦ rw found (first, rest)
  | inr later ↦ rw later (Apart-add_account a.key xs m first later, Unique-add_account xs m rest)
]

pub Unique-add_accounts :
    (ms : List AccountMeta) (xs : List AccountMeta) → Unique xs → Unique (add_accounts xs ms)
unfolding add_accounts
Unique-add_accounts [] xs unique = unique
Unique-add_accounts (m ∷ ms) xs unique =
    Unique-add_accounts ms (add_account xs m) (Unique-add_account xs m unique)

Has-tail : (b m : AccountMeta) (xs : List AccountMeta) → Has m xs → Has m (b ∷ xs)
Has-tail b m xs (a, there, same, signs, writes) = (a, Memᴰ.tail there, same, signs, writes)

add_account-Has : (xs : List AccountMeta) (m : AccountMeta) → Has m (add_account xs m)
unfolding add_account
add_account-Has [] m = (m, Memᴰ.head refl, refl, (λ h. h), λ h. h)
add_account-Has (a ∷ xs) m = elim (Bool-cases (bytes_eq a.key m.key)) [
  | inl found ↦ rw found (
    joined a m,
    Memᴰ.head refl,
    bytes_eq→eq a.key m.key found,
    or_right a.is_signer m.is_signer,
    or_right a.writable m.writable,
  )
  | inr later ↦ rw later (Has-tail a m (add_account xs m) (add_account-Has xs m))
]

Has-add_account : (xs : List AccountMeta) (m n : AccountMeta) → Has m xs → Has m (add_account xs n)
unfolding add_account
Has-add_account [] m n (a, here, _, _, _) = elim here [ ]
Has-add_account (b ∷ xs) m n (a, Memᴰ.head e, same, signs, writes) =
    elim (Bool-cases (bytes_eq b.key n.key)) [
      | inl found ↦ rw found (
        joined b n,
        Memᴰ.head refl,
        sym (ap (λ x. x.key) e) ∙ same,
        (λ h. or_left b.is_signer n.is_signer (subst (λ x. x.is_signer ≡ true) e (signs h))),
        λ h. or_left b.writable n.writable (subst (λ x. x.writable ≡ true) e (writes h)),
      )
      | inr later ↦ rw later (a, Memᴰ.head e, same, signs, writes)
    ]
Has-add_account (b ∷ xs) m n (a, Memᴰ.tail t, same, signs, writes) =
    elim (Bool-cases (bytes_eq b.key n.key)) [
      | inl found ↦ rw found (a, Memᴰ.tail t, same, signs, writes)
      | inr later ↦
          rw later
            (Has-tail b m (add_account xs n) (Has-add_account xs m n (a, t, same, signs, writes)))
    ]

Has-add_accounts :
    (ms : List AccountMeta) (xs : List AccountMeta) (m : AccountMeta)
    → Has m xs
    → Has m (add_accounts xs ms)
unfolding add_accounts
Has-add_accounts [] xs m has = has
Has-add_accounts (n ∷ ms) xs m has =
    Has-add_accounts ms (add_account xs n) m (Has-add_account xs m n has)

-- Every account that is added is there afterwards.
pub add_accounts-Has :
    (ms : List AccountMeta) (xs : List AccountMeta) (m : AccountMeta)
    → Memᴰ m ms
    → Has m (add_accounts xs ms)
unfolding add_accounts
add_accounts-Has [] xs m t = elim t [ ]
add_accounts-Has (n ∷ ms) xs m (Memᴰ.head e) =
    rw e (Has-add_accounts ms (add_account xs n) n (add_account-Has xs n))
add_accounts-Has (n ∷ ms) xs m (Memᴰ.tail t) = add_accounts-Has ms (add_account xs n) m t

-- The first account stays first, as a signer that is writable.
pub add_accounts-first :
    (ms : List AccountMeta) (k : Bytes) (xs : List AccountMeta)
    → (rest : List AccountMeta) × (add_accounts
          (record { key = k; is_signer = true; writable = true } ∷ xs)
          ms
        ≡ record { key = k; is_signer = true; writable = true } ∷ rest)
unfolding add_accounts add_account
add_accounts-first [] k xs = (xs, refl)
add_accounts-first (m ∷ ms) k xs = elim (Bool-cases (bytes_eq k m.key)) [
  | inl found ↦ rw found (add_accounts-first ms k xs)
  | inr later ↦ rw later (add_accounts-first ms k (add_account xs m))
]

same_flag_self : (b : Bool) → same_flag b b ≡ true
same_flag_self true = refl
same_flag_self false = refl

same_flag→eq : (a b : Bool) → same_flag a b ≡ true → a ≡ b
same_flag→eq true b h = sym h
same_flag→eq false true h = absurd (cc)
same_flag→eq false false h = refl

in_either :
    (b : Bool) (x : AccountMeta) {a : AccountMeta} {xs : List AccountMeta}
    → Memᴰ a xs
    → Memᴰ a (if b then x ∷ xs else xs)
in_either true x t = Memᴰ.tail t
in_either false x t = t

-- The accounts of a rank, with the account before it or without.
ranked_one :
    (b : Bool) (x a : AccountMeta) (xs : List AccountMeta)
    → Memᴰ a (if b then x ∷ xs else xs)
    → ((b ≡ true) × (a ≡ x)) ⊎ Memᴰ a xs
ranked_one true x a xs (Memᴰ.head e) = inl (refl, e)
ranked_one true x a xs (Memᴰ.tail t) = inr t
ranked_one false x a xs t = inr t

-- An account is in the rank of its flags, and a rank has only accounts with its flags.
pub of_rank-own :
    (xs : List AccountMeta) (a : AccountMeta)
    → Memᴰ a xs
    → Memᴰ a (of_rank a.is_signer a.writable xs)
unfolding of_rank
of_rank-own [] a t = elim t [ ]
of_rank-own (b ∷ xs) a (Memᴰ.head e) =
    rw (sym e, same_flag_self a.is_signer, same_flag_self a.writable) (Memᴰ.head refl)
of_rank-own (b ∷ xs) a (Memᴰ.tail t) =
    in_either (same_flag b.is_signer a.is_signer && same_flag b.writable a.writable) b
      (of_rank-own xs a t)

pub of_rank_sound :
    (signer writable : Bool) (xs : List AccountMeta) (a : AccountMeta)
    → Memᴰ a (of_rank signer writable xs)
    → Memᴰ a xs × (a.is_signer ≡ signer)
unfolding of_rank
of_rank_sound signer writable [] a t = elim t [ ]
of_rank_sound signer writable (b ∷ xs) a t =
    elim (ranked_one _ b a (of_rank signer writable xs) t) [
      | inl (own, e) ↦
          (Memᴰ.head e, ap (λ x. x.is_signer) e ∙ same_flag→eq b.is_signer signer (ground arith))
      | inr later ↦ (let (u, f) = of_rank_sound signer writable xs a later in (Memᴰ.tail u, f))
    ]

Apart-absent :
    (k : Bytes) (xs : List AccountMeta) (b : AccountMeta) → Apart k xs → Memᴰ b xs → k ≢ b.key
Apart-absent k [] b apart t e = elim t [ ]
Apart-absent k (x ∷ xs) b (first, rest) (Memᴰ.head t) e =
    let same : bytes_eq k x.key ≡ true = rw (e, t) (bytes_eq_self x.key) in cc
Apart-absent k (x ∷ xs) b (first, rest) (Memᴰ.tail t) e = Apart-absent k xs b rest t e

-- Two accounts with one key are one account.
pub Unique-same :
    (xs : List AccountMeta) (a b : AccountMeta)
    → Unique xs
    → Memᴰ a xs
    → Memᴰ b xs
    → a.key ≡ b.key
    → a ≡ b
Unique-same [] a b u s t e = elim s [ ]
Unique-same (x ∷ xs) a b (apart, u) (Memᴰ.head s) (Memᴰ.head t) e = s ∙ sym t
Unique-same (x ∷ xs) a b (apart, u) (Memᴰ.head s) (Memᴰ.tail t) e =
    absurd (Apart-absent x.key xs b apart t (sym (ap (λ y. y.key) s) ∙ e))
Unique-same (x ∷ xs) a b (apart, u) (Memᴰ.tail s) (Memᴰ.head t) e =
    absurd (Apart-absent x.key xs a apart s (sym (ap (λ y. y.key) t) ∙ sym e))
Unique-same (x ∷ xs) a b (apart, u) (Memᴰ.tail s) (Memᴰ.tail t) e = Unique-same xs a b u s t e
