-- ===== src/Base/Dict.antt =====
-- Go maps as association lists, with one entry for each key. The key's `==` is a parameter.
use mathlib.Core.Path.{◌≡◌, refl}
use mathlib.Core.Bool.{Bool, true}
use mathlib.Core.Option.{Option, none, some}
use mathlib.Core.List.{List, [], ◌∷◌}
use native.Mathlib.Omega.{arith}
use mosey.Base.Tests.{if◌then◌else◌}

module _ {ℓ κ} {K : Type ℓ} {V : Type κ} (beq : K → K → Bool) where
  unfoldable pub lookup : K → List (K × V) → Option V
  lookup k [] = none
  lookup k ((j, v) ∷ m) = if beq j k then some v else lookup k m

  unfoldable pub insert : K → V → List (K × V) → List (K × V)
  insert k v [] = (k, v) ∷ []
  insert k v ((j, w) ∷ m) = if beq j k then (k, v) ∷ m else (j, w) ∷ insert k v m

  unfoldable pub erase : K → List (K × V) → List (K × V)
  erase k [] = []
  erase k ((j, w) ∷ m) = if beq j k then erase k m else (j, w) ∷ erase k m

-- The laws, for an `==` that decides equality.
module _ {ℓ κ} {K : Type ℓ} {V : Type κ} (beq : K → K → Bool) (beq_self : (k : K) → beq k k ≡ true)
    (beq→eq : (j k : K) → beq j k ≡ true → j ≡ k) where
  pub lookup-insert :
      (k j : K) (v : V) (m : List (K × V))
      → lookup beq j (insert beq k v m) ≡ (if beq k j then some v else lookup beq j m)
  unfolding lookup insert
  lookup-insert k j v [] = refl
  lookup-insert k j v ((i, w) ∷ m) =
      ground (arith, beq→eq i k, beq→eq i j, beq→eq k j, beq_self j, lookup-insert k j v m)

  pub lookup-erase :
      (k j : K) (m : List (K × V))
      → lookup beq j (erase beq k m) ≡ (if beq k j then none else lookup beq j m)
  unfolding lookup erase
  lookup-erase k j [] = ground arith
  lookup-erase k j ((i, w) ∷ m) =
      ground (arith, beq→eq i k, beq→eq i j, beq→eq k j, beq_self j, lookup-erase k j m)
