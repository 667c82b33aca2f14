-- ===== src/Vterm/Session/Registry.antt =====
-- vterm/session.go: predicates on the clients of a registry, and how its operations carry them.
use mosey.Base.{ℕ, ◌+◌, ◌≤◌, ◌≡◌, ◌≢◌, refl, arith, inl, inr, List, [], ◌∷◌}
use mosey.Base.{subst}
use mosey.Base.{none, some, Bool-cases, map, length, All, ◌==◌}
use mosey.Vterm.Session.{SessionClient, client_by_id, put_client, delete_client, update_client}

pub All-put_client :
    (P : SessionClient → Type 0) (c : SessionClient) (cs : List SessionClient)
    → P c
    → All P cs
    → All P (put_client c cs)
unfolding put_client
All-put_client P c [] p a = (p, tt)
All-put_client P c (d ∷ ds) p a = elim (Bool-cases (d.id == c.id)) [
  | inl e ↦ rw e (p, a.1)
  | inr n ↦ rw n (a.0, All-put_client P c ds p a.1)
]

pub All-delete_client :
    (P : SessionClient → Type 0) (id : ℕ) (cs : List SessionClient)
    → All P cs
    → All P (delete_client id cs)
unfolding delete_client
All-delete_client P id [] a = a
All-delete_client P id (c ∷ cs) a = elim (Bool-cases (c.id == id)) [
  | inl e ↦ rw e (All-delete_client P id cs a.1)
  | inr n ↦ rw n (a.0, All-delete_client P id cs a.1)
]

pub All-map :
    (P Q : SessionClient → Type 0) (f : SessionClient → SessionClient) (cs : List SessionClient)
    → ((c : SessionClient) → P c → Q (f c))
    → All P cs
    → All Q (map f cs)
All-map P Q f [] h a = tt
All-map P Q f (c ∷ cs) h a = (h c a.0, All-map P Q f cs h a.1)

pub All-imp :
    (P Q : SessionClient → Type 0) (cs : List SessionClient)
    → ((c : SessionClient) → P c → Q c)
    → All P cs
    → All Q cs
All-imp P Q [] h a = tt
All-imp P Q (c ∷ cs) h a = (h c a.0, All-imp P Q cs h a.1)

pub All-zip :
    (P Q R : SessionClient → Type 0) (cs : List SessionClient)
    → ((c : SessionClient) → P c → Q c → R c)
    → All P cs
    → All Q cs
    → All R cs
All-zip P Q R [] h a b = tt
All-zip P Q R (c ∷ cs) h a b = (h c a.0 b.0, All-zip P Q R cs h a.1 b.1)

-- A change of the client `id` is to be justified for it, and the others need nothing but what they had.
pub All-update_client :
    (P Q : SessionClient → Type 0) (id : ℕ) (f : SessionClient → SessionClient)
    (cs : List SessionClient)
    → ((c : SessionClient) → P c → c.id ≡ id → Q (f c))
    → ((c : SessionClient) → P c → c.id ≢ id → Q c)
    → All P cs
    → All Q (update_client id f cs)
unfolding update_client
All-update_client P Q id f [] hit miss a = tt
All-update_client P Q id f (c ∷ cs) hit miss a = elim (Bool-cases (c.id == id)) [
  | inl e ↦ rw e (hit c a.0 (ground arith), All-update_client P Q id f cs hit miss a.1)
  | inr n ↦ rw n (miss c a.0 (ground arith), All-update_client P Q id f cs hit miss a.1)
]

pub client_by_id-none :
    (id : ℕ) (cs : List SessionClient) → client_by_id id cs ≡ none → All (λ c. c.id ≢ id) cs
unfolding client_by_id
client_by_id-none id [] e = tt
client_by_id-none id (c ∷ cs) e = (ground arith, client_by_id-none id cs (ground arith))

pub client_by_id-some :
    (id : ℕ) (cs : List SessionClient) (c : SessionClient) → client_by_id id cs ≡ some c → c.id ≡ id
unfolding client_by_id
client_by_id-some id [] c e = cc
client_by_id-some id (d ∷ ds) c e = ground (arith, client_by_id-some id ds c)

pub length-put_client :
    (c : SessionClient) (cs : List SessionClient) → length (put_client c cs) ≤ length cs + 1
unfolding put_client
length-put_client c [] = omega arith
length-put_client c (d ∷ ds) = ground (arith, length-put_client c ds)

pub length-delete_client :
    (id : ℕ) (cs : List SessionClient) → length (delete_client id cs) ≤ length cs
unfolding delete_client
length-delete_client id [] = omega arith
length-delete_client id (c ∷ cs) = ground (arith, length-delete_client id cs)

pub length-update_client :
    (id : ℕ) (f : SessionClient → SessionClient) (cs : List SessionClient)
    → length (update_client id f cs) ≡ length cs
unfolding update_client
length-update_client id f [] = refl
length-update_client id f (c ∷ cs) = omega (arith, length-update_client id f cs)

pub client_by_id-All :
    (P : SessionClient → Type 0) (id : ℕ) (cs : List SessionClient) (c : SessionClient)
    → client_by_id id cs ≡ some c
    → All P cs
    → P c
unfolding client_by_id
client_by_id-All P id [] c e a = absurd (cc)
client_by_id-All P id (d ∷ ds) c e a = elim (Bool-cases (d.id == id)) [
  | inl hit ↦ subst P (ground arith) a.0
  | inr miss ↦ client_by_id-All P id ds c (ground arith) a.1
]
