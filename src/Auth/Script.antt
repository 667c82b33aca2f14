-- ===== src/Auth/Script.antt =====
-- A handshake of auth/ as a script over its stream: each write is answered by whether it succeeded, each
-- read by a message, or by `none` where it failed. The random source is read before and is an argument.
use mosey.Base.{Bool, true, false, Option, none, some, List, [], ◌∷◌, Result, err, ok, ◌≡◌, refl}

pub data Script {ℓ} (M E A : Type ℓ) : Type ℓ where
  done : Result E A → Script M E A
  send : M → (Bool → Script M E A) → Script M E A
  receive : (Option M → Script M E A) → Script M E A

module _ {ℓ} {M E A : Type ℓ} where
  -- `if err := write(m); err != nil { return e }`, then what follows.
  abbrev pub after_write : E → Script M E A → Bool → Script M E A
  after_write e next true = next
  after_write e next false = done (err e)

  abbrev pub write : M → E → Script M E A → Script M E A
  write m e next = send m (after_write e next)

  -- `if err := read(&m); err != nil { return e }`, then what follows.
  abbrev pub after_read : E → (M → Script M E A) → Option M → Script M E A
  after_read e next none = done (err e)
  after_read e next (some m) = next m

  abbrev pub read : E → (M → Script M E A) → Script M E A
  read e next = receive (after_read e next)

  -- `if !b { return e }`, then what follows.
  abbrev pub guard : Bool → E → Script M E A → Script M E A
  guard false e next = done (err e)
  guard true e next = next

  -- A script against any peer: what its writes are answered, and what its reads get. Where the answers
  -- end the stream is broken.
  abbrev pub run : Script M E A → List Bool → List (Option M) → Result E A
  run (done r) ws rs = r
  run (send m k) [] rs = run (k false) [] rs
  run (send m k) (w ∷ ws) rs = run (k w) ws rs
  run (receive k) ws [] = run (k none) ws []
  run (receive k) ws (r ∷ rs) = run (k r) ws rs

  -- What it has written when it returns.
  abbrev pub sent_by : Script M E A → List Bool → List (Option M) → List M
  sent_by (done r) ws rs = []
  sent_by (send m k) [] rs = sent_by (k false) [] rs
  sent_by (send m k) (false ∷ ws) rs = sent_by (k false) ws rs
  sent_by (send m k) (true ∷ ws) rs = m ∷ sent_by (k true) ws rs
  sent_by (receive k) ws [] = sent_by (k none) ws []
  sent_by (receive k) ws (r ∷ rs) = sent_by (k r) ws rs

  -- What a success says of each step before it.
  pub guard-ok :
      (b : Bool) (e : E) (next : Script M E A) (ws : List Bool) (rs : List (Option M)) {x : A}
      → run (guard b e next) ws rs ≡ ok x
      → (b ≡ true) × (run next ws rs ≡ ok x)
  guard-ok false e next ws rs h = absurd (cc)
  guard-ok true e next ws rs h = (refl, h)

  pub write-ok :
      (m : M) (e : E) (next : Script M E A) (ws : List Bool) (rs : List (Option M)) {x : A}
      → run (write m e next) ws rs ≡ ok x
      → (vs : List Bool) × (ws ≡ true ∷ vs) × (run next vs rs ≡ ok x)
  write-ok m e next [] rs h = absurd (cc)
  write-ok m e next (false ∷ ws) rs h = absurd (cc)
  write-ok m e next (true ∷ ws) rs h = (ws, refl, h)

  pub read-ok :
      (e : E) (next : M → Script M E A) (ws : List Bool) (rs : List (Option M)) {x : A}
      → run (read e next) ws rs ≡ ok x
      → (m : M) × (qs : List (Option M)) × (rs ≡ some m ∷ qs) × (run (next m) ws qs ≡ ok x)
  read-ok e next ws [] h = absurd (cc)
  read-ok e next ws (none ∷ rs) h = absurd (cc)
  read-ok e next ws (some m ∷ rs) h = (m, rs, refl, h)

module _ {ℓ} {M E A F B : Type ℓ} where
  -- Two scripts at the ends of one unbuffered stream; `none` where they do not return together.
  unfoldable pub talk : Script M E A → Script M F B → Option (Result E A × Result F B)
  talk (done r) (done q) = some (r, q)
  talk (done r) (send n j) = none
  talk (done r) (receive j) = none
  talk (send m k) (done r) = none
  talk (receive k) (done r) = none
  talk (send m k) (send n j) = none
  talk (receive k) (receive j) = none
  talk (send m k) (receive j) = talk (k true) (j (some m))
  talk (receive k) (send m j) = talk (k (some m)) (j true)
