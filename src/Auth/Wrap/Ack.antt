-- ===== src/Auth/Wrap/Ack.antt =====
-- auth/wrap.go: the acknowledgement that ends a handshake.
use mosey.Base.{
  ℕ, Bool, true, false, Option, none, some, List, [], ◌∷◌, ◌==◌, ==_iff, if◌then◌else◌,
}
use mosey.Base.{Result, err, ok, ok_same, ◌≡◌, refl, ap}
use mosey.Base.{◌≢◌, ◌++◌, map}
use mosey.Auth.Wrap.{lead}
use mosey.Auth.Script.{Script, done, send, receive, run, talk}
use mosey.Auth.Wrap.{Frame, DialError}
use mosey.Auth.Wrap.{
  as_message, over, expect_ack, await_ack, dial_script, acknowledge, serve_script, ack_ok,
}

module _ {E A F B : Type 0} where
  some_pair_left :
      {r r' : Result E A} {q q' : Result F B}
      → ◌≡◌ {A = Option (Result E A × Result F B)} (some (r, q)) (some (r', q'))
      → r ≡ r'
  some_pair_left {r = r} e = ap (λ o. elim o [ none ↦ r | some p ↦ p.0 ]) e

  some_pair_right :
      {r r' : Result E A} {q q' : Result F B}
      → ◌≡◌ {A = Option (Result E A × Result F B)} (some (r, q)) (some (r', q'))
      → q ≡ q'
  some_pair_right {q = q} e = ap (λ o. elim o [ none ↦ q | some p ↦ p.1 ]) e

module _ {M E A F B : Type 0} where
  ack_talk :
      (first_byte : M → ℕ) (r : Result E A) (q : Result F B) {i : A} {j : B}
      → r ≡ ok i
      → q ≡ ok j
      → talk (await_ack first_byte r) (acknowledge q) ≡ some (ok i, ok j)
  unfolding talk
  ack_talk first_byte r q p s = rw (p, s) refl

  talk-over :
      (first_byte : M → ℕ) (c : Script M E A) (s : Script M F B) {i : A} {j : B}
      → talk c s ≡ some (ok i, ok j)
      → talk (over c (await_ack first_byte)) (over s acknowledge) ≡ some (ok i, ok j)
  unfolding talk
  talk-over fb (done r) (done q) h = ack_talk fb r q (some_pair_left h) (some_pair_right h)
  talk-over fb (done r) (send n j) h = absurd (cc)
  talk-over fb (done r) (receive j) h = absurd (cc)
  talk-over fb (send m k) (done r) h = absurd (cc)
  talk-over fb (receive k) (done r) h = absurd (cc)
  talk-over fb (send m k) (send n j) h = absurd (cc)
  talk-over fb (receive k) (receive j) h = absurd (cc)
  talk-over fb (send m k) (receive j) h = talk-over fb (k true) (j (some m)) h
  talk-over fb (receive k) (send m j) h = talk-over fb (k (some m)) (j true) h

  -- Wherever the handshakes of the two sides return identities together, Dial and the handler of Serve
  -- end with them too: the acknowledgement is written, and read as such.
  pub dial-serve :
      (first_byte : M → ℕ) (c : Script M E A) (s : Script M F B) {i : A} {j : B}
      → talk c s ≡ some (ok i, ok j)
      → talk (dial_script first_byte c) (serve_script s) ≡ some (ok i, ok j)
  unfolding dial_script serve_script
  dial-serve first_byte c s h = talk-over first_byte c s h

nil-ne-append :
    {A : Type 0} (xs : List A) (y : A) (ys : List A) → ◌≢◌ {A = List A} [] (xs ++ y ∷ ys)
nil-ne-append [] y ys e = cc
nil-ne-append (x ∷ xs) y ys e = cc

module _ {M E A : Type 0} (first_byte : M → ℕ) where
  -- The reads `rs` of a dialer split into those of its handshake, which succeeds on them, and a frame
  -- that begins with the acknowledgement.
  abbrev pub Acknowledged : Script M E A → List Bool → List (Option (Frame M)) → A → Type 0
  Acknowledged c ws rs i =
      (before rest : List (Option (Frame M))) × (f : Frame M) × (rs ≡ before ++ some f ∷ rest)
      × (lead first_byte f ≡ ack_ok)
      × (run c ws (map as_message before) ≡ ok i)

  if_done-ok :
      (b : Bool) (a : A) (e : DialError E) (ws : List Bool) (rs : List (Option (Frame M))) {i : A}
      → run (if b then done (ok a) else done (err e)) ws rs ≡ ok i
      → (b ≡ true) × (a ≡ i)
  if_done-ok true a e ws rs h = (refl, ok_same h)
  if_done-ok false a e ws rs h = absurd (cc)

  expect_ack-ok :
      (a : A) (ws : List Bool) (r : Option (Frame M)) (rs : List (Option (Frame M))) {i : A}
      → run (expect_ack {E = E} first_byte a r) ws rs ≡ ok i
      → (f : Frame M) × (r ≡ some f) × (lead first_byte f ≡ ack_ok) × (a ≡ i)
  expect_ack-ok a ws none rs h = absurd (cc)
  expect_ack-ok a ws (some f) rs h =
      let (leads, same) = if_done-ok (lead first_byte f == ack_ok) a _ ws rs h in
      (f, refl, (==_iff _ _).0 leads, same)

  over-Acknowledged :
      (c : Script M E A) (ws : List Bool) (rs : List (Option (Frame M))) {i : A}
      → run (over c (await_ack first_byte)) ws rs ≡ ok i
      → Acknowledged c ws rs i
  over-Acknowledged (done (err e)) ws rs h = absurd (cc)
  over-Acknowledged (done (ok a)) ws [] h = absurd (cc)
  over-Acknowledged (done (ok a)) ws (r ∷ rs) h =
      let (f, is, leads, same) = expect_ack-ok a ws r rs h in
      ([], rs, f, ap (λ x. x ∷ rs) is, leads, ap ok same)
  over-Acknowledged (send m k) [] rs h = over-Acknowledged (k false) [] rs h
  over-Acknowledged (send m k) (w ∷ ws) rs h = over-Acknowledged (k w) ws rs h
  over-Acknowledged (receive k) ws [] h =
      let (before, rest, f, split, _, _) = over-Acknowledged (k none) ws [] h in
      absurd (nil-ne-append before (some f) rest split)
  over-Acknowledged (receive k) ws (r ∷ rs) h =
      let (before, rest, f, split, leads, ran) = over-Acknowledged (k (as_message r)) ws rs h in
      (r ∷ before, rest, f, ap (◌∷◌ r) split, leads, ran)

  -- Whatever the peer sends: Dial's script returns an identity only if its handshake returned it on the
  -- frames before, and the next frame begins with the byte of the acknowledgement.
  pub dial-Acknowledged :
      (c : Script M E A) (ws : List Bool) (rs : List (Option (Frame M))) {i : A}
      → run (dial_script first_byte c) ws rs ≡ ok i
      → Acknowledged c ws rs i
  unfolding dial_script
  dial-Acknowledged c ws rs h = over-Acknowledged c ws rs h
