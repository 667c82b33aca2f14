-- ===== src/Vterm/Session/Replay/Admission.antt =====
-- vterm/session.go, addClient: what an admission leaves of the session, and look-ups in the registry.
use mosey.Base.{ℕ, ◌%◌, ◌^◌, ◌≡◌, refl, ◌∙◌, ap, subst, Bool}
use mosey.Base.{inl, inr, List, [], ◌∷◌, Option, none, some, Bool-cases}
use mosey.Base.{◌==◌, ==_self, ◌||◌, map}
use mosey.Auth.Identity.{Stream, can_write, identity_of}
use mosey.Vterm.Session.{SessionClient, Session, client_by_id, put_client, update_client}
use mosey.Vterm.Session.{apply_pty_size}
use mosey.Vterm.Session.Admit.{Decision, Added, admit, new_client, register, decided}
use mosey.Vterm.Session.Admit.{add_client_locked, add_client, sized}

some_same : {A : Type 0} {x y : A} → some x ≡ some y → x ≡ y
some_same {A} {x} {y} e = ap (λ o. elim o [ none ↦ x | some z ↦ z ]) e

client_by_id-put :
    (c : SessionClient) (cs : List SessionClient) → client_by_id c.id (put_client c cs) ≡ some c
unfolding client_by_id put_client
client_by_id-put c [] = rw (==_self c.id)
client_by_id-put c (d ∷ ds) = elim (Bool-cases (d.id == c.id)) [
  | inl e ↦ rw (e, ==_self c.id)
  | inr n ↦ rw (n, n) (client_by_id-put c ds)
]

-- A change that keeps ids is seen by the look-up.
pub client_by_id-map :
    (f : SessionClient → SessionClient)
    → ((c : SessionClient) → (f c).id ≡ c.id)
    → (id : ℕ) (cs : List SessionClient) (c : SessionClient) → client_by_id id cs ≡ some c
    → client_by_id id (map f cs) ≡ some (f c)
unfolding client_by_id
client_by_id-map f same id [] c e = absurd (cc)
client_by_id-map f same id (d ∷ ds) c e = elim (Bool-cases (d.id == id)) [
  | inl hit ↦
      let q : some d ≡ some c = rw hit at e in
      rw (ap (λ n. n == id) (same d) ∙ hit) (ap (λ x. some (f x)) (some_same q))
  | inr miss ↦
      rw (ap (λ n. n == id) (same d) ∙ miss) (client_by_id-map f same id ds c (rw miss at e))
]

pub client_by_id-update :
    (f : SessionClient → SessionClient)
    → ((c : SessionClient) → (f c).id ≡ c.id)
    → (id : ℕ) (cs : List SessionClient) (c : SessionClient) → client_by_id id cs ≡ some c
    → client_by_id id (update_client id f cs) ≡ some (f c)
unfolding client_by_id update_client
client_by_id-update f same id [] c e = absurd (cc)
client_by_id-update f same id (d ∷ ds) c e = elim (Bool-cases (d.id == id)) [
  | inl hit ↦
      let q : some d ≡ some c = rw hit at e in
      rw (hit, ap (λ n. n == id) (same d) ∙ hit) (ap (λ x. some (f x)) (some_same q))
  | inr miss ↦ rw (miss, miss) (client_by_id-update f same id ds c (rw miss at e))
]

-- An admitted client stands in the registry, with nothing in its channel; the ring and the responder
-- are as they were.
pub record Joined (s t : Session) (c : SessionClient) : Type 0 where
  pub there : client_by_id c.id t.clients ≡ some c
  pub empty : c.out_ch ≡ []
  pub output : t.output ≡ s.output
  pub da_resp : t.da_resp ≡ s.da_resp

registered :
    (s : Session) (stream : Stream) (d : Decision)
    → Joined s (register s stream d).session (new_client s stream d.can_write)
unfolding register new_client
registered s stream d = record {
  there = client_by_id-put (new_client s stream d.can_write) d.clients;
  empty = refl;
  output = refl;
  da_resp = refl;
}

registered-client :
    (s : Session) (stream : Stream) (d : Decision) (c : SessionClient)
    → (register s stream d).client ≡ some c
    → some (new_client s stream d.can_write) ≡ some c
unfolding register
registered-client s stream d c e = e

decided-Joined :
    (s : Session) (stream : Stream) (d : Option Decision) (c : SessionClient)
    → (decided s stream d).client ≡ some c
    → Joined s (decided s stream d).session c
decided-Joined s stream none c e = absurd (cc)
decided-Joined s stream (some d) c e =
    subst (Joined s (register s stream d).session) (some_same (registered-client s stream d c e))
      (registered s stream d)

apply_pty_size-Joined :
    (setsize : ℕ → ℕ → Bool) (s t : Session) (cols rows : ℕ) (c : SessionClient)
    → Joined s t c
    → Joined s (apply_pty_size setsize t cols rows).0 c
unfolding apply_pty_size
apply_pty_size-Joined setsize s t cols rows c j =
    elim (Bool-cases (setsize (cols % 2 ^ 16) (rows % 2 ^ 16))) [
      | inl e ↦
          rw e (record { there = j.there; empty = j.empty; output = j.output; da_resp = j.da_resp })
      | inr n ↦ rw n j
    ]

sized-Joined :
    (setsize : ℕ → ℕ → Bool) (s : Session) (a : Added) (c : SessionClient)
    → Joined s a.session c
    → Joined s (sized setsize a).0 c
sized-Joined setsize s a c j = elim (Bool-cases (a.cols == 0 || a.rows == 0)) [
  | inl unsized ↦ rw unsized j
  | inr size ↦ rw size (apply_pty_size-Joined setsize s a.session a.cols a.rows c j)
]

pub add_client-Joined :
    (setsize : ℕ → ℕ → Bool) (s : Session) (stream : Stream) (c : SessionClient)
    → (add_client setsize s stream).1 ≡ some c
    → Joined s (add_client setsize s stream).0 c
unfolding add_client add_client_locked
add_client-Joined setsize s stream c e =
    sized-Joined setsize s (decided s stream (admit s.mode s (can_write (identity_of stream)))) c
      (decided-Joined s stream (admit s.mode s (can_write (identity_of stream))) c e)
