-- ===== src/Cert/Claims/Valid.antt =====
-- cert/cert.go: which certificates Verify accepts.
use mosey.Base.{ℕ, Bool, true, false, not, Option, none, some, [], Bytes, bytes_eq, length}
use mosey.Base.{bytes_eq→eq, bytes_eq_self, ◌==◌, ==_iff, ltb, ◌||◌, ◌≤◌, ◌≡◌, refl, ap, arith}
use mosey.Base.{Result, ok, unless-ok, step-ok, ok_same, ◌↔◌, ◌⊎◌, inl, inr, subst}
use mosey.Base.{◌∙◌}
use mosey.Cert.Claims.{
  Claim, Cert, Keys, Documented, CertError, or_fail, sign, VerifyOptions, time_of,
}
use mosey.Cert.Claims.{mem_serial, check_content, verify, public_key_size, private_key_size}
use mosey.Cert.Claims.{unmarshal_content, marshal_content, outside_window, wrong_workspace, revoked}
use mosey.Cert.Claims.{peer_key_length, master_key_length, invalid_signature, private_key_length}

-- A claim that a verifier takes at a time: within its window, of the verifier's workspace where it names
-- one, not revoked, with a key of full length.
abbrev pub Timely : VerifyOptions → ℕ → Claim → Type 0
Timely o now c =
    (c.not_before ≤ now)
    × (now ≤ c.not_after)
    × ((o.workspace ≡ []) ⊎ (c.workspace_id ≡ o.workspace))
    × (mem_serial c.serial o.revoked_serials ≡ false)
    × (length c.peer_pub_key ≡ public_key_size)

-- The certificate vouches for the claim: signed by the master, with the claim as its content.
abbrev pub Vouches : Keys → VerifyOptions → Cert → Claim → Type 0
Vouches lib o c claim =
    (length o.master_pub ≡ public_key_size)
    × (lib.ed25519_verify o.master_pub c.content c.signature ≡ true)
    × (lib.unmarshal c.content ≡ some claim)

or_true : (b : Bool) → (b || true) ≡ true
or_true b = ground arith

or_cases : (a b : Bool) → (a || b) ≡ true → (a ≡ true) ⊎ (b ≡ true)
or_cases true b h = inl refl
or_cases false b h = inr h

false_of_not : {b : Bool} → not b ≡ true → b ≡ false
false_of_not h = ground arith

or_fail-ok : {A : Type 0} (e : CertError) (o : Option A) {x : A} → or_fail e o ≡ ok x → o ≡ some x
or_fail-ok e none h = absurd (cc)
or_fail-ok e (some y) h = ap some (ok_same h)

window_iff : (a b n : ℕ) → (not (ltb n a || ltb b n) ≡ true) ↔ ((a ≤ n) × (n ≤ b))
window_iff a b n = ground arith

home_iff : (w v : Bytes) → ((bytes_eq w [] || bytes_eq v w) ≡ true) ↔ ((w ≡ []) ⊎ (v ≡ w))
home_iff w v = (
  (λ h. elim (or_cases (bytes_eq w []) (bytes_eq v w) h) [
    | inl unset ↦ inl (bytes_eq→eq w [] unset)
    | inr same ↦ inr (bytes_eq→eq v w same)
  ]),
  λ q. elim q [
    | inl e ↦ rw (e, bytes_eq_self []) refl
    | inr e ↦ rw (e, bytes_eq_self w) (or_true (bytes_eq w []))
  ],
)

check_content-Timely :
    (o : VerifyOptions) (now : ℕ) (c : Claim) {d : Claim}
    → check_content o now c ≡ ok d
    → Timely o now c × (c ≡ d)
unfolding check_content
check_content-Timely o now c h =
    let (window, h1) = unless-ok _ outside_window _ h in
    let (home, h2) = unless-ok _ (wrong_workspace c.workspace_id) _ h1 in
    let (free, h3) = unless-ok _ (revoked c.serial) _ h2 in
    let (sized, h4) = unless-ok _ (peer_key_length (length c.peer_pub_key)) _ h3 in
    let (after, before) = (window_iff c.not_before c.not_after now).0 window in
    (
      (
        after,
        before,
        (home_iff o.workspace c.workspace_id).0 home,
        false_of_not free,
        (==_iff _ _).0 sized,
      ),
      ok_same h4,
    )

Timely-check_content :
    (o : VerifyOptions) (now : ℕ) (c : Claim) → Timely o now c → check_content o now c ≡ ok c
unfolding check_content
Timely-check_content o now c (after, before, home, free, sized) =
    let window = (window_iff c.not_before c.not_after now).1 (after, before) in
    let at_home = (home_iff o.workspace c.workspace_id).1 home in
    let full : (length c.peer_pub_key == public_key_size) ≡ true = (==_iff _ _).1 sized in
    rw (window, at_home, free, full) refl

-- Verify accepts a certificate with a claim exactly where the certificate vouches for that claim and the
-- claim is timely: all of the length checks, the signature, the window, the workspace and the revocation.
pub verify_iff :
    (lib : Keys) (c : Cert) (o : VerifyOptions) (wall : ℕ) (claim : Claim)
    → (verify lib (some c) o wall ≡ ok claim)
      ↔ (Vouches lib o c claim × Timely o (time_of o wall) claim)
unfolding verify
verify_iff lib c o wall claim = (
  (λ h.
      let (sized, h1) = unless-ok _ (master_key_length (length o.master_pub)) _ h in
      let (signed, h2) = unless-ok _ invalid_signature _ h1 in
      let (content, parsed, h3) = step-ok _ (check_content o (time_of o wall)) h2 in
      let (timely, same) = check_content-Timely o (time_of o wall) content h3 in
      (
        (((==_iff _ _).0 sized), signed, or_fail-ok unmarshal_content _ parsed ∙ ap some same),
        subst (Timely o (time_of o wall)) same timely,
      )),
  λ ((sized, signed, parsed), timely).
      let full : (length o.master_pub == public_key_size) ≡ true = (==_iff _ _).1 sized in
      rw (full, signed, parsed) (Timely-check_content o (time_of o wall) claim timely),
)

-- A claim that the master signs is what Verify returns for the certificate: wherever the claim is timely
-- for the verifier, and the verifier has the master's public key, which is of full length.
pub sign-verify :
    (lib : Keys) (docs : Documented lib) (priv : Bytes) (claim : Claim) (o : VerifyOptions)
    (wall : ℕ) {c : Cert}
    → sign lib priv claim ≡ ok c
    → o.master_pub ≡ lib.public_of priv
    → length o.master_pub ≡ public_key_size
    → Timely o (time_of o wall) claim
    → verify lib (some c) o wall ≡ ok claim
unfolding sign
sign-verify lib docs priv claim o wall {c} h master sized timely =
    let (_, h1) =
      unless-ok (length priv == private_key_size) (private_key_length (length priv)) _ h in
    let seal : Bytes → Result CertError Cert =
      λ payload. ok (record { content = payload; signature = lib.ed25519_sign priv payload }) in
    let (payload, marshalled, h2) = step-ok _ seal h1 in
    subst (λ x. verify lib (some x) o wall ≡ ok claim) (ok_same h2)
      ((verify_iff lib _ o wall claim).1 (
        (
          sized,
          rw master (docs.signs priv payload),
          docs.reads_back claim payload (or_fail-ok marshal_content _ marshalled),
        ),
        timely,
      ))
