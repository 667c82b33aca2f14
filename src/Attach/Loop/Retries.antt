-- ===== src/Attach/Loop/Retries.antt =====
-- attach/attach.go: how long the loop waits, and for what errors it goes on. The texts of the rejections
-- stand in auth/psk.go, auth/wrap.go and auth/cert.go.
use mosey.Base.{
  ℕ, zero, suc, ◌*◌, ◌^◌, ◌≤◌, min, Bool, true, false, none, some, List, [], ◌∷◌, ◌++◌, map,
}
use mosey.Base.{Bytes, codes, length, All, ◌≡◌, refl, ap, ◌∙◌, arith}
use native.Mathlib.Nat.{pow-suc, mul_assoc, mul_left_comm, le-mul_of_pos_right}
use mosey.Base.{leb, Bool-cases, inl, inr}
use mosey.Attach.Errors.{GoError, is_fatal_dial_error}
use mosey.Attach.Errors.{contains_one, contains, index_from, fatal_texts}
use mosey.Wallet.Text.{has_prefix}
use mosey.Attach.Loop.{reconnect_max_delay, next_delay, AttachState, Round, goes_on}
use mosey.Attach.Loop.{open_text, dial_pty, attach_round, attach_loop}

-- A round in which dialPTY fails with an error that is worth a retry, in a context that lives on.
abbrev pub Transient : Bool → Round → Type 0
Transient resume r =
    (e : GoError) × (dial_pty resume r ≡ some e)
    × (is_fatal_dial_error (some e) ≡ false)
    × (r.dead_at_dial ≡ false)
    × (r.dead_in_wait ≡ false)

abbrev pub waiting : AttachState → ℕ → AttachState
waiting st d = record st { delay = d }

Transient-attach_round :
    (st : AttachState) (r : Round)
    → Transient st.resume r
    → attach_round st r ≡ goes_on (waiting st (next_delay st.delay))
unfolding attach_round
Transient-attach_round st r (e, failed, retried, alive, uncut) =
    rw (failed, retried, alive, uncut) refl

next_delay-min : (d : ℕ) → next_delay d ≡ min (d * 2) reconnect_max_delay
unfolding next_delay
next_delay-min d = ground arith

positive : (k : ℕ) → 1 ≤ 2 ^ k
positive zero = omega arith
positive (suc k) = omega (arith, pow-suc 2 k, positive k)

twice : (d p : ℕ) → d * (2 * p) ≡ 2 * (d * p)
twice d p = mul_left_comm d 2 p

capped : (d p : ℕ) → 1 ≤ p → min (min (d * 2) 5000 * p) 5000 ≡ min (d * (2 * p)) 5000
capped d p h = elim (Bool-cases (leb (d * 2) 5000)) [
  | inl low ↦ let e : min (d * 2) 5000 ≡ d * 2 = ground arith in rw (e, mul_assoc d 2 p) refl
  | inr high ↦
      let e : min (d * 2) 5000 ≡ 5000 = ground arith in
      let much : d ≤ d * p = le-mul_of_pos_right d h in rw (e, twice d p) (ground (arith, much))
]

doubled : (d k : ℕ) → min (min (d * 2) 5000 * 2 ^ k) 5000 ≡ min (d * 2 ^ suc k) 5000
doubled d k =
    let p : 2 ^ suc k ≡ 2 * 2 ^ k = omega (arith, pow-suc 2 k) in
    rw p (capped d (2 ^ k) (positive k))

-- While every dial fails with an error that is worth a retry, the loop goes on, and after k rounds it
-- waits 2^k times as long as at first, but never more than five seconds.
pub Transient-back_off :
    (rs : List Round) (st : AttachState)
    → st.delay ≤ reconnect_max_delay
    → All (Transient st.resume) rs
    → attach_loop rs st ≡ goes_on (waiting st (min (st.delay * 2 ^ length rs) reconnect_max_delay))
unfolding attach_loop
Transient-back_off [] st low all = ap (λ d. goes_on (waiting st d)) (ground arith)
Transient-back_off (r ∷ rs) st low (first, rest) =
    let next = next_delay st.delay in
    let short : next ≤ reconnect_max_delay = rw (next_delay-min st.delay) (ground arith) in
    rw (Transient-attach_round st r first) (
      Transient-back_off rs (waiting st next) short rest
      ∙ ap (λ d. goes_on (waiting st d))
          (rw (next_delay-min st.delay) (doubled st.delay (length rs))))

-- ErrUnauthorized, and texts that wrap it.
abbrev pub unauthorized_text : Bytes
unauthorized_text = codes "auth: peer failed authentication handshake"

abbrev pub mac_mismatch_text : Bytes
mac_mismatch_text = codes "mosey/auth(psk): " ++ unauthorized_text ++ codes ": server mac mismatch"

abbrev pub no_ack_text : Bytes
no_ack_text = codes "mosey/auth: " ++ unauthorized_text ++ codes ": server closed without ack: EOF"

abbrev pub bad_proof_text : Bytes
bad_proof_text =
    codes "mosey/auth(cert): " ++ unauthorized_text ++ codes ": peer proof signature invalid"

pub data Rejection : Type 0 where
  mac_mismatches unacknowledged proof_invalid : Rejection

abbrev pub rejection_text : Rejection → Bytes
rejection_text mac_mismatches = mac_mismatch_text
rejection_text unacknowledged = no_ack_text
rejection_text proof_invalid = bad_proof_text

-- A round in which the handshake of the dial is rejected.
abbrev pub rejected : Rejection → Round
rejected x = record {
  dial_error = some (record {
    text = rejection_text x;
    is_eof = false;
    is_reset = false;
    is_canceled = false;
    is_deadline = false;
  });
  header_error = none;
  dead_at_dial = false;
  dead_in_wait = false;
  chunks = [];
  pump_error = none;
  dead_at_end = false;
}

rejection-Transient :
    (x : Rejection) (resume : Bool)
    → contains_one (open_text resume ++ rejection_text x) fatal_texts ≡ false
unfolding contains_one contains index_from has_prefix
rejection-Transient mac_mismatches true = refl
rejection-Transient mac_mismatches false = refl
rejection-Transient unacknowledged true = refl
rejection-Transient unacknowledged false = refl
rejection-Transient proof_invalid true = refl
rejection-Transient proof_invalid false = refl

all_rejected : (xs : List Rejection) (resume : Bool) → All (Transient resume) (map rejected xs)
unfolding is_fatal_dial_error dial_pty
all_rejected [] resume = tt
all_rejected (x ∷ xs) resume =
    ((_, refl, rejection-Transient x resume, refl, refl), all_rejected xs resume)

-- However many dials in a row are rejected by the handshake, because the MAC of the server does not
-- match, the server does not acknowledge or the proof of the peer is invalid: the loop goes on.
pub rejected_dials_are_retried :
    (xs : List Rejection) (st : AttachState)
    → st.delay ≤ reconnect_max_delay
    → (d : ℕ) × (d ≤ reconnect_max_delay)
      × (attach_loop (map rejected xs) st ≡ goes_on (waiting st d))
rejected_dials_are_retried xs st low = (
  min (st.delay * 2 ^ length (map rejected xs)) reconnect_max_delay,
  ground arith,
  Transient-back_off (map rejected xs) st low (all_rejected xs st.resume),
)
