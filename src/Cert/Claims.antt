-- ===== src/Cert/Claims.antt =====
-- cert/cert.go: claims, their signature by the workspace master, and the check of a certificate. Ed25519
-- and the wire form of a content are parameters. Times are counted from Go's zero time.
pub mod Valid
use mosey.Base.{ℕ, zero, suc, Bool, true, false, not, Option, none, some, List, [], ◌∷◌, Bytes}
use mosey.Base.{bytes_eq, length, ◌==◌, ltb, ◌&&◌, ◌||◌, ◌≡◌, Result, ok, err, ◌>>=◌, unless}
use Prim.Native.Nat.{bit_and}

abbrev pub public_key_size : ℕ
public_key_size = 32

abbrev pub private_key_size : ℕ
private_key_size = 64

abbrev pub caps_bit_owner : ℕ
caps_bit_owner = 1

abbrev pub caps_bit_write : ℕ
caps_bit_write = 2

abbrev pub caps_bit_resize : ℕ
caps_bit_resize = 4

-- Claim; api.SignedCertContent has the same fields.
pub record Claim : Type 0 where
  pub agent_id : Bytes
  pub peer_pub_key : Bytes
  pub label : Bytes
  pub caps_bits : ℕ
  pub not_before : ℕ
  pub not_after : ℕ
  pub serial : Bytes
  pub workspace_id : Bytes

-- api.Cert
pub record Cert : Type 0 where
  pub content : Bytes
  pub signature : Bytes

-- crypto/ed25519, and proto.Marshal and proto.Unmarshal of a content (`none` is an error).
pub record Keys : Type 0 where
  pub ed25519_sign : Bytes → Bytes → Bytes
  pub ed25519_verify : Bytes → Bytes → Bytes → Bool
  pub public_of : Bytes → Bytes
  pub marshal : Claim → Option Bytes
  pub unmarshal : Bytes → Option Claim

-- What the library documents: a signature verifies under the public half of its key, and a content
-- that marshals is read back.
pub record Documented (lib : Keys) : Type 0 where
  pub signs :
      (priv msg : Bytes)
      → lib.ed25519_verify (lib.public_of priv) msg (lib.ed25519_sign priv msg) ≡ true
  pub reads_back : (c : Claim) (b : Bytes) → lib.marshal c ≡ some b → lib.unmarshal b ≡ some c

pub data CertError : Type 0 where
  nil_cert invalid_signature unmarshal_content marshal_content outside_window : CertError
  wrong_workspace revoked : Bytes → CertError
  private_key_length master_key_length peer_key_length : ℕ → CertError

-- HasOwner, HasWrite, HasResize
unfoldable pub has_owner : Claim → Bool
has_owner c = not (bit_and c.caps_bits caps_bit_owner == 0)

unfoldable pub has_write : Claim → Bool
has_write c = not (bit_and c.caps_bits caps_bit_write == 0)

unfoldable pub has_resize : Claim → Bool
has_resize c = not (bit_and c.caps_bits caps_bit_resize == 0)

abbrev pub or_fail : {A : Type 0} → CertError → Option A → Result CertError A
or_fail e none = err e
or_fail e (some x) = ok x

-- Sign
unfoldable pub sign : Keys → Bytes → Claim → Result CertError Cert
sign lib priv claim = unless (length priv == private_key_size) (private_key_length (length priv)) (
    or_fail marshal_content (lib.marshal claim) >>= λ payload.
    ok (record { content = payload; signature = lib.ed25519_sign priv payload }))

-- VerifyOptions; the zero time asks for the wall clock.
pub record VerifyOptions : Type 0 where
  pub master_pub : Bytes
  pub workspace : Bytes
  pub now : ℕ
  pub revoked_serials : List Bytes

abbrev pub time_of : VerifyOptions → ℕ → ℕ
time_of o wall = elim o.now [ zero ↦ wall | suc n ↦ suc n ]

unfoldable pub mem_serial : Bytes → List Bytes → Bool
mem_serial s [] = false
mem_serial s (x ∷ xs) = bytes_eq x s || mem_serial s xs

-- Verify behind the signature.
unfoldable pub check_content : VerifyOptions → ℕ → Claim → Result CertError Claim
check_content o now c = unless (not (ltb now c.not_before || ltb c.not_after now)) outside_window (
    unless (bytes_eq o.workspace [] || bytes_eq c.workspace_id o.workspace)
      (wrong_workspace c.workspace_id)
      (unless (not (mem_serial c.serial o.revoked_serials)) (revoked c.serial) (
        unless (length c.peer_pub_key == public_key_size) (peer_key_length (length c.peer_pub_key))
          (ok c))))

-- Verify; `wall` is the reading of the clock.
unfoldable pub verify : Keys → Option Cert → VerifyOptions → ℕ → Result CertError Claim
verify lib none o wall = err nil_cert
verify lib (some c) o wall =
    unless (length o.master_pub == public_key_size) (master_key_length (length o.master_pub)) (
      unless (lib.ed25519_verify o.master_pub c.content c.signature) invalid_signature
        (or_fail unmarshal_content (lib.unmarshal c.content) >>= check_content o (time_of o wall)))
