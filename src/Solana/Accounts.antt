-- ===== src/Solana/Accounts.antt =====
-- walletsolana/decode.go and walletsolana/snapshot.go: the accounts of the program, and the snapshot that
-- they give. SHA-256 is a parameter. A 64-bit expiry is its two's complement word; the clock reads seconds
-- after 1970.
pub mod Live
use mosey.Base.{
  ℕ, zero, suc, ◌+◌, ◌*◌, ◌^◌, Bool, true, false, not, Option, none, some, List, [], ◌∷◌, ◌++◌,
  Bytes,
}
use mosey.Base.{
  codes, length, take, drop, bytes_eq, ltb, leb, ◌==◌, ◌&&◌, ◌||◌, if◌then◌else◌, Result, ok, err,
  unless,
}
use mosey.Base.Dict.{lookup, insert}
use mosey.Wallet.Fold.{Snapshot}

abbrev pub session_len : ℕ
session_len = 75

abbrev pub grant_len : ℕ
grant_len = 84

pub record Session : Type 0 where
  pub session_key : Bytes
  pub owner : Bytes
  pub epoch : ℕ

pub record Grant : Type 0 where
  pub session : Bytes
  pub grantee : Bytes
  pub caps : ℕ
  pub expiry : ℕ
  pub grant_epoch : ℕ

pub data DecodeError : Type 0 where
  too_short : ℕ → DecodeError
  wrong_discriminator : DecodeError

-- discriminator, of "Session" and of "Grant"; `sha256` is the hash.
unfoldable pub discriminator : (Bytes → Bytes) → Bytes → Bytes
discriminator sha256 name = take 8 (sha256 (codes "account:" ++ name))

abbrev pub session_disc : (Bytes → Bytes) → Bytes
session_disc sha256 = discriminator sha256 (codes "Session")

abbrev pub grant_disc : (Bytes → Bytes) → Bytes
grant_disc sha256 = discriminator sha256 (codes "Grant")

-- `bytes[off : off+n]`
abbrev pub slice : ℕ → ℕ → Bytes → Bytes
slice off n bytes = take n (drop off bytes)

-- binary.LittleEndian
unfoldable pub little_endian : Bytes → ℕ
little_endian [] = 0
little_endian (b ∷ bs) = b + 256 * little_endian bs

-- decodeSession
unfoldable pub decode_session : (Bytes → Bytes) → Bytes → Result DecodeError Session
decode_session sha256 bytes =
    unless (not (ltb (length bytes) session_len)) (too_short (length bytes)) (
      unless (bytes_eq (take 8 bytes) (session_disc sha256)) wrong_discriminator (
        ok (record {
          session_key = slice 8 32 bytes;
          owner = slice 40 32 bytes;
          epoch = little_endian (slice 72 2 bytes);
        })))

-- decodeGrant
unfoldable pub decode_grant : (Bytes → Bytes) → Bytes → Result DecodeError Grant
decode_grant sha256 bytes = unless (not (ltb (length bytes) grant_len)) (too_short (length bytes)) (
    unless (bytes_eq (take 8 bytes) (grant_disc sha256)) wrong_discriminator (
      ok (record {
        session = slice 8 32 bytes;
        grantee = slice 40 32 bytes;
        caps = little_endian (slice 72 1 bytes);
        expiry = little_endian (slice 73 8 bytes);
        grant_epoch = little_endian (slice 81 2 bytes);
      })))

-- `g.Expiry != 0 && g.Expiry <= now.Unix()`: a word from 2^63 on is negative, and so before any time.
unfoldable pub has_expired : ℕ → ℕ → Bool
has_expired expiry now = not (expiry == 0) && (leb (2 ^ 63) expiry || leb expiry now)

unfoldable pub is_live : Session → ℕ → Grant → Bool
is_live s now g = g.grant_epoch == s.epoch && not (has_expired g.expiry now)

pub record ChainSnapshot : Type 0 where
  pub chain_owner : Bytes
  pub grants : List (Bytes × ℕ)

-- The loop of buildSnapshot.
unfoldable pub add_grants : Session → ℕ → List (Bytes × ℕ) → List Grant → List (Bytes × ℕ)
add_grants s now known [] = known
add_grants s now known (g ∷ gs) =
    add_grants s now (if is_live s now g then insert bytes_eq g.grantee g.caps known else known) gs

-- buildSnapshot
unfoldable pub build_snapshot : Session → List Grant → ℕ → ChainSnapshot
build_snapshot s gs now = record { chain_owner = s.owner; grants = add_grants s now [] gs }

-- The wallet.Snapshot that it is: Owner and GrantCaps.
unfoldable pub as_snapshot : ChainSnapshot → Snapshot
as_snapshot c = record { owner = c.chain_owner; grant_caps = λ w. lookup bytes_eq w c.grants }
