-- ===== src/Solana/Source.antt =====
-- walletsolana/source.go: the cached snapshot. The RPC call and JSON are what they answer; base64 is a
-- parameter. Go visits a map in any order: the two visits of Refresh take theirs as arguments.
pub mod Fresh
use mosey.Base.{
  ℕ, zero, suc, ◌-◌, Bool, true, false, not, Option, none, some, List, [], ◌∷◌, ◌++◌, Bytes,
}
use mosey.Base.{
  length, take, bytes_eq, ltb, leb, ◌==◌, ◌&&◌, ◌||◌, if◌then◌else◌, Result, ok, err, ◌>>=◌, unless,
}
use mosey.Base.Dict.{lookup, insert}
use mosey.Wallet.Base58.{Base58Error, parse_address}
use mosey.Wallet.Fold.{Snapshot}
use mosey.Solana.Accounts.{
  Session, Grant, DecodeError, session_disc, grant_disc, decode_session, decode_grant,
}
use mosey.Solana.Accounts.{ChainSnapshot, build_snapshot, as_snapshot}

-- The hash and the decoder of base64 (`none` is an error).
pub record Decoders : Type 0 where
  pub sha256 : Bytes → Bytes
  pub base64 : Bytes → Option Bytes

pub record RpcAccount : Type 0 where
  pub pubkey : Bytes
  pub fields : List Bytes

-- Source, without what it only passes to the network.
pub record Source : Type 0 where
  pub session_key : Bytes
  pub max_staleness : ℕ
  pub snap : Option ChainSnapshot
  pub last_ok : ℕ
  pub sub_addrs : List Bytes

pub data SourceError : Type 0 where
  no_answer unregistered cold_start : SourceError

abbrev pub Decoded : Type 0
Decoded = List (Bytes × Bytes)

abbrev pub put_account : Bytes → Decoded → Option Bytes → Decoded
put_account pubkey decoded none = decoded
put_account pubkey decoded (some bytes) = insert bytes_eq pubkey bytes decoded

abbrev pub decode_account : Decoders → Decoded → RpcAccount → Decoded
decode_account lib decoded a = elim a.fields [
  | [] ↦ decoded
  | text ∷ more ↦ put_account a.pubkey decoded (lib.base64 text)
]

-- The loop of Refresh that decodes.
unfoldable pub decode_accounts : Decoders → Decoded → List RpcAccount → Decoded
decode_accounts lib decoded [] = decoded
decode_accounts lib decoded (a ∷ accounts) =
    decode_accounts lib (decode_account lib decoded a) accounts

-- `len(data) < 8 || [8]byte(data[:8]) != disc`
unfoldable pub has_disc : Bytes → Bytes → Bool
has_disc disc bytes = not (ltb (length bytes) 8) && bytes_eq (take 8 bytes) disc

-- The session that was found, with the address of its account.
pub record FoundSession : Type 0 where
  pub found : Session
  pub address : Bytes
  pub address_text : Bytes

abbrev pub at_address : Session → Bytes → Result Base58Error Bytes → Option FoundSession
at_address s text (err e) = none
at_address s text (ok address) = some (record { found = s; address = address; address_text = text })

abbrev pub own_session : Bytes → Bytes → Result DecodeError Session → Option FoundSession
own_session key text (err e) = none
own_session key text (ok s) =
    if bytes_eq s.session_key key then at_address s text (parse_address text) else none

-- One account of the loop that looks for the session.
unfoldable pub try_session : Decoders → Bytes → Bytes → Bytes → Option FoundSession
try_session lib key text bytes =
    if has_disc (session_disc lib.sha256) bytes
    then own_session key text (decode_session lib.sha256 bytes)
    else none

abbrev pub or_next : Option FoundSession → Option FoundSession → Option FoundSession
or_next none next = next
or_next (some f) next = some f

unfoldable pub find_session : Decoders → Bytes → Decoded → Option FoundSession
find_session lib key [] = none
find_session lib key ((text, bytes) ∷ rest) =
    or_next (try_session lib key text bytes) (find_session lib key rest)

abbrev pub own_grant : Bytes → Result DecodeError Grant → Option Grant
own_grant address (err e) = none
own_grant address (ok g) = if bytes_eq g.session address then some g else none

-- One account of the loop that collects the grants.
unfoldable pub try_grant : Decoders → Bytes → Bytes → Option Grant
try_grant lib address bytes =
    if has_disc (grant_disc lib.sha256) bytes
    then own_grant address (decode_grant lib.sha256 bytes)
    else none

abbrev pub add_found : Bytes → Option Grant → List Grant × List Bytes → List Grant × List Bytes
add_found text none (grants, targets) = (grants, targets)
add_found text (some g) (grants, targets) = (g ∷ grants, text ∷ targets)

-- The grants, and the addresses to watch for them.
unfoldable pub find_grants : Decoders → Bytes → Decoded → List Grant × List Bytes
find_grants lib address [] = ([], [])
find_grants lib address ((text, bytes) ∷ rest) =
    add_found text (try_grant lib address bytes) (find_grants lib address rest)

abbrev pub swap_in : Source → ℕ → ℕ → FoundSession → List Grant × List Bytes → Source
swap_in s now later f (grants, targets) = record s {
  snap = some (build_snapshot f.found grants now);
  last_ok = later;
  sub_addrs = f.address_text ∷ targets;
}

abbrev pub refresh_with :
    Decoders
    → (Decoded → Decoded)
    → Source
    → ℕ
    → ℕ
    → Decoded
    → Option FoundSession
    → Result SourceError Source
refresh_with lib visit s now later decoded none = err unregistered
refresh_with lib visit s now later decoded (some f) =
    ok (swap_in s now later f (find_grants lib f.address (visit decoded)))

-- What Refresh is answered: the accounts, the orders of its two visits, and the clock's two readings.
pub record Answer : Type 0 where
  pub accounts : Option (List RpcAccount)
  pub first_visit : Decoded → Decoded
  pub second_visit : Decoded → Decoded
  pub built_at : ℕ
  pub stored_at : ℕ

-- Refresh
unfoldable pub refresh : Decoders → Source → Answer → Result SourceError Source
refresh lib s a = elim a.accounts [
  | none ↦ err no_answer
  | some accounts ↦
      let decoded = decode_accounts lib [] accounts in
      refresh_with lib a.second_visit s a.built_at a.stored_at decoded
        (find_session lib s.session_key (a.first_visit decoded))
]

-- Snapshot: the view, and whether it is fresh.
unfoldable pub snapshot : Source → ℕ → Result SourceError (Snapshot × Bool)
snapshot s now = elim s.snap [
  | none ↦ err cold_start
  | some c ↦ ok (as_snapshot c, leb (now - s.last_ok) s.max_staleness)
]

-- Refreshes of other goroutines, in turn: a failed one leaves the source as it was.
abbrev pub left_by : Source → Result SourceError Source → Source
left_by s (err e) = s
left_by s (ok t) = t

unfoldable pub refreshes : Decoders → Source → List Answer → Source
refreshes lib s [] = s
refreshes lib s (a ∷ more) = refreshes lib (left_by s (refresh lib s a)) more

-- GrantCaps of VerifyNow, in the snapshot that it reads.
abbrev pub looked_up : Bytes → Option ChainSnapshot → Option ℕ
looked_up w none = none
looked_up w (some c) = (as_snapshot c).grant_caps w

-- VerifyNow: its own refresh, then a read of the snapshot under the lock. Other refreshes may have swapped
-- theirs in between; `between` is what they are answered.
unfoldable pub verify_now :
    Decoders → Source → Answer → List Answer → Bytes → Result SourceError (Source × Option ℕ)
verify_now lib s a between w =
    refresh lib s a >>= λ t. let u = refreshes lib t between in ok (u, looked_up w u.snap)
