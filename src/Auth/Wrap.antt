-- ===== src/Auth/Wrap.antt =====
-- auth/wrap.go: the transport that runs a handshake on every connection. The wrapped transport keeps one
-- handler for each protocol; what its Dial answers is an argument. The authenticator is a parameter: its
-- two scripts. Handlers are values of a type of the application's.
pub mod Steps
pub mod Gate
pub mod Ack
use mosey.Base.{ℕ, Bool, true, false, Option, none, some, List, [], ◌∷◌, Bytes, codes, bytes_eq}
use mosey.Base.{◌==◌, if◌then◌else◌, Result, err, ok}
use mosey.Base.Dict.{lookup, insert, erase}
use mosey.Auth.Identity.{PeerIdentity, Stream, zero_identity}
use mosey.Auth.Script.{Script, done, send, receive}

abbrev pub proto_auth : Bytes
proto_auth = codes "/mosey/auth/1.0.0"

abbrev pub ack_ok : ℕ
ack_ok = 1

-- What the wrapped transport has for a protocol: the handler of Serve, or a gated one.
pub data Installed (H : Type 0) : Type 0 where
  serving : Installed H
  gated : H → Installed H

pub record Wrapped (H : Type 0) : Type 0 where
  pub inner : List (Bytes × Installed H)
  pub identities : List (Bytes × PeerIdentity)
  pub local_identity : PeerIdentity

-- What is on the stream of a handshake: its messages, and then the byte of the acknowledgement.
pub data Frame (M : Type 0) : Type 0 where
  message : M → Frame M
  byte : ℕ → Frame M

pub data DialError (E : Type 0) : Type 0 where
  auth_unopened unacknowledged unopened : DialError E
  handshake : E → DialError E
  unexpected_ack : ℕ → DialError E

-- What becomes of an inbound stream.
pub data Arrival (H : Type 0) : Type 0 where
  unsupported closed acknowledged : Arrival H
  called : H → Stream → Arrival H

module _ {M : Type 0} where
  -- A byte is no message.
  abbrev pub as_message : Option (Frame M) → Option M
  as_message none = none
  as_message (some (message m)) = some m
  as_message (some (byte b)) = none

  -- A handshake over such a stream, and what follows on its result.
  abbrev pub over :
      {E A F B : Type 0} → Script M E A → (Result E A → Script (Frame M) F B) → Script (Frame M) F B
  over (done r) after = after r
  over (send m k) after = send (message m) (λ b. over (k b) after)
  over (receive k) after = receive (λ o. over (k (as_message o)) after)

  abbrev pub lead : (M → ℕ) → Frame M → ℕ
  lead first_byte (byte b) = b
  lead first_byte (message m) = first_byte m

  -- The read of the acknowledgement in Dial: one byte, the first one of whatever comes.
  abbrev pub expect_ack :
      {E A : Type 0} → (M → ℕ) → A → Option (Frame M) → Script (Frame M) (DialError E) A
  expect_ack first_byte id none = done (err unacknowledged)
  expect_ack first_byte id (some f) =
      if lead first_byte f == ack_ok
      then done (ok id)
      else done (err (unexpected_ack (lead first_byte f)))

  abbrev pub await_ack : {E A : Type 0} → (M → ℕ) → Result E A → Script (Frame M) (DialError E) A
  await_ack first_byte (err e) = done (err (handshake e))
  await_ack first_byte (ok id) = receive (expect_ack first_byte id)

  -- Dial on the stream of the handshake, and the handler of Serve on it; whether the write of the
  -- acknowledgement succeeds does not matter.
  unfoldable pub dial_script :
      {E A : Type 0} → (M → ℕ) → Script M E A → Script (Frame M) (DialError E) A
  dial_script first_byte client = over client (await_ack first_byte)

  abbrev pub acknowledge : {E A : Type 0} → Result E A → Script (Frame M) E A
  acknowledge (err e) = done (err e)
  acknowledge (ok id) = send (byte ack_ok) (λ written. done (ok id))

  unfoldable pub serve_script : {E A : Type 0} → Script M E A → Script (Frame M) E A
  serve_script server = over server acknowledge

-- Wrap
abbrev pub wrap : {H : Type 0} → Wrapped H
wrap = record { inner = []; identities = []; local_identity = zero_identity }

module _ {H : Type 0} where
  -- Handle, Unhandle and Serve
  unfoldable pub handle : Wrapped H → Bytes → H → Wrapped H
  handle w proto h =
      if bytes_eq proto proto_auth
      then w
      else record w { inner = insert bytes_eq proto (gated h) w.inner }

  unfoldable pub unhandle : Wrapped H → Bytes → Wrapped H
  unhandle w proto =
      if bytes_eq proto proto_auth then w else record w { inner = erase bytes_eq proto w.inner }

  unfoldable pub serve : Wrapped H → Wrapped H
  serve w = record w { inner = insert bytes_eq proto_auth serving w.inner }

  -- The handler of Serve, for what ServerHandshake returned.
  unfoldable pub serve_stream :
      {E : Type 0} → Wrapped H → Bytes → Result E PeerIdentity → Wrapped H × Arrival H
  serve_stream w remote (err e) = (w, closed)
  serve_stream w remote (ok id) =
      (record w { identities = insert bytes_eq remote id w.identities }, acknowledged)

  -- The handler that Handle installs around `h`.
  abbrev pub admit_as : H → Bytes → Option PeerIdentity → Arrival H
  admit_as h remote none = closed
  admit_as h remote (some id) = called h (record { remote_id = remote; identity = some id })

  unfoldable pub gate : Wrapped H → H → Bytes → Arrival H
  gate w h remote = admit_as h remote (lookup bytes_eq remote w.identities)

  abbrev pub dispatch :
      {E : Type 0}
      → Wrapped H
      → Bytes
      → Result E PeerIdentity
      → Option (Installed H)
      → Wrapped H × Arrival H
  dispatch w remote r none = (w, unsupported)
  dispatch w remote r (some serving) = serve_stream w remote r
  dispatch w remote r (some (gated h)) = (w, gate w h remote)

  -- A stream of a remote that opens a protocol; `r` is what the handshake returns, where it is one.
  unfoldable pub arrive :
      {E : Type 0} → Wrapped H → Bytes → Bytes → Result E PeerIdentity → Wrapped H × Arrival H
  arrive w proto remote r = dispatch w remote r (lookup bytes_eq proto w.inner)

  -- Dial behind the first stream, on the result of its script; `app` is the remote's id where the second
  -- stream opens.
  abbrev pub dialled :
      {E : Type 0}
      → Wrapped H
      → Result (DialError E) PeerIdentity
      → Option Bytes
      → Wrapped H × Result (DialError E) Stream
  dialled w (err e) app = (w, err e)
  dialled w (ok id) none = (record w { local_identity = id }, err unopened)
  dialled w (ok id) (some remote) =
      (record w { local_identity = id }, ok (record { remote_id = remote; identity = some id }))

  -- Dial
  unfoldable pub dial :
      {E : Type 0}
      → Wrapped H
      → Bool
      → Result (DialError E) PeerIdentity
      → Option Bytes
      → Wrapped H × Result (DialError E) Stream
  dial w false r app = (w, err auth_unopened)
  dial w true r app = dialled w r app
