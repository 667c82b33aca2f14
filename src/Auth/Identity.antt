-- ===== src/Auth/Identity.antt =====
-- auth/identity.go, and IdentityOf of auth/wrap.go.
use mosey.Base.{◌||◌, ◌&&◌, not, Bool, false, Option, none, some, [], Bytes, bytes_eq}

pub record Capabilities : Type 0 where
  pub owner : Bool
  pub write : Bool
  pub resize : Bool

-- Go's `Identity`: what a handshake says of the peer.
pub record PeerIdentity : Type 0 where
  pub label : Bytes
  pub caps : Capabilities

-- CanWrite, CanResize, IsOwner
unfoldable pub can_write : PeerIdentity → Bool
can_write i = i.caps.owner || i.caps.write

unfoldable pub can_resize : PeerIdentity → Bool
can_resize i = i.caps.owner || i.caps.resize

unfoldable pub is_owner : PeerIdentity → Bool
is_owner i = i.caps.owner

abbrev pub no_caps : Capabilities
no_caps = record { owner = false; write = false; resize = false }

abbrev pub zero_identity : PeerIdentity
zero_identity = record { label = []; caps = no_caps }

-- IsZero: equality with the zero value, field by field.
unfoldable pub is_zero : PeerIdentity → Bool
is_zero i = bytes_eq i.label [] && not i.caps.owner && not i.caps.write && not i.caps.resize

-- What a handler sees of a stream: the remote's id, and the identity that the auth wrapper put on it.
pub record Stream : Type 0 where
  pub remote_id : Bytes
  pub identity : Option PeerIdentity

-- IdentityOf
unfoldable pub identity_of : Stream → PeerIdentity
identity_of s = elim s.identity [ none ↦ zero_identity | some i ↦ i ]
