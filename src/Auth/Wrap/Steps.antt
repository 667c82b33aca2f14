-- ===== src/Auth/Wrap/Steps.antt =====
-- auth/wrap.go: the events of a wrapper, and the ledger of who has authenticated.
use mosey.Base.{Bool, true, false, Option, none, some, List, [], ◌∷◌, Bytes, bytes_eq}
use mosey.Base.{if◌then◌else◌, Result, err, ok}
use mosey.Base.{◌&&◌}
use mosey.Auth.Identity.{PeerIdentity}
use mosey.Auth.Wrap.{Wrapped}
use mosey.Auth.Wrap.{proto_auth, DialError, handle, unhandle, serve}
use mosey.Auth.Wrap.{arrive, dial}

-- What happens to a wrapper, in the order of its locks.
pub data Event (H E : Type 0) : Type 0 where
  handles : Bytes → H → Event H E
  unhandles : Bytes → Event H E
  serves : Event H E
  arrives : Bytes → Bytes → Result E PeerIdentity → Event H E
  dials : Bool → Result (DialError E) PeerIdentity → Option Bytes → Event H E

module _ {H E : Type 0} where
  unfoldable pub step : Wrapped H → Event H E → Wrapped H
  step w (handles proto h) = handle w proto h
  step w (unhandles proto) = unhandle w proto
  step w serves = serve w
  step w (arrives proto remote r) = (arrive w proto remote r).0
  step w (dials opened r app) = (dial w opened r app).0

  unfoldable pub run : Wrapped H → List (Event H E) → Wrapped H
  run w [] = w
  run w (e ∷ es) = run (step w e) es

-- The abstract view of a wrapper: whether it serves, and who has authenticated as what.
pub record Ledger : Type 0 where
  pub served : Bool
  pub authenticated : Bytes → Option PeerIdentity

abbrev pub nobody : Ledger
nobody = record { served = false; authenticated = λ remote. none }

module _ {E : Type 0} where
  -- Only a stream of the handshake's protocol whose handshake succeeds changes who is authenticated.
  abbrev pub enter : Ledger → Bytes → Result E PeerIdentity → Ledger
  enter l remote (err e) = l
  enter l remote (ok id) = record l {
    authenticated = λ other. if bytes_eq remote other then some id else l.authenticated other;
  }

module _ {H E : Type 0} where
  abbrev pub record_event : Ledger → Event H E → Ledger
  record_event l (handles proto h) = l
  record_event l (unhandles proto) = l
  record_event l serves = record l { served = true }
  record_event l (arrives proto remote r) =
      if bytes_eq proto proto_auth && l.served then enter l remote r else l
  record_event l (dials opened r app) = l

  abbrev pub record_all : Ledger → List (Event H E) → Ledger
  record_all l [] = l
  record_all l (e ∷ es) = record_all (record_event l e) es
