-- ===== src/Vterm/Session/Admit.antt =====
-- vterm/session.go: addClient, the admission of a client under the session's mode.
use mosey.Base.{ℕ, ◌+◌, ◌%◌, ◌^◌, Bool, false, ◌&&◌, ◌||◌, Option, none, some, List, []}
use mosey.Base.{map, bytes_eq, length, ltb, ◌==◌, if◌then◌else◌}
use mosey.Base.Dict.{lookup, erase}
use mosey.Auth.Identity.{Stream, can_write, identity_of}
use mosey.Vterm.Mode.{Mode, mode_unspecified, mode_supersede, mode_exclusive}
use mosey.Vterm.Mode.{mode_primary_observer, mode_multi_write}
use mosey.Vterm.Session.{SessionClient, PendingResize, Session, client_by_id, put_client, kick}
use mosey.Vterm.Session.{min_geometry, apply_pty_size}

-- What the mode decides of an attach: who is kicked, the writer seat, and whether the client may type.
pub record Decision : Type 0 where
  pub clients : List SessionClient
  pub writer_id : ℕ
  pub can_write : Bool

-- The seat, cleared where its owner is gone.
abbrev pub seat : Session → ℕ
seat s = elim (client_by_id s.writer_id s.clients) [ none ↦ 0 | some c ↦ s.writer_id ]

-- The `switch` of addClientLocked; `none` is a refusal.
unfoldable pub admit : Mode → Session → Bool → Option Decision
admit mode_exclusive s w =
    if ltb 0 (length s.clients)
    then none
    else some (record { clients = s.clients; writer_id = s.writer_id; can_write = w })
admit mode_supersede s w =
    some (record { clients = map kick s.clients; writer_id = s.writer_id; can_write = w })
admit mode_primary_observer s w =
    some (record { clients = s.clients; writer_id = seat s; can_write = w && seat s == 0 })
admit mode_multi_write s w =
    some (record { clients = s.clients; writer_id = s.writer_id; can_write = w })
admit mode_unspecified s w = none

abbrev pub holds_seat : Mode → Bool → Bool
holds_seat mode_primary_observer w = w
holds_seat mode_exclusive w = false
holds_seat mode_supersede w = false
holds_seat mode_multi_write w = false
holds_seat mode_unspecified w = false

-- A resize that came before the client's stream.
abbrev pub pending_cols : Option PendingResize → ℕ
pending_cols none = 0
pending_cols (some p) = p.cols

abbrev pub pending_rows : Option PendingResize → ℕ
pending_rows none = 0
pending_rows (some p) = p.rows

unfoldable pub new_client : Session → Stream → Bool → SessionClient
new_client s stream w =
    let pending = lookup bytes_eq stream.remote_id s.pending_resize in
    record {
      id = (s.next_id + 1) % 2 ^ 64;
      remote = stream.remote_id;
      identity = identity_of stream;
      out_ch = [];
      kicked = false;
      can_write = w;
      cols = pending_cols pending;
      rows = pending_rows pending;
      dropped = 0;
    }

-- The client, if it was admitted, and the size to give the PTY behind the lock, or 0 by 0.
pub record Added : Type 0 where
  pub session : Session
  pub client : Option SessionClient
  pub cols : ℕ
  pub rows : ℕ

-- addClientLocked behind its `switch`.
unfoldable pub register : Session → Stream → Decision → Added
register s stream d =
    let c = new_client s stream d.can_write in
    let clients = put_client c d.clients in
    let size = if c.cols == 0 || c.rows == 0 then (0, 0) else min_geometry clients in
    record {
      session = record s {
        next_id = c.id;
        clients = clients;
        writer_id = if holds_seat s.mode d.can_write then c.id else d.writer_id;
        pending_resize = erase bytes_eq stream.remote_id s.pending_resize;
      };
      client = some c;
      cols = size.0;
      rows = size.1;
    }

abbrev pub decided : Session → Stream → Option Decision → Added
decided s stream none = record { session = s; client = none; cols = 0; rows = 0 }
decided s stream (some d) = register s stream d

-- addClientLocked
unfoldable pub add_client_locked : Session → Stream → Added
add_client_locked s stream = decided s stream (admit s.mode s (can_write (identity_of stream)))

-- addClient behind the lock: a failing ioctl is only logged.
abbrev pub sized : (ℕ → ℕ → Bool) → Added → Session × Option SessionClient
sized setsize a = (
  if a.cols == 0 || a.rows == 0
      then a.session
      else (apply_pty_size setsize a.session a.cols a.rows).0,
  a.client,
)

-- addClient
unfoldable pub add_client : (ℕ → ℕ → Bool) → Session → Stream → Session × Option SessionClient
add_client setsize s stream = sized setsize (add_client_locked s stream)
