-- ===== src/Vterm/Session/Ops.antt =====
-- vterm/session.go: the operations on the registry behind admission.
use mosey.Base.{ℕ, ◌+◌, ◌-◌, ◌%◌, ◌^◌, Bool, true, false, ◌||◌, Option, none, some, List, []}
use mosey.Base.{◌∷◌, ◌++◌, map, Bytes, bytes_eq, length, ltb, ◌==◌, if◌then◌else◌}
use mosey.Base.Dict.{insert}
use mosey.Vterm.Mode.{Mode, mode_unspecified, mode_supersede, mode_exclusive}
use mosey.Vterm.Mode.{mode_primary_observer, mode_multi_write}
use mosey.Vterm.Session.{SessionClient, Session, client_by_id, delete_client}
use mosey.Vterm.Session.{update_client, client_by_remote, kick, min_geometry, apply_pty_size}
use mosey.Vterm.Session.{client_buffer_chunks}

-- The result of applyResizeForRemote: the size applied, 0 by 0 for none, and whether the ioctl failed.
pub record Resized : Type 0 where
  pub session : Session
  pub cols : ℕ
  pub rows : ℕ
  pub failed : Bool

abbrev pub set_geometry : ℕ → ℕ → SessionClient → SessionClient
set_geometry cols rows c = record c { cols = cols; rows = rows }

-- applyResizeForRemote behind the lock.
abbrev pub resize_pty : (ℕ → ℕ → Bool) → Session → ℕ × ℕ → Resized
resize_pty setsize s (cols, rows) =
    if cols == 0 || rows == 0
    then record { session = s; cols = 0; rows = 0; failed = false }
    else if (apply_pty_size setsize s cols rows).1
    then record {
      session = (apply_pty_size setsize s cols rows).0;
      cols = cols;
      rows = rows;
      failed = false;
    }
    else record { session = s; cols = 0; rows = 0; failed = true }

-- applyResizeForRemote
unfoldable pub apply_resize_for_remote : (ℕ → ℕ → Bool) → Session → Bytes → ℕ → ℕ → Resized
apply_resize_for_remote setsize s remote cols rows = elim (client_by_remote remote s.clients) [
  | none ↦ record {
    session = record s {
      pending_resize =
          insert bytes_eq remote (record { cols = cols; rows = rows }) s.pending_resize;
    };
    cols = 0;
    rows = 0;
    failed = false;
  }
  | some c ↦
      let clients = update_client c.id (set_geometry cols rows) s.clients in
      resize_pty setsize (record s { clients = clients }) (min_geometry clients)
]

-- recomputeGeometryAfterRemoveLocked: the resize is left to a goroutine.
unfoldable pub recompute_geometry : Session → Session
recompute_geometry s =
    let size = min_geometry s.clients in
    if size.0 == 0 || size.1 == 0 then s else record s { spawned = s.spawned ++ size ∷ [] }

-- One of the goroutines runs; the scheduler chooses which.
unfoldable pub take_nth : ℕ → List (ℕ × ℕ) → Option ((ℕ × ℕ) × List (ℕ × ℕ))
take_nth n [] = none
take_nth n (x ∷ xs) =
    if n == 0
    then some (x, xs)
    else elim (take_nth (n - 1) xs) [ none ↦ none | some (y, ys) ↦ some (y, x ∷ ys) ]

unfoldable pub run_spawned : (ℕ → ℕ → Bool) → Session → ℕ → Session
unfolding take_nth
run_spawned setsize s n = elim (take_nth n s.spawned) [
  | none ↦ s
  | some ((cols, rows), rest) ↦ (apply_pty_size setsize (record s { spawned = rest }) cols rows).0
]

-- setMode
unfoldable pub set_mode : Session → Mode → Session × Mode
set_mode s m = (record s { mode = m }, s.mode)

abbrev pub allow_write : Bool → SessionClient → SessionClient
allow_write w c = record c { can_write = w }

-- demoteRemote
unfoldable pub demote_remote : Session → Bytes → Session × Bool
demote_remote s remote = elim (client_by_remote remote s.clients) [
  | none ↦ (s, false)
  | some c ↦ (
    record s {
      clients = update_client c.id (allow_write false) s.clients;
      writer_id = if s.writer_id == c.id then 0 else s.writer_id;
    },
    true,
  )
]

-- clientSnapshot
pub record ClientSnapshot : Type 0 where
  pub id : ℕ
  pub label : Bytes
  pub can_write : Bool
  pub cols : ℕ
  pub rows : ℕ

abbrev pub snapshot_of : SessionClient → ClientSnapshot
snapshot_of c = record {
  id = c.id;
  label = c.identity.label;
  can_write = c.can_write;
  cols = c.cols;
  rows = c.rows;
}

-- listClients
unfoldable pub list_clients : Session → List ClientSnapshot
list_clients s = map snapshot_of s.clients

-- The writer seat goes to `id`; the client that held it, if another one and still there, may not type.
abbrev pub take_seat : Session → ℕ → Session
take_seat s id = record s {
  clients = elim (client_by_id s.writer_id s.clients) [
    | none ↦ s.clients
    | some prev ↦
        if prev.id == id then s.clients else update_client s.writer_id (allow_write false) s.clients
  ];
  writer_id = id;
}

abbrev pub seat_for : Mode → Session → ℕ → Session
seat_for mode_primary_observer s id = take_seat s id
seat_for mode_exclusive s id = s
seat_for mode_supersede s id = s
seat_for mode_multi_write s id = s
seat_for mode_unspecified s id = s

-- promoteClient
unfoldable pub promote_client : Session → ℕ → Session × Bool
promote_client s id = elim (client_by_id id s.clients) [
  | none ↦ (s, false)
  | some target ↦
      let t = seat_for s.mode s id in
      (record t { clients = update_client id (allow_write true) t.clients }, true)
]

-- kickClient: the entry stays until the client's own goroutine removes it.
unfoldable pub kick_client : Session → ℕ → Session × Bool
kick_client s id = elim (client_by_id id s.clients) [
  | none ↦ (s, false)
  | some c ↦ (record s { clients = update_client id kick s.clients }, true)
]

-- removeClient
unfoldable pub remove_client : Session → ℕ → Session
remove_client s id = recompute_geometry (record s {
  clients = delete_client id s.clients;
  writer_id = if s.writer_id == id then 0 else s.writer_id;
})

-- The `select` of broadcast: a full channel loses the chunk.
abbrev pub offer : Bytes → SessionClient → SessionClient
offer chunk c =
    if ltb (length c.out_ch) client_buffer_chunks
    then record c { out_ch = c.out_ch ++ chunk ∷ [] }
    else record c { dropped = (c.dropped + 1) % 2 ^ 64 }

-- broadcast
unfoldable pub broadcast : Session → Bytes → Session
broadcast s chunk = record s { clients = map (offer chunk) s.clients }

-- shutdown
unfoldable pub shutdown : Session → Session
shutdown s = record s { clients = []; writer_id = 0 }
