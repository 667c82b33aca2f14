-- ===== src/Vterm/Session.antt =====
-- vterm/session.go and vterm/vterm.go: the state of a session and the look-ups in its registry.
-- A method that holds `s.mu` is one function from session to session; what happens outside the lock
-- (a winsize ioctl, a goroutine) is a function of its own. A Go map is a list without two entries
-- for one key; its order stands for the order in which Go happens to iterate.
pub mod Admit
pub mod Ops
pub mod Step
pub mod Registry
pub mod Kept
pub mod Writers
pub mod Modes
pub mod Geometry
pub mod Replay
pub mod Resize
pub mod Stream
use mosey.Base.{ℕ, ◌%◌, ◌^◌, Bool, true, false, ◌||◌, Option, none, some}
use mosey.Base.{List, [], ◌∷◌, Bytes, bytes_eq, ltb, ◌==◌, if◌then◌else◌}
use mosey.Base.Words.{ltb_i64}
use mosey.Auth.Identity.{PeerIdentity}
use mosey.Streambuf.Ring.{OutputRing}
use mosey.Vterm.Mode.{Mode}
use mosey.Vterm.Responder.{DaResponder}

-- outputRingCapacity, clientBufferChunks
abbrev pub output_ring_capacity : ℕ
output_ring_capacity = 262144

abbrev pub client_buffer_chunks : ℕ
client_buffer_chunks = 256

-- sessionClient. `out_ch` holds the chunks that wait in the channel, and `kicked` says that `done`
-- is closed. A geometry of 0 means that none was reported.
pub record SessionClient : Type 0 where
  pub id : ℕ
  pub remote : Bytes
  pub identity : PeerIdentity
  pub out_ch : List Bytes
  pub kicked : Bool
  pub can_write : Bool
  pub cols : ℕ
  pub rows : ℕ
  pub dropped : ℕ

-- pendingResize
pub record PendingResize : Type 0 where
  pub cols : ℕ
  pub rows : ℕ

-- Session, with the state of the PTY that the kernel keeps: its window size, the bytes written to it,
-- and the resizes that goroutines have still to apply.
pub record Session : Type 0 where
  pub mode : Mode
  pub output : OutputRing
  pub da_resp : DaResponder
  pub next_id : ℕ
  pub clients : List SessionClient
  pub writer_id : ℕ
  pub pending_resize : List (Bytes × PendingResize)
  pub winsize : ℕ × ℕ
  pub pty_input : Bytes
  pub spawned : List (ℕ × ℕ)

-- `s.clients[id]`
unfoldable pub client_by_id : ℕ → List SessionClient → Option SessionClient
client_by_id id [] = none
client_by_id id (c ∷ cs) = if c.id == id then some c else client_by_id id cs

-- `s.clients[c.id] = c`
unfoldable pub put_client : SessionClient → List SessionClient → List SessionClient
put_client c [] = c ∷ []
put_client c (d ∷ ds) = if d.id == c.id then c ∷ ds else d ∷ put_client c ds

-- `delete(s.clients, id)`
unfoldable pub delete_client : ℕ → List SessionClient → List SessionClient
delete_client id [] = []
delete_client id (c ∷ cs) = let rest = delete_client id cs in if c.id == id then rest else c ∷ rest

-- A change through the pointer to the client `id`.
unfoldable pub update_client :
    ℕ → (SessionClient → SessionClient) → List SessionClient → List SessionClient
update_client id f [] = []
update_client id f (c ∷ cs) = (if c.id == id then f c else c) ∷ update_client id f cs

-- kick: closing `done` twice is harmless.
abbrev pub kick : SessionClient → SessionClient
kick c = record c { kicked = true }

-- The loop of clientByRemoteIDLocked.
abbrev pub later_of : Option SessionClient → SessionClient → Option SessionClient
later_of none c = some c
later_of (some l) c = if ltb_i64 l.id c.id then some c else some l

unfoldable pub latest_loop :
    Bytes → Option SessionClient → List SessionClient → Option SessionClient
latest_loop remote latest [] = latest
latest_loop remote latest (c ∷ cs) =
    latest_loop remote (if bytes_eq c.remote remote then later_of latest c else latest) cs

-- clientByRemoteIDLocked
unfoldable pub client_by_remote : Bytes → List SessionClient → Option SessionClient
client_by_remote remote cs = latest_loop remote none cs

-- The loop of minGeometryLocked, over the minima so far, 0 for none.
abbrev pub min_seen : ℕ → ℕ → ℕ
min_seen best n = if best == 0 || ltb n best then n else best

abbrev pub min_step : ℕ × ℕ → SessionClient → ℕ × ℕ
min_step (c, r) cl =
    if cl.cols == 0 || cl.rows == 0 then (c, r) else (min_seen c cl.cols, min_seen r cl.rows)

unfoldable pub min_loop : ℕ × ℕ → List SessionClient → ℕ × ℕ
min_loop best [] = best
min_loop best (cl ∷ cls) = min_loop (min_step best cl) cls

-- minGeometryLocked
unfoldable pub min_geometry : List SessionClient → ℕ × ℕ
min_geometry cls = min_loop (0, 0) cls

-- applyPTYSize: the ioctl takes 16-bit numbers. `setsize` is the kernel's answer.
unfoldable pub apply_pty_size : (ℕ → ℕ → Bool) → Session → ℕ → ℕ → Session × Bool
apply_pty_size setsize s cols rows =
    if setsize (cols % 2 ^ 16) (rows % 2 ^ 16)
    then (record s { winsize = (cols % 2 ^ 16, rows % 2 ^ 16) }, true)
    else (s, false)
