-- ===== src/Vterm/Session/Step.antt =====
-- vterm/: a session under any sequence of events. Each event is one critical section of `s.mu`, or one
-- thing that happens outside it; goroutines interleave as the sequence says.
use mosey.Base.{ℕ, Bool, List, [], ◌∷◌, Bytes}
use mosey.Base.Words.{pos}
use mosey.Auth.Identity.{Stream}
use mosey.Streambuf.Ring.{Replayed, new_output_ring}
use mosey.Vterm.Mode.{Mode, mode_unspecified, mode_supersede, mode_exclusive}
use mosey.Vterm.Mode.{mode_primary_observer, mode_multi_write}
use mosey.Vterm.Responder.{fresh}
use mosey.Vterm.Session.{Session, output_ring_capacity}
use mosey.Vterm.Session.Admit.{add_client}
use mosey.Vterm.Session.Ops.{apply_resize_for_remote, run_spawned, demote_remote, promote_client}
use mosey.Vterm.Session.Ops.{kick_client, remove_client, shutdown}
use mosey.Vterm.Session.Stream.{pump_round, replay_to, input_allowed, write_input}

-- The events that leave the mode alone, each with what the kernel answers to its ioctl. `types` is the
-- write of an input goroutine, whatever its earlier read of `canWrite` has said, and `replays` the send of
-- what an earlier read of the ring has given.
pub data Event : Type 0 where
  attaches : (ℕ → ℕ → Bool) → Stream → Event
  replays : ℕ → Replayed → Event
  resizes : (ℕ → ℕ → Bool) → Bytes → ℕ → ℕ → Event
  late_resize : (ℕ → ℕ → Bool) → ℕ → Event
  demotes : Bytes → Event
  promotes kicks leaves : ℕ → Event
  outputs : Bytes → Event
  types : Bool → Bytes → Event
  shuts_down : Event

unfoldable pub step : Session → Event → Session
step s (attaches setsize stream) = (add_client setsize s stream).0
step s (replays id r) = replay_to s id r
step s (resizes setsize remote cols rows) =
    (apply_resize_for_remote setsize s remote cols rows).session
step s (late_resize setsize n) = run_spawned setsize s n
step s (demotes remote) = (demote_remote s remote).0
step s (promotes id) = (promote_client s id).0
step s (kicks id) = (kick_client s id).0
step s (leaves id) = remove_client s id
step s (outputs chunk) = pump_round s chunk
step s (types may bytes) = write_input s may bytes
step s shuts_down = shutdown s

unfoldable pub run : Session → List Event → Session
run s [] = s
run s (e ∷ es) = run (step s e) es

-- One round of the input goroutine of a client: the read of `canWrite`, what else happens meanwhile, and
-- the write.
abbrev pub typed : Session → ℕ → Bool → Bytes → List Event → Session
typed s id left bytes between = write_input (run s between) (input_allowed s id left) bytes

-- The mode that Run starts with: ModeSupersede where none is given.
abbrev pub started_mode : Mode → Mode
started_mode mode_unspecified = mode_supersede
started_mode mode_supersede = mode_supersede
started_mode mode_exclusive = mode_exclusive
started_mode mode_primary_observer = mode_primary_observer
started_mode mode_multi_write = mode_multi_write

-- The session that Run sets up, in the mode given; the PTY starts at 80 by 24.
unfoldable pub new_session : Mode → Session
new_session mode = record {
  mode = started_mode mode;
  output = new_output_ring (pos output_ring_capacity);
  da_resp = fresh;
  next_id = 0;
  clients = [];
  writer_id = 0;
  pending_resize = [];
  winsize = (80, 24);
  pty_input = [];
  spawned = [];
}
