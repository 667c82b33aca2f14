-- ===== src/Examples/Sessions.antt =====
-- The theorems on sessions and control streams at concrete inputs.
use mosey.Base.{ℕ, ◌≤◌, ◌≡◌, refl, arith, List, [], ◌∷◌}
use mosey.Base.{◌++◌, codes, length, none, some, Bool, true, false}
use mosey.Base.{bytes_eq}
use mosey.Base.Words.{pos}
use mosey.Base.Dict.{insert, lookup, erase}
use mosey.Auth.Identity.{
  Stream, PeerIdentity, no_caps, can_write, can_resize, is_owner, identity_of,
}
use mosey.Streambuf.Ring.{new_output_ring, write, append_bytes}
use mosey.Streambuf.Ring.History.{Represents, write-Represents, new_output_ring-Represents}
use mosey.Vterm.Mode.{mode_primary_observer, mode_exclusive, mode_supersede}
use mosey.Vterm.Responder.{process, process_loop, process_byte, ground_byte}
use mosey.Vterm.Session.{SessionClient, Session, client_by_id, client_by_remote, latest_loop}
use mosey.Vterm.Session.{put_client, min_geometry, min_loop}
use mosey.Vterm.Session.Admit.{add_client, add_client_locked, admit, new_client, register}
use mosey.Vterm.Session.Ops.{apply_resize_for_remote, promote_client}
use mosey.Vterm.Session.{update_client}
use mosey.Vterm.Session.Step.{typed}
use mosey.Base.{Bytes}
use mosey.Vterm.Session.Replay.{typings, replayed}
use mosey.Streambuf.Ring.{from}
use mosey.Vterm.Session.Step.{Event, attaches, promotes, outputs, replays, run, step}
use mosey.Vterm.Session.Step.{new_session}
use mosey.Vterm.Session.Geometry.{IsLeast, min_geometry-IsLeast}
use mosey.Vterm.Session.Modes.{exclusive_one_client}
use mosey.Vterm.Session.Writers.{OneWriter}
use mosey.Vterm.Session.Writers.Runs.{one_writer, only_the_seat_types}
use mosey.Vterm.Session.Replay.{attach_gets_history, attach_race}
use mosey.Vterm.Control.{World, Outside, ControlMessage, resize, signal, set_mode_to, kick_out}
use mosey.Vterm.Control.{promote, handle_control}
use mosey.Vterm.Control.Rights.{Unruled, non_owner_rules_nothing}

abbrev kernel : ℕ → ℕ → Bool
kernel cols rows = true

abbrev writer : PeerIdentity
writer = record {
  label = codes "alice";
  caps = record { owner = false; write = true; resize = true };
}

abbrev reader : PeerIdentity
reader = record { label = codes "bob"; caps = no_caps }

abbrev alice : Stream
alice = record { remote_id = codes "A"; identity = some writer }

abbrev bob : Stream
bob = record { remote_id = codes "B"; identity = some writer }

abbrev two_attach : List Event
two_attach = attaches kernel alice ∷ attaches kernel bob ∷ promotes 2 ∷ []

one_writer_example : OneWriter (run (new_session mode_primary_observer) two_attach)
one_writer_example = one_writer two_attach (omega arith)

observed-writer : (run (new_session mode_primary_observer) two_attach).writer_id ≡ 2
unfolding run step new_session add_client add_client_locked admit register new_client put_client
    client_by_id promote_client identity_of can_write update_client min_geometry new_output_ring
    min_loop lookup erase
observed-writer = refl

only_the_seat_types_example :
    typed (run (new_session mode_primary_observer) two_attach) 1 true (codes "rm") (promotes 1 ∷ [])
    ≡ run (run (new_session mode_primary_observer) two_attach) (promotes 1 ∷ [])
unfolding run step new_session add_client add_client_locked admit register new_client put_client
    client_by_id promote_client identity_of can_write update_client min_geometry new_output_ring
    min_loop lookup erase
only_the_seat_types_example =
    only_the_seat_types two_attach (promotes 1 ∷ []) 1 true (codes "rm") (omega arith) refl
      (rw observed-writer (ground arith))

exclusive_one_client_example : length (run (new_session mode_exclusive) two_attach).clients ≤ 1
exclusive_one_client_example = exclusive_one_client two_attach

abbrev alice_client : SessionClient
alice_client = record {
  id = 1;
  remote = codes "A";
  identity = writer;
  out_ch = [];
  kicked = false;
  can_write = true;
  cols = 0;
  rows = 0;
  dropped = 0;
}

abbrev bob_client : SessionClient
bob_client = record {
  id = 2;
  remote = codes "B";
  identity = writer;
  out_ch = [];
  kicked = false;
  can_write = true;
  cols = 100;
  rows = 30;
  dropped = 0;
}

abbrev taken : Session
taken = record (new_session mode_exclusive) { clients = alice_client ∷ []; next_id = 1 }

taken-mode : taken.mode ≡ mode_exclusive
unfolding new_session
taken-mode = refl

min_geometry-IsLeast_example :
    IsLeast
      (λ c. c.cols)
      (alice_client ∷ bob_client ∷ [])
      (min_geometry (alice_client ∷ bob_client ∷ [])).0
    × IsLeast
        (λ c. c.rows)
        (alice_client ∷ bob_client ∷ [])
        (min_geometry (alice_client ∷ bob_client ∷ [])).1
min_geometry-IsLeast_example = min_geometry-IsLeast (alice_client ∷ bob_client ∷ [])

abbrev world : World
world = record { session = taken; signals = []; replies = [] }

abbrev outside : Outside
outside = record { setsize = kernel; child_running = true; reply_written = true }

abbrev attempts : List (Outside × ControlMessage)
attempts =
    (outside, set_mode_to 1)
    ∷ (outside, kick_out 1)
    ∷ (outside, signal 2)
    ∷ (outside, resize 10 10)
    ∷ (outside, promote 1)
    ∷ []

writer-is_owner : is_owner writer ≡ false
unfolding is_owner
writer-is_owner = refl

reader-can_write : can_write reader ≡ false
unfolding can_write
reader-can_write = refl

reader-can_resize : can_resize reader ≡ false
unfolding can_resize
reader-can_resize = refl

non_owner_rules_nothing_example :
    Unruled taken (handle_control writer (codes "A") world attempts).session
non_owner_rules_nothing_example =
    non_owner_rules_nothing writer (codes "A") world attempts writer-is_owner

abbrev replaying : Session
replaying = record (new_session mode_supersede) {
  output = (write (new_output_ring (pos 262144)) (codes "hello")).0;
}

replaying-Represents : Represents replaying.output (codes "hello")
replaying-Represents =
    (write-Represents (new_output_ring (pos 262144)) [] (codes "hello")
      (new_output_ring-Represents (pos 262144)) (omega arith)).0

replaying-capacity : replaying.output.capacity ≡ 262144
unfolding write append_bytes new_output_ring
replaying-capacity = refl

replaying-admits : (add_client kernel replaying alice).1 ≡ some alice_client
unfolding add_client add_client_locked admit register new_client new_session identity_of can_write
    lookup
replaying-admits = refl

abbrev typing : List (Bool × Bytes)
typing = (true, codes "x") ∷ (false, codes "y") ∷ []

attach_gets_history_example :
    client_by_id 1
      (step (run (run (step replaying (attaches kernel alice)) (typings typing)) (typings [])) (
        replays 1
          (from (run (step replaying (attaches kernel alice)) (typings typing)).output 0))).clients
    ≡ some (record alice_client { out_ch = codes "hello" ∷ [] })
attach_gets_history_example =
    attach_gets_history kernel replaying alice alice_client (codes "hello") typing []
      replaying-admits replaying-Represents (omega (arith, replaying-capacity)) (λ e. cc)

replaying-passes : (process replaying.da_resp (codes "!")).out ≡ codes "!"
unfolding new_session process process_loop process_byte ground_byte
replaying-passes = refl

attach_race_example :
    client_by_id 1
      (replayed (run replaying (attaches kernel alice ∷ outputs (codes "!") ∷ [])) 1).clients
    ≡ some (record alice_client { out_ch = codes "!" ∷ (codes "hello" ++ codes "!") ∷ [] })
attach_race_example =
    attach_race kernel replaying alice alice_client (codes "!") (codes "hello") (codes "!")
      replaying-admits (λ e. cc) replaying-passes (λ e. cc) replaying-Represents
      (omega (arith, replaying-capacity)) (omega arith)

resized-admits :
    (add_client kernel
      (apply_resize_for_remote kernel (new_session mode_supersede) (codes "B") 100 30).session
      bob).1
    ≡ some (record bob_client { id = 1 })
unfolding add_client add_client_locked admit register new_client new_session identity_of can_write
    apply_resize_for_remote client_by_remote latest_loop lookup insert bytes_eq
resized-admits = refl

nobody : client_by_remote (codes "B") (new_session mode_supersede).clients ≡ none
unfolding client_by_remote latest_loop new_session
nobody = refl
