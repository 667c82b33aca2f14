-- ===== src/Vterm/Session/Writers/Runs.antt =====
-- vterm/session.go in ModePrimaryObserver, under any sequence of events.
use mosey.Base.{ℕ, ◌+◌, ◌^◌, ◌<◌, ◌≡◌, ◌≢◌, refl, sym, ◌∙◌, arith}
use mosey.Base.{inl, inr, List, [], ◌∷◌, Bool-cases, length}
use mosey.Base.{Bytes}
use mosey.Vterm.Mode.{mode_primary_observer}
use mosey.Vterm.Session.{Session, client_by_id}
use mosey.Vterm.Session.Ops.{shutdown}
use mosey.Vterm.Session.Step.{Event, attaches, replays, resizes, late_resize, demotes, promotes}
use mosey.Vterm.Session.Step.{kicks, leaves, outputs, types, shuts_down, step, run, new_session}
use mosey.Vterm.Session.Stream.{input_allowed, write_input}
use mosey.Vterm.Session.Step.{typed}
use mosey.Vterm.Session.{SessionClient}
use mosey.Base.{Bool, false, some, ap}
use mosey.Vterm.Session.Writers.{Seated, OneWriter, add_client-OneWriter}
use mosey.Vterm.Session.Kept.{step-Kept}
use mosey.Vterm.Session.Writers.Ops
use mosey.Vterm.Session.Registry.{client_by_id-some, client_by_id-All}

step-OneWriter :
    (s : Session) (e : Event)
    → s.mode ≡ mode_primary_observer
    → s.next_id + 1 < 2 ^ 64
    → OneWriter s
    → OneWriter (step s e)
unfolding step
step-OneWriter s (attaches setsize stream) m room a = add_client-OneWriter setsize s stream m room a
step-OneWriter s (replays id r) m room a = Ops.replay_to-OneWriter s id r a
step-OneWriter s (resizes setsize remote cols rows) m room a =
    Ops.apply_resize-OneWriter setsize s remote cols rows a
step-OneWriter s (late_resize setsize n) m room a = Ops.run_spawned-OneWriter setsize s n a
step-OneWriter s (demotes remote) m room a = Ops.demote_remote-OneWriter s remote a
step-OneWriter s (promotes id) m room a = Ops.promote_client-OneWriter s id m a
step-OneWriter s (kicks id) m room a = Ops.kick_client-OneWriter s id a
step-OneWriter s (leaves id) m room a = Ops.remove_client-OneWriter s id a
step-OneWriter s (outputs chunk) m room a = Ops.pump_round-OneWriter s chunk a
step-OneWriter s (types may bytes) m room a = Ops.write_input-OneWriter s may bytes a
step-OneWriter s shuts_down m room a = unfold shutdown in tt

run-OneWriter :
    (s : Session) (es : List Event)
    → s.mode ≡ mode_primary_observer
    → s.next_id + length es < 2 ^ 64
    → OneWriter s
    → OneWriter (run s es)
unfolding run
run-OneWriter s [] m room a = a
run-OneWriter s (e ∷ es) m room a =
    let (mode, next) = step-Kept s e in
    run-OneWriter (step s e) es (mode ∙ m) (omega arith) (step-OneWriter s e m (omega arith) a)

-- A session started in ModePrimaryObserver, after any events but a change of mode (fewer than 2^64):
-- a client that may type holds the writer seat, so there is one such client at most.
pub one_writer :
    (es : List Event) → length es < 2 ^ 64 → OneWriter (run (new_session mode_primary_observer) es)
unfolding new_session
one_writer es h = run-OneWriter (new_session mode_primary_observer) es refl (omega arith) tt

-- The check of a registered client that does not hold the seat.
refused :
    (s : Session) (id : ℕ) (left : Bool) (c : SessionClient)
    → OneWriter s
    → client_by_id id s.clients ≡ some c
    → id ≢ s.writer_id
    → input_allowed s id left ≡ false
unfolding input_allowed
refused s id left c a there other = elim (Bool-cases c.can_write) [
  | inl may ↦ absurd (
      other (
        sym (client_by_id-some id s.clients c there)
        ∙ (client_by_id-All (Seated s.writer_id) id s.clients c there a).1 may))
  | inr may_not ↦ rw (there, input_allowed) may_not
]

-- In a session started in ModePrimaryObserver, after any events but a change of mode (fewer than 2^64):
-- what a client types that is registered and does not hold the writer seat when its goroutine reads
-- `canWrite` never reaches the PTY, whatever happens between that read and the write, a promotion of that
-- client included.
pub only_the_seat_types :
    (es between : List Event) (id : ℕ) (left : Bool) (bytes : Bytes) {c : SessionClient}
    → length es < 2 ^ 64
    → client_by_id id (run (new_session mode_primary_observer) es).clients ≡ some c
    → id ≢ (run (new_session mode_primary_observer) es).writer_id
    → typed (run (new_session mode_primary_observer) es) id left bytes between
      ≡ run (run (new_session mode_primary_observer) es) between
only_the_seat_types es between id left bytes {c} h there other =
    let s = run (new_session mode_primary_observer) es in
    ap (λ may. write_input (run s between) may bytes)
      (refused s id left c (one_writer es h) there other)
