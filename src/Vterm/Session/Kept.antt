-- ===== src/Vterm/Session/Kept.antt =====
-- vterm/session.go: no event changes the mode, and each takes up one client id at most.
use mosey.Base.{ℕ, ◌+◌, ◌≤◌, ◌≡◌, refl, arith, Bool}
use mosey.Base.{inl, inr, List, Option, none, some, Option-cases}
use mosey.Base.{Bytes}
use mosey.Auth.Identity.{Stream, can_write, identity_of}
use mosey.Vterm.Mode.{Mode, mode_unspecified, mode_supersede, mode_exclusive}
use mosey.Vterm.Mode.{mode_primary_observer, mode_multi_write}
use mosey.Vterm.Session.{
  SessionClient, Session, apply_pty_size, client_by_remote, min_geometry, update_client,
}
use mosey.Vterm.Session.Admit.{
  Decision, admit, register, new_client, decided, add_client_locked, add_client,
}
use mosey.Vterm.Session.Ops.{
  apply_resize_for_remote, recompute_geometry, run_spawned, take_nth, set_geometry,
}
use mosey.Vterm.Session.Ops.{demote_remote, promote_client, kick_client, remove_client, broadcast}
use mosey.Vterm.Session.Ops.{shutdown, resize_pty, seat_for}
use mosey.Vterm.Session.Step.{Event, attaches, replays, resizes, late_resize, demotes, promotes}
use mosey.Vterm.Session.Step.{kicks, leaves, outputs, types, shuts_down, step}
use mosey.Vterm.Session.Stream.{pump_round}

-- The mode stays, and an event takes up one id at most.
abbrev pub Kept : Session → Session → Type 0
Kept s t = (t.mode ≡ s.mode) × (t.next_id ≤ s.next_id + 1)

apply_pty_size-Kept :
    (setsize : ℕ → ℕ → Bool) (s : Session) (cols rows : ℕ)
    → ((apply_pty_size setsize s cols rows).0.mode ≡ s.mode)
      × ((apply_pty_size setsize s cols rows).0.next_id ≡ s.next_id)
unfolding apply_pty_size
apply_pty_size-Kept setsize s cols rows = ground arith

new_client-id :
    (s : Session) (stream : Stream) (w : Bool) → (new_client s stream w).id ≤ s.next_id + 1
unfolding new_client
new_client-id s stream w = omega arith

decided-Kept :
    (s : Session) (stream : Stream) (d : Option Decision) → Kept s (decided s stream d).session
unfolding register
decided-Kept s stream none = (refl, omega arith)
decided-Kept s stream (some d) = (refl, new_client-id s stream d.can_write)

add_client-Kept :
    (setsize : ℕ → ℕ → Bool) (s : Session) (stream : Stream)
    → Kept s (add_client setsize s stream).0
unfolding add_client add_client_locked
add_client-Kept setsize s stream = ground (
  arith,
  decided-Kept s stream (admit s.mode s (can_write (identity_of stream))),
  apply_pty_size-Kept setsize (add_client_locked s stream).session (add_client_locked s stream).cols
      (add_client_locked s stream).rows,
)

resize_pty-Kept :
    (setsize : ℕ → ℕ → Bool) (s : Session) (cols rows : ℕ)
    → Kept s (resize_pty setsize s (cols, rows)).session
resize_pty-Kept setsize s cols rows = ground (arith, apply_pty_size-Kept setsize s cols rows)

seat_for-Kept :
    (m : Mode) (s : Session) (id : ℕ)
    → ((seat_for m s id).mode ≡ s.mode) × ((seat_for m s id).next_id ≡ s.next_id)
seat_for-Kept mode_unspecified s id = (refl, refl)
seat_for-Kept mode_supersede s id = (refl, refl)
seat_for-Kept mode_exclusive s id = (refl, refl)
seat_for-Kept mode_primary_observer s id = (refl, refl)
seat_for-Kept mode_multi_write s id = (refl, refl)

apply_resize-Kept :
    (setsize : ℕ → ℕ → Bool) (s : Session) (remote : Bytes) (cols rows : ℕ)
    → Kept s (apply_resize_for_remote setsize s remote cols rows).session
unfolding apply_resize_for_remote
apply_resize-Kept setsize s remote cols rows =
    elim (Option-cases (client_by_remote remote s.clients)) [
      | inl gone ↦ rw (gone, apply_resize_for_remote) (refl, omega arith)
      | inr (c, there) ↦
          rw (there, apply_resize_for_remote)
            (resize_pty-Kept setsize _ (min_geometry (clients c)).0 (min_geometry (clients c)).1)
    ]
  where
    clients : SessionClient → List SessionClient
    clients c = update_client c.id (set_geometry cols rows) s.clients

run_spawned-Kept : (setsize : ℕ → ℕ → Bool) (s : Session) (n : ℕ) → Kept s (run_spawned setsize s n)
unfolding run_spawned
run_spawned-Kept setsize s n = elim (Option-cases (take_nth n s.spawned)) [
  | inl gone ↦ rw (gone, run_spawned) (refl, omega arith)
  | inr (((cols, rows), rest), there) ↦
      rw (there, run_spawned)
        (let k = apply_pty_size-Kept setsize (record s { spawned = rest }) cols rows in
          (k.0, omega (arith, k.1)))
]

promote_client-Kept : (s : Session) (id : ℕ) → Kept s (promote_client s id).0
unfolding promote_client
promote_client-Kept s id = ground (arith, seat_for-Kept s.mode s id)

pub step-Kept : (s : Session) (e : Event) → Kept s (step s e)
unfolding step
step-Kept s (attaches setsize stream) = add_client-Kept setsize s stream
step-Kept s (replays id r) = ground arith
step-Kept s (resizes setsize remote cols rows) = apply_resize-Kept setsize s remote cols rows
step-Kept s (late_resize setsize n) = run_spawned-Kept setsize s n
step-Kept s (demotes remote) = unfold demote_remote in ground arith
step-Kept s (promotes id) = promote_client-Kept s id
step-Kept s (kicks id) = unfold kick_client in ground arith
step-Kept s (leaves id) = unfold remove_client recompute_geometry in ground arith
step-Kept s (outputs chunk) = unfold pump_round broadcast in ground arith
step-Kept s (types may bytes) = ground arith
step-Kept s shuts_down = unfold shutdown in (refl, omega arith)
