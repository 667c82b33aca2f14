-- ===== src/Vterm/Control/Rights/Sizes.antt =====
-- vterm/control.go: a peer without the capability to resize, over a whole control stream.
use mosey.Base.{ℕ, ◌≡◌, refl, ◌∙◌, arith, true, false}
use mosey.Base.{List, [], ◌∷◌, Bool-cases, Option-cases, inl, inr}
use mosey.Base.{◌==◌, map, Bytes}
use mosey.Auth.Identity.{PeerIdentity, can_resize}
use mosey.Vterm.Mode.{Mode, mode_unspecified, mode_supersede, mode_exclusive}
use mosey.Vterm.Mode.{mode_primary_observer, mode_multi_write, mode_from_api}
use mosey.Vterm.Session.{SessionClient, Session, update_client, client_by_remote}
use mosey.Vterm.Session.{client_by_id, kick}
use mosey.Vterm.Session.Ops.{allow_write}
use mosey.Vterm.Session.Ops.{set_mode}
use mosey.Vterm.Session.Ops.{demote_remote, promote_client, kick_client, take_seat, seat_for}
use mosey.Vterm.Control.{ControlMessage, resize, signal, set_mode_to, demote, get_clients, promote}
use mosey.Vterm.Control.{kick_out, client_list, unknown, World, Outside, apply_signal}
use mosey.Vterm.Control.{switch_mode, control_step, handle_control}
use mosey.Vterm.Control.Rights.{handled}

-- What a resize may change.
abbrev pub geometry : SessionClient → ℕ × ℕ
geometry c = (c.cols, c.rows)

abbrev pub SameSizes : Session → Session → Type 0
SameSizes s t =
    (map geometry t.clients ≡ map geometry s.clients)
    × (t.winsize ≡ s.winsize)
    × (t.pending_resize ≡ s.pending_resize)

update_client-geometry :
    (id : ℕ) (f : SessionClient → SessionClient) (cs : List SessionClient)
    → ((c : SessionClient) → geometry (f c) ≡ geometry c)
    → map geometry (update_client id f cs) ≡ map geometry cs
unfolding update_client
update_client-geometry id f [] same = refl
update_client-geometry id f (c ∷ cs) same = elim (Bool-cases (c.id == id)) [
  | inl e ↦ rw (e, same c, update_client-geometry id f cs same) refl
  | inr n ↦ rw (n, update_client-geometry id f cs same) refl
]

SameSizes-refl : (s : Session) → SameSizes s s
SameSizes-refl s = (refl, refl, refl)

take_seat-SameSizes : (s : Session) (id : ℕ) → SameSizes s (take_seat s id)
take_seat-SameSizes s id = elim (Option-cases (client_by_id s.writer_id s.clients)) [
  | inl gone ↦ rw (gone, take_seat) (SameSizes-refl s)
  | inr (p, there) ↦
      rw (there, take_seat)
        (elim (Bool-cases (p.id == id)) [
          | inl e ↦ rw e (SameSizes-refl s)
          | inr n ↦ rw n (
            update_client-geometry s.writer_id (allow_write false) s.clients (λ c. refl),
            refl,
            refl,
          )
        ])
]

seat_for-SameSizes : (m : Mode) (s : Session) (id : ℕ) → SameSizes s (seat_for m s id)
seat_for-SameSizes mode_unspecified s id = SameSizes-refl s
seat_for-SameSizes mode_supersede s id = SameSizes-refl s
seat_for-SameSizes mode_exclusive s id = SameSizes-refl s
seat_for-SameSizes mode_primary_observer s id = take_seat-SameSizes s id
seat_for-SameSizes mode_multi_write s id = SameSizes-refl s

promote_client-SameSizes : (s : Session) (id : ℕ) → SameSizes s (promote_client s id).0
unfolding promote_client
promote_client-SameSizes s id = elim (Option-cases (client_by_id id s.clients)) [
  | inl gone ↦ rw (gone, promote_client) (SameSizes-refl s)
  | inr (c, there) ↦
      let k = seat_for-SameSizes s.mode s id in
      rw (there, promote_client)
        (
          update_client-geometry id (allow_write true) (seat_for s.mode s id).clients (λ d. refl)
              ∙ k.0,
          k.1,
          k.2,
        )
]

kick_client-SameSizes : (s : Session) (id : ℕ) → SameSizes s (kick_client s id).0
unfolding kick_client
kick_client-SameSizes s id = elim (Option-cases (client_by_id id s.clients)) [
  | inl gone ↦ rw (gone, kick_client) (SameSizes-refl s)
  | inr (c, there) ↦
      rw (there, kick_client) (update_client-geometry id kick s.clients (λ d. refl), refl, refl)
]

demote_remote-SameSizes : (s : Session) (remote : Bytes) → SameSizes s (demote_remote s remote).0
unfolding demote_remote
demote_remote-SameSizes s remote = elim (Option-cases (client_by_remote remote s.clients)) [
  | inl gone ↦ rw (gone, demote_remote) (SameSizes-refl s)
  | inr (c, there) ↦
      rw (there, demote_remote)
        (update_client-geometry c.id (allow_write false) s.clients (λ d. refl), refl, refl)
]

switch_mode-SameSizes : (w : World) (m : Mode) → SameSizes w.session (switch_mode w m).session
unfolding set_mode
switch_mode-SameSizes w mode_unspecified = SameSizes-refl w.session
switch_mode-SameSizes w mode_supersede = (refl, refl, refl)
switch_mode-SameSizes w mode_exclusive = (refl, refl, refl)
switch_mode-SameSizes w mode_primary_observer = (refl, refl, refl)
switch_mode-SameSizes w mode_multi_write = (refl, refl, refl)

control_step-SameSizes :
    (out : Outside) (who : PeerIdentity) (remote : Bytes) (w : World) (m : ControlMessage)
    → can_resize who ≡ false
    → SameSizes w.session (control_step out who remote w m).0.session
unfolding control_step apply_signal
control_step-SameSizes out who remote w (resize cols rows) e = rw e (SameSizes-refl w.session)
control_step-SameSizes out who remote w (signal kind) e = ground (arith, SameSizes-refl w.session)
control_step-SameSizes out who remote w (set_mode_to kind) e =
    ground (arith, SameSizes-refl w.session, switch_mode-SameSizes w (mode_from_api kind))
control_step-SameSizes out who remote w demote e = demote_remote-SameSizes w.session remote
control_step-SameSizes out who remote w get_clients e = ground (arith, SameSizes-refl w.session)
control_step-SameSizes out who remote w (promote id) e =
    ground (arith, SameSizes-refl w.session, promote_client-SameSizes w.session id)
control_step-SameSizes out who remote w (kick_out id) e =
    ground (arith, SameSizes-refl w.session, kick_client-SameSizes w.session id)
control_step-SameSizes out who remote w client_list e = SameSizes-refl w.session
control_step-SameSizes out who remote w unknown e = SameSizes-refl w.session

-- Whatever frames a peer sends that may not resize, the size of the PTY, the geometries of the clients
-- and the resizes cached for later attaches stay.
non_resizer_keeps_sizes :
    (who : PeerIdentity) (remote : Bytes) (w : World) (ms : List (Outside × ControlMessage))
    → can_resize who ≡ false
    → SameSizes w.session (handle_control who remote w ms).session
non_resizer_keeps_sizes who remote w ms e =
    handled who remote (λ u v. SameSizes u.session v.session) (λ u. SameSizes-refl u.session)
      (λ t u v p q. (q.0 ∙ p.0, q.1 ∙ p.1, q.2 ∙ p.2))
      (λ out u m. control_step-SameSizes out who remote u m e) w ms
