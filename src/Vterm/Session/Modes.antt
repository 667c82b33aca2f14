-- ===== src/Vterm/Session/Modes.antt =====
-- vterm/session.go: what ModeExclusive and ModeSupersede promise of an attach.
use mosey.Base.{ℕ, ◌≤◌, ◌≡◌, ◌≢◌, refl, sym, ◌∙◌, ap, subst, arith, Bool, true, false}
use mosey.Base.{◌⊎◌, inl, inr, List, [], ◌∷◌, none, some, Option-cases, All, length}
use mosey.Base.{Bytes, map}
use mosey.Auth.Identity.{Stream, can_write, identity_of}
use mosey.Vterm.Mode.{Mode, mode_unspecified, mode_supersede, mode_exclusive}
use mosey.Vterm.Mode.{mode_primary_observer, mode_multi_write}
use mosey.Vterm.Responder.{process}
use mosey.Vterm.Session.{SessionClient, Session, client_by_remote, kick}
use mosey.Vterm.Session.{apply_pty_size, min_geometry, update_client}
use mosey.Vterm.Session.Admit.{Decision, admit, register, new_client, decided}
use mosey.Vterm.Session.Admit.{add_client_locked, add_client, sized}
use mosey.Vterm.Session.Ops.{apply_resize_for_remote, recompute_geometry, run_spawned, take_nth}
use mosey.Vterm.Session.Ops.{demote_remote, promote_client, kick_client, remove_client, broadcast}
use mosey.Vterm.Session.Ops.{shutdown, resize_pty, seat_for, set_geometry, allow_write}
use mosey.Vterm.Session.Ops.{offer}
use mosey.Vterm.Session.Registry.{length-put_client, length-delete_client, length-update_client}
use mosey.Vterm.Session.Registry.{All-put_client}
use mosey.Vterm.Session.Kept.{step-Kept}
use mosey.Vterm.Session.Step.{Event, attaches, replays, resizes, late_resize, demotes, promotes}
use mosey.Vterm.Session.Step.{kicks, leaves, outputs, types, shuts_down, step, run, new_session}
use mosey.Vterm.Session.Stream.{pump_round}

apply_pty_size-clients :
    (setsize : ℕ → ℕ → Bool) (s : Session) (cols rows : ℕ)
    → (apply_pty_size setsize s cols rows).0.clients ≡ s.clients
unfolding apply_pty_size
apply_pty_size-clients setsize s cols rows = ground arith

add_client-clients :
    (setsize : ℕ → ℕ → Bool) (s : Session) (stream : Stream)
    → (add_client setsize s stream).0.clients ≡ (add_client_locked s stream).session.clients
unfolding add_client
add_client-clients setsize s stream = ground (
  arith,
  apply_pty_size-clients setsize (add_client_locked s stream).session
      (add_client_locked s stream).cols (add_client_locked s stream).rows,
)

length-map :
    (f : SessionClient → SessionClient) (cs : List SessionClient) → length (map f cs) ≡ length cs
length-map f [] = refl
length-map f (c ∷ cs) = omega (arith, length-map f cs)

exclusive_admission :
    (s : Session) (w : Bool)
    → (admit mode_exclusive s w ≡ none)
      ⊎ ((s.clients ≡ [])
          × (admit mode_exclusive s w
              ≡ some (record { clients = []; writer_id = s.writer_id; can_write = w })))
unfolding admit
exclusive_admission s w = ground arith

exclusive_length :
    (s : Session) (stream : Stream) (w : Bool)
    → length s.clients ≤ 1
    → length (decided s stream (admit mode_exclusive s w)).session.clients ≤ 1
unfolding register
exclusive_length s stream w h = elim (exclusive_admission s w) [
  | inl refused ↦ rw refused h
  | inr (empty, admitted) ↦
      rw admitted (omega (arith, length-put_client (new_client s stream w) []))
]

add_client-exclusive :
    (setsize : ℕ → ℕ → Bool) (s : Session) (stream : Stream)
    → s.mode ≡ mode_exclusive
    → length s.clients ≤ 1
    → length (add_client setsize s stream).0.clients ≤ 1
unfolding add_client_locked
add_client-exclusive setsize s stream e h = rw (add_client-clients setsize s stream) (
    subst
      (λ m.
        length (decided s stream (admit m s (can_write (identity_of stream)))).session.clients ≤ 1)
      (sym e) (exclusive_length s stream (can_write (identity_of stream)) h))

seat_for-length :
    (m : Mode) (s : Session) (id : ℕ) → length (seat_for m s id).clients ≡ length s.clients
seat_for-length mode_unspecified s id = refl
seat_for-length mode_supersede s id = refl
seat_for-length mode_exclusive s id = refl
seat_for-length mode_multi_write s id = refl
seat_for-length mode_primary_observer s id =
    ground (arith, length-update_client s.writer_id (allow_write false) s.clients)

resize_pty-clients :
    (setsize : ℕ → ℕ → Bool) (s : Session) (cols rows : ℕ)
    → (resize_pty setsize s (cols, rows)).session.clients ≡ s.clients
resize_pty-clients setsize s cols rows = ground (arith, apply_pty_size-clients setsize s cols rows)

apply_resize-length :
    (setsize : ℕ → ℕ → Bool) (s : Session) (remote : Bytes) (cols rows : ℕ)
    → length (apply_resize_for_remote setsize s remote cols rows).session.clients ≡ length s.clients
unfolding apply_resize_for_remote
apply_resize-length setsize s remote cols rows =
    elim (Option-cases (client_by_remote remote s.clients)) [
      | inl gone ↦ rw (gone, apply_resize_for_remote)
      | inr (c, there) ↦
          rw (there, apply_resize_for_remote)
            (ap length (
                resize_pty-clients setsize _ (min_geometry (clients c)).0
                  (min_geometry (clients c)).1)
              ∙ length-update_client c.id (set_geometry cols rows) s.clients)
    ]
  where
    clients : SessionClient → List SessionClient
    clients c = update_client c.id (set_geometry cols rows) s.clients

run_spawned-clients :
    (setsize : ℕ → ℕ → Bool) (s : Session) (n : ℕ) → (run_spawned setsize s n).clients ≡ s.clients
unfolding run_spawned
run_spawned-clients setsize s n = elim (Option-cases (take_nth n s.spawned)) [
  | inl gone ↦ rw (gone, run_spawned)
  | inr (((cols, rows), rest), there) ↦
      rw (there, run_spawned)
        (apply_pty_size-clients setsize (record s { spawned = rest }) cols rows)
]

demote_remote-length :
    (s : Session) (remote : Bytes) → length (demote_remote s remote).0.clients ≡ length s.clients
unfolding demote_remote
demote_remote-length s remote = elim (Option-cases (client_by_remote remote s.clients)) [
  | inl gone ↦ rw (gone, demote_remote)
  | inr (c, there) ↦
      rw (there, demote_remote) (length-update_client c.id (allow_write false) s.clients)
]

promote_client-length :
    (s : Session) (id : ℕ) → length (promote_client s id).0.clients ≡ length s.clients
unfolding promote_client
promote_client-length s id = ground (
  arith,
  length-update_client id (allow_write true) (seat_for s.mode s id).clients,
  seat_for-length s.mode s id,
)

step-length :
    (s : Session) (e : Event)
    → s.mode ≡ mode_exclusive
    → length s.clients ≤ 1
    → length (step s e).clients ≤ 1
unfolding step
step-length s (attaches setsize stream) m h = add_client-exclusive setsize s stream m h
step-length s (replays id r) m h = ground (arith, length-update_client id (offer r.out) s.clients)
step-length s (resizes setsize remote cols rows) m h =
    omega (arith, apply_resize-length setsize s remote cols rows)
step-length s (late_resize setsize n) m h = rw (run_spawned-clients setsize s n) h
step-length s (demotes remote) m h = omega (arith, demote_remote-length s remote)
step-length s (promotes id) m h = omega (arith, promote_client-length s id)
step-length s (kicks id) m h =
    unfold kick_client in ground (arith, length-update_client id kick s.clients)
step-length s (leaves id) m h =
    unfold remove_client recompute_geometry in ground (arith, length-delete_client id s.clients)
step-length s (outputs chunk) m h =
    unfold pump_round broadcast in
    ground (arith, length-map (offer (process s.da_resp chunk).out) s.clients)
step-length s (types may bytes) m h = ground arith
step-length s shuts_down m h = unfold shutdown in omega arith

run-length :
    (s : Session) (es : List Event)
    → s.mode ≡ mode_exclusive
    → length s.clients ≤ 1
    → length (run s es).clients ≤ 1
unfolding run
run-length s [] m h = h
run-length s (e ∷ es) m h = run-length (step s e) es ((step-Kept s e).0 ∙ m) (step-length s e m h)

-- A session started in ModeExclusive never has two clients in its registry, whatever events but a
-- change of mode happen.
pub exclusive_one_client :
    (es : List Event) → length (run (new_session mode_exclusive) es).clients ≤ 1
unfolding new_session
exclusive_one_client es = run-length (new_session mode_exclusive) es refl (omega arith)

exclusive_busy : (s : Session) (w : Bool) → s.clients ≢ [] → admit mode_exclusive s w ≡ none
exclusive_busy s w busy = elim (exclusive_admission s w) [
  | inl refused ↦ refused
  | inr (empty, admitted) ↦ absurd (busy empty)
]

-- While a client is attached, ModeExclusive refuses an attach, and the session stays as it was.
exclusive_refuses :
    (setsize : ℕ → ℕ → Bool) (s : Session) (stream : Stream)
    → s.mode ≡ mode_exclusive
    → s.clients ≢ []
    → add_client setsize s stream ≡ (s, none)
unfolding add_client add_client_locked
exclusive_refuses setsize s stream e busy =
    ap (λ d. sized setsize (decided s stream d)) (ap (λ m. admit m s w) e ∙ exclusive_busy s w busy)
  where
    w : Bool
    w = can_write (identity_of stream)

kick_all :
    (id : ℕ) (cs : List SessionClient) → All (λ c. (c.kicked ≡ true) ⊎ (c.id ≡ id)) (map kick cs)
kick_all id [] = tt
kick_all id (c ∷ cs) = (inl refl, kick_all id cs)

supersede_decision : Session → Bool → Decision
supersede_decision s w = record {
  clients = map kick s.clients;
  writer_id = s.writer_id;
  can_write = w;
}

supersede_registers :
    (s : Session) (stream : Stream)
    → s.mode ≡ mode_supersede
    → add_client_locked s stream
      ≡ register s stream (supersede_decision s (can_write (identity_of stream)))
unfolding add_client_locked admit supersede_decision
supersede_registers s stream e =
    ap (λ m. decided s stream (admit m s (can_write (identity_of stream)))) e

-- In ModeSupersede an attach is admitted, and every other client of the registry is kicked.
supersede_kicks :
    (setsize : ℕ → ℕ → Bool) (s : Session) (stream : Stream)
    → s.mode ≡ mode_supersede
    → (c : SessionClient) × ((add_client setsize s stream).1 ≡ some c)
      × All (λ d. (d.kicked ≡ true) ⊎ (d.id ≡ c.id)) (add_client setsize s stream).0.clients
unfolding register supersede_decision
supersede_kicks setsize s stream e = (
  c,
  unfold add_client in ap (λ a. a.client) (supersede_registers s stream e),
  subst (All (λ d. (d.kicked ≡ true) ⊎ (d.id ≡ c.id)))
      (sym (
        add_client-clients setsize s stream
        ∙ ap (λ a. a.session.clients) (supersede_registers s stream e)))
      (All-put_client _ c (map kick s.clients) (inr refl) (kick_all c.id s.clients)),
)
  where
    c : SessionClient
    c = new_client s stream (can_write (identity_of stream))
