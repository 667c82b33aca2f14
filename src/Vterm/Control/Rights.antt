-- ===== src/Vterm/Control/Rights.antt =====
-- vterm/control.go: what a peer of a control stream cannot do without the capability for it.
pub mod Sizes
use mosey.Base.{ℕ, ◌%◌, ◌^◌, ◌≡◌, refl, sym, ◌∙◌, ap, arith, Bool, true, false, ◌||◌}
use mosey.Base.{List, [], ◌∷◌, ◌++◌, Option, none, some, Bool-cases, Option-cases, inl, inr}
use mosey.Base.{◌==◌, if◌then◌else◌, map, Bytes}
use mosey.Auth.Identity.{PeerIdentity, can_write, can_resize, is_owner}
use mosey.Vterm.Mode.{Mode, mode_unspecified, mode_supersede, mode_exclusive}
use mosey.Vterm.Mode.{mode_primary_observer, mode_multi_write, mode_from_api}
use mosey.Vterm.Session.{SessionClient, PendingResize, Session, update_client, client_by_remote}
use mosey.Vterm.Session.{client_by_id, kick, min_geometry, apply_pty_size}
use mosey.Vterm.Session.Ops.{set_geometry, resize_pty, apply_resize_for_remote, allow_write}
use mosey.Vterm.Session.Ops.{set_mode}
use mosey.Vterm.Session.Ops.{demote_remote, promote_client, kick_client, take_seat, seat_for}
use mosey.Vterm.Control.{ControlMessage, resize, signal, set_mode_to, demote, get_clients, promote}
use mosey.Vterm.Control.{kick_out, client_list, unknown, World, Outside, apply_resize, apply_signal}
use mosey.Vterm.Control.{switch_mode, control_step, handle_control, OsSignal, signal_of_kind}

-- The same client, where only its geometry may differ and its right to type may be gone.
pub record Lower (c d : SessionClient) : Type 0 where
  pub same_id : d.id ≡ c.id
  pub same_remote : d.remote ≡ c.remote
  pub same_identity : d.identity ≡ c.identity
  pub same_chunks : d.out_ch ≡ c.out_ch
  pub same_kicked : d.kicked ≡ c.kicked
  pub no_gain : d.can_write ≡ true → c.can_write ≡ true

Lower-refl : (c : SessionClient) → Lower c c
Lower-refl c = record {
  same_id = refl;
  same_remote = refl;
  same_identity = refl;
  same_chunks = refl;
  same_kicked = refl;
  no_gain = λ e. e;
}

Lower-trans : (c d e : SessionClient) → Lower c d → Lower d e → Lower c e
Lower-trans c d e p q = record {
  same_id = q.same_id ∙ p.same_id;
  same_remote = q.same_remote ∙ p.same_remote;
  same_identity = q.same_identity ∙ p.same_identity;
  same_chunks = q.same_chunks ∙ p.same_chunks;
  same_kicked = q.same_kicked ∙ p.same_kicked;
  no_gain = λ w. p.no_gain (q.no_gain w);
}

-- The same clients in the same order, each at most lowered.
unfoldable pub Lowered : List SessionClient → List SessionClient → Type 0
Lowered [] [] = Unit
Lowered [] (d ∷ ds) = ⊥
Lowered (c ∷ cs) [] = ⊥
Lowered (c ∷ cs) (d ∷ ds) = Lower c d × Lowered cs ds

Lowered-refl : (cs : List SessionClient) → Lowered cs cs
unfolding Lowered
Lowered-refl [] = tt
Lowered-refl (c ∷ cs) = (Lower-refl c, Lowered-refl cs)

Lowered-trans : (cs ds es : List SessionClient) → Lowered cs ds → Lowered ds es → Lowered cs es
unfolding Lowered
Lowered-trans [] [] es p q = q
Lowered-trans [] (d ∷ ds) es p q = absurd p
Lowered-trans (c ∷ cs) [] es p q = absurd p
Lowered-trans (c ∷ cs) (d ∷ ds) [] p q = absurd q
Lowered-trans (c ∷ cs) (d ∷ ds) (e ∷ es) p q =
    (Lower-trans c d e p.0 q.0, Lowered-trans cs ds es p.1 q.1)

Lowered-update :
    (id : ℕ) (f : SessionClient → SessionClient) (cs : List SessionClient)
    → ((c : SessionClient) → Lower c (f c))
    → Lowered cs (update_client id f cs)
unfolding Lowered update_client
Lowered-update id f [] low = tt
Lowered-update id f (c ∷ cs) low = elim (Bool-cases (c.id == id)) [
  | inl e ↦ rw e (low c, Lowered-update id f cs low)
  | inr n ↦ rw n (Lower-refl c, Lowered-update id f cs low)
]

set_geometry-Lower : (cols rows : ℕ) (c : SessionClient) → Lower c (set_geometry cols rows c)
set_geometry-Lower cols rows c = record {
  same_id = refl;
  same_remote = refl;
  same_identity = refl;
  same_chunks = refl;
  same_kicked = refl;
  no_gain = λ e. e;
}

mute-Lower : (c : SessionClient) → Lower c (allow_write false c)
mute-Lower c = record {
  same_id = refl;
  same_remote = refl;
  same_identity = refl;
  same_chunks = refl;
  same_kicked = refl;
  no_gain = λ e. cc;
}

-- The mode stays, and the clients are at most lowered.
abbrev pub Unruled : Session → Session → Type 0
Unruled s t = (t.mode ≡ s.mode) × Lowered s.clients t.clients

Unruled-refl : (s : Session) → Unruled s s
Unruled-refl s = (refl, Lowered-refl s.clients)

resize_pty-same :
    (setsize : ℕ → ℕ → Bool) (s : Session) (cols rows : ℕ)
    → ((resize_pty setsize s (cols, rows)).session.mode ≡ s.mode)
      × ((resize_pty setsize s (cols, rows)).session.clients ≡ s.clients)
unfolding apply_pty_size
resize_pty-same setsize s cols rows = ground arith

resized-Unruled :
    (setsize : ℕ → ℕ → Bool) (s : Session) (remote : Bytes) (cols rows : ℕ)
    → Unruled s (apply_resize_for_remote setsize s remote cols rows).session
unfolding apply_resize_for_remote
resized-Unruled setsize s remote cols rows =
    elim (Option-cases (client_by_remote remote s.clients)) [
      | inl gone ↦ rw (gone, apply_resize_for_remote) (Unruled-refl s)
      | inr (c, there) ↦
          let clients = update_client c.id (set_geometry cols rows) s.clients in
          let t = record s { clients = clients } in
          let k = resize_pty-same setsize t (min_geometry clients).0 (min_geometry clients).1 in
          rw (there, apply_resize_for_remote)
            (
              k.0,
              rw (k.1) (
                  Lowered-update c.id (set_geometry cols rows) s.clients
                    (set_geometry-Lower cols rows)),
            )
    ]

demote_remote-Unruled : (s : Session) (remote : Bytes) → Unruled s (demote_remote s remote).0
unfolding demote_remote
demote_remote-Unruled s remote = elim (Option-cases (client_by_remote remote s.clients)) [
  | inl gone ↦ rw (gone, demote_remote) (Unruled-refl s)
  | inr (c, there) ↦
      rw (there, demote_remote) (refl, Lowered-update c.id (allow_write false) s.clients mute-Lower)
]

control_step-Unruled :
    (out : Outside) (who : PeerIdentity) (remote : Bytes) (w : World) (m : ControlMessage)
    → is_owner who ≡ false
    → Unruled w.session (control_step out who remote w m).0.session
unfolding control_step apply_resize apply_signal
control_step-Unruled out who remote w (resize cols rows) e =
    ground (arith, Unruled-refl w.session, resized-Unruled out.setsize w.session remote cols rows)
control_step-Unruled out who remote w (signal kind) e = ground (arith, Unruled-refl w.session)
control_step-Unruled out who remote w (set_mode_to kind) e = rw e (Unruled-refl w.session)
control_step-Unruled out who remote w demote e = demote_remote-Unruled w.session remote
control_step-Unruled out who remote w get_clients e = ground (arith, Unruled-refl w.session)
control_step-Unruled out who remote w (promote id) e = rw e (Unruled-refl w.session)
control_step-Unruled out who remote w (kick_out id) e = rw e (Unruled-refl w.session)
control_step-Unruled out who remote w client_list e = Unruled-refl w.session
control_step-Unruled out who remote w unknown e = Unruled-refl w.session

Unruled-trans : (s t u : Session) → Unruled s t → Unruled t u → Unruled s u
Unruled-trans s t u p q = (q.0 ∙ p.0, Lowered-trans s.clients t.clients u.clients p.1 q.1)

-- What each frame keeps, a whole stream keeps.
pub handled :
    (who : PeerIdentity) (remote : Bytes) (P : World → World → Type 0)
    → ((w : World) → P w w)
    → ((u v w : World) → P u v → P v w → P u w)
    → ((out : Outside) (w : World) (m : ControlMessage) → P w (control_step out who remote w m).0)
    → (w : World) (ms : List (Outside × ControlMessage)) → P w (handle_control who remote w ms)
unfolding handle_control
handled who remote P same next each w [] = same w
handled who remote P same next each w ((out, m) ∷ ms) =
    let v = (control_step out who remote w m).0 in
    elim (Bool-cases (control_step out who remote w m).1) [
      | inl more ↦ rw more (
          next w v (handle_control who remote v ms) (each out w m)
            (handled who remote P same next each v ms))
      | inr ends ↦ rw ends (each out w m)
    ]

-- Whatever frames a peer sends that is not an owner, the mode stays, and the clients stay the same and in
-- their order: none is kicked or gains the right to type.
pub non_owner_rules_nothing :
    (who : PeerIdentity) (remote : Bytes) (w : World) (ms : List (Outside × ControlMessage))
    → is_owner who ≡ false
    → Unruled w.session (handle_control who remote w ms).session
non_owner_rules_nothing who remote w ms e =
    handled who remote (λ u v. Unruled u.session v.session) (λ u. Unruled-refl u.session)
      (λ t u v. Unruled-trans t.session u.session v.session)
      (λ out u m. control_step-Unruled out who remote u m e) w ms

control_step-signals :
    (out : Outside) (who : PeerIdentity) (remote : Bytes) (w : World) (m : ControlMessage)
    → can_write who ≡ false
    → (control_step out who remote w m).0.signals ≡ w.signals
unfolding control_step apply_resize
control_step-signals out who remote w (resize cols rows) e = ground arith
control_step-signals out who remote w (signal kind) e = rw e refl
control_step-signals out who remote w (set_mode_to kind) e =
    ground (arith, switched (mode_from_api kind))
  where
    switched : (m : Mode) → (switch_mode w m).signals ≡ w.signals
    switched mode_unspecified = refl
    switched mode_supersede = refl
    switched mode_exclusive = refl
    switched mode_primary_observer = refl
    switched mode_multi_write = refl
control_step-signals out who remote w demote e = refl
control_step-signals out who remote w get_clients e = ground arith
control_step-signals out who remote w (promote id) e = ground arith
control_step-signals out who remote w (kick_out id) e = ground arith
control_step-signals out who remote w client_list e = refl
control_step-signals out who remote w unknown e = refl

-- Whatever frames a peer sends that may not write, the child gets no signal.
non_writer_signals_nothing :
    (who : PeerIdentity) (remote : Bytes) (w : World) (ms : List (Outside × ControlMessage))
    → can_write who ≡ false
    → (handle_control who remote w ms).signals ≡ w.signals
non_writer_signals_nothing who remote w ms e =
    handled who remote (λ u v. v.signals ≡ u.signals) (λ u. refl) (λ t u v p q. q ∙ p)
      (λ out u m. control_step-signals out who remote u m e) w ms
