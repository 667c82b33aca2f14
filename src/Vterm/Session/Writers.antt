-- ===== src/Vterm/Session/Writers.antt =====
-- vterm/session.go in ModePrimaryObserver: there is one writer seat, and only its holder may type.
pub mod Ops
pub mod Runs
use mosey.Base.{
  ℕ, suc, ◌+◌, ◌%◌, ◌^◌, ◌≤◌, ◌<◌, ◌≡◌, ◌≢◌, refl, sym, ap, subst, arith, Bool, true, false, ◌&&◌,
}
use mosey.Base.{
  ◌⊎◌, inl, inr, List, [], ◌∷◌, Option, none, some, Bool-cases, Option-cases, All, length,
}
use mosey.Base.{◌==◌, if◌then◌else◌, map, Bytes, ◌||◌}
use mosey.Auth.Identity.{Stream, can_write, identity_of}
use mosey.Streambuf.Ring.{Replayed, from}
use mosey.Vterm.Mode.{Mode, mode_primary_observer}
use mosey.Vterm.Session.{SessionClient, Session, client_by_id, put_client, delete_client}
use mosey.Vterm.Session.{update_client, client_by_remote, kick, min_geometry, apply_pty_size}
use mosey.Vterm.Session.Admit.{
  Decision, Added, admit, seat, decided, holds_seat, new_client, register,
}
use mosey.Vterm.Session.Admit.{add_client_locked, add_client}
use mosey.Vterm.Session.Ops.{Resized, resize_pty, apply_resize_for_remote, set_geometry}
use mosey.Vterm.Session.Ops.{recompute_geometry, run_spawned, demote_remote, allow_write}
use mosey.Vterm.Session.Ops.{
  promote_client, take_seat, kick_client, remove_client, offer, broadcast, shutdown,
}
use mosey.Vterm.Session.Registry.{All-put_client, All-delete_client, All-map, All-imp, All-zip}
use mosey.Vterm.Session.Registry.{All-update_client, client_by_id-none, client_by_id-some}
use mosey.Vterm.Session.Step.{Event, attaches, replays, resizes, late_resize, demotes, promotes}
use mosey.Vterm.Session.Step.{kicks, leaves, outputs, types, shuts_down, step, run, new_session}
use mosey.Vterm.Session.Stream.{pump_round, replay_to}

-- With the seat at `w`: the client has an id, and if it may type it holds the seat.
abbrev pub Seated : ℕ → SessionClient → Type 0
Seated w c = (0 < c.id) × (c.can_write ≡ true → c.id ≡ w)

abbrev pub OneWriter : Session → Type 0
OneWriter s = All (Seated s.writer_id) s.clients

-- Nobody may type.
abbrev pub Idle : SessionClient → Type 0
Idle c = (0 < c.id) × (c.can_write ≡ false)

pub not_true : (b : Bool) → (b ≡ true → ⊥) → b ≡ false
not_true true h = absurd (h refl)
not_true false h = refl

pub vacant-Idle :
    (w : ℕ) (cs : List SessionClient) → client_by_id w cs ≡ none → All (Seated w) cs → All Idle cs
vacant-Idle w cs e a =
    All-zip (Seated w) (λ c. c.id ≢ w) Idle cs
      (λ c p n. (p.0, not_true c.can_write (λ t. n (p.1 t)))) a (client_by_id-none w cs e)

zero-Idle : (w : ℕ) (cs : List SessionClient) → w ≡ 0 → All (Seated w) cs → All Idle cs
zero-Idle w cs e a =
    All-imp (Seated w) Idle cs
      (λ c p. (p.0, not_true c.can_write (λ t. let q : c.id ≡ w = p.1 t in omega arith))) a

pub Idle-Seated : (w : ℕ) (cs : List SessionClient) → All Idle cs → All (Seated w) cs
Idle-Seated w cs a = All-imp Idle (Seated w) cs (λ c p. (p.0, λ t. cc (p.1))) a

pub apply_pty_size-OneWriter :
    (setsize : ℕ → ℕ → Bool) (s : Session) (cols rows : ℕ)
    → OneWriter s
    → OneWriter (apply_pty_size setsize s cols rows).0
unfolding apply_pty_size
apply_pty_size-OneWriter setsize s cols rows a =
    elim (Bool-cases (setsize (cols % 2 ^ 16) (rows % 2 ^ 16))) [ inl e ↦ rw e a | inr n ↦ rw n a ]

seat-some :
    (s : Session) (c : SessionClient)
    → client_by_id s.writer_id s.clients ≡ some c
    → seat s ≡ s.writer_id
seat-some s c e = rw (e, seat)

-- What admission decides in this mode keeps the seat, whatever it decides of the new client.
admit-Seated :
    (s : Session) (w : Bool) (id : ℕ) (b : Bool)
    → OneWriter s
    → b ≡ (w && seat s == 0)
    → All (Seated (if b then id else seat s)) s.clients
admit-Seated s w id b a e = elim (Option-cases (client_by_id s.writer_id s.clients)) [
  | inl gone ↦ Idle-Seated _ s.clients (vacant-Idle s.writer_id s.clients gone a)
  | inr (c, there) ↦ rw (seat-some s c there) (held b (rw (seat-some s c there) at e))
]
  where
    held :
        (b' : Bool)
        → b' ≡ (w && s.writer_id == 0)
        → All (Seated (if b' then id else s.writer_id)) s.clients
    held true q = Idle-Seated id s.clients (zero-Idle s.writer_id s.clients (ground arith) a)
    held false q = a

new_client-Seated :
    (s : Session) (stream : Stream) (b : Bool) (w : ℕ)
    → s.next_id + 1 < 2 ^ 64
    → Seated (if b then (new_client s stream b).id else w) (new_client s stream b)
unfolding new_client
new_client-Seated s stream true w room = (omega arith, λ t. refl)
new_client-Seated s stream false w room = (omega arith, λ t. cc)

observer_decision : Session → Bool → Decision
observer_decision s w = record {
  clients = s.clients;
  writer_id = seat s;
  can_write = w && seat s == 0;
}

add_client_locked-observer :
    (s : Session) (stream : Stream)
    → s.mode ≡ mode_primary_observer
    → add_client_locked s stream
      ≡ register s stream (observer_decision s (can_write (identity_of stream)))
unfolding add_client_locked admit observer_decision
add_client_locked-observer s stream e =
    ap (λ m. decided s stream (admit m s (can_write (identity_of stream)))) e

register-OneWriter :
    (s : Session) (stream : Stream) (w : Bool)
    → s.mode ≡ mode_primary_observer
    → s.next_id + 1 < 2 ^ 64
    → OneWriter s
    → OneWriter (register s stream (observer_decision s w)).session
unfolding register observer_decision
register-OneWriter s stream w e room a =
    subst (λ t. All (Seated (if t then c.id else seat s)) (put_client c s.clients))
      (sym (ap (λ m. holds_seat m b) e))
      (All-put_client (Seated (if b then c.id else seat s)) c s.clients
        (new_client-Seated s stream b (seat s) room) (admit-Seated s w c.id b a refl))
  where
    b : Bool
    b = w && seat s == 0

    c : SessionClient
    c = new_client s stream b

pub add_client-OneWriter :
    (setsize : ℕ → ℕ → Bool) (s : Session) (stream : Stream)
    → s.mode ≡ mode_primary_observer
    → s.next_id + 1 < 2 ^ 64
    → OneWriter s
    → OneWriter (add_client setsize s stream).0
unfolding add_client
add_client-OneWriter setsize s stream e room a = elim (Bool-cases (x.cols == 0 || x.rows == 0)) [
  | inl unsized ↦ rw unsized b
  | inr size ↦ rw size (apply_pty_size-OneWriter setsize x.session x.cols x.rows b)
]
  where
    x : Added
    x = add_client_locked s stream

    b : OneWriter x.session
    b =
        subst (λ y. OneWriter y.session) (sym (add_client_locked-observer s stream e))
          (register-OneWriter s stream (can_write (identity_of stream)) e room a)
