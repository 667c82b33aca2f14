-- ===== src/Vterm/Session/Writers/Ops.antt =====
-- vterm/: the operations other than admission keep the writer seat.
use mosey.Base.{◌∙◌, ==_iff, ltb}
use mosey.Base.{ℕ, ◌≡◌, ◌≢◌, refl, sym, subst, arith, Bool, true, false}
use mosey.Base.{inl, inr, List, [], ◌∷◌, none, some, Bool-cases, Option-cases, All, length}
use mosey.Base.{◌==◌, if◌then◌else◌, Bytes, ◌||◌}
use mosey.Streambuf.Ring.{Replayed}
use mosey.Vterm.Mode.{Mode, mode_primary_observer}
use mosey.Vterm.Session.{SessionClient, Session, client_by_id, delete_client}
use mosey.Vterm.Session.{
  update_client, client_by_remote, kick, min_geometry, apply_pty_size, client_buffer_chunks,
}
use mosey.Vterm.Responder.{process}
use mosey.Vterm.Session.Ops.{resize_pty, apply_resize_for_remote, set_geometry}
use mosey.Vterm.Session.Ops.{recompute_geometry, run_spawned, take_nth, demote_remote, allow_write}
use mosey.Vterm.Session.Ops.{
  promote_client, take_seat, seat_for, kick_client, remove_client, offer, broadcast,
}
use mosey.Vterm.Session.Registry.{All-map}
use mosey.Vterm.Session.Registry.{All-update_client, client_by_id-some}
use mosey.Vterm.Session.Stream.{pump_round, replay_to, write_input}
use mosey.Vterm.Session.Writers.{
  not_true, Seated, OneWriter, Idle, vacant-Idle, apply_pty_size-OneWriter,
}

-- A change of one client that does not let it type keeps the seat.
update_client-Seated :
    (w id : ℕ) (f : SessionClient → SessionClient) (cs : List SessionClient)
    → ((c : SessionClient) → Seated w c → Seated w (f c))
    → All (Seated w) cs
    → All (Seated w) (update_client id f cs)
update_client-Seated w id f cs keep a =
    All-update_client (Seated w) (Seated w) id f cs (λ c p q. keep c p) (λ c p q. p) a

resize_pty-OneWriter :
    (setsize : ℕ → ℕ → Bool) (s : Session) (cols rows : ℕ)
    → OneWriter s
    → OneWriter (resize_pty setsize s (cols, rows)).session
resize_pty-OneWriter setsize s cols rows a = elim (Bool-cases (cols == 0 || rows == 0)) [
  | inl unsized ↦ rw unsized a
  | inr size ↦ elim (Bool-cases (apply_pty_size setsize s cols rows).1) [
    | inl done ↦ rw (size, done) (apply_pty_size-OneWriter setsize s cols rows a)
    | inr failed ↦ rw (size, failed) a
  ]
]

pub apply_resize-OneWriter :
    (setsize : ℕ → ℕ → Bool) (s : Session) (remote : Bytes) (cols rows : ℕ)
    → OneWriter s
    → OneWriter (apply_resize_for_remote setsize s remote cols rows).session
unfolding apply_resize_for_remote
apply_resize-OneWriter setsize s remote cols rows a =
    elim (Option-cases (client_by_remote remote s.clients)) [
      | inl gone ↦ rw (gone, apply_resize_for_remote) a
      | inr (c, there) ↦
          rw (there, apply_resize_for_remote)
            (resize_pty-OneWriter setsize _ (min_geometry (clients c)).0
              (min_geometry (clients c)).1
              (update_client-Seated s.writer_id c.id (set_geometry cols rows) s.clients (λ x p. p)
                a))
    ]
  where
    clients : SessionClient → List SessionClient
    clients c = update_client c.id (set_geometry cols rows) s.clients

recompute_geometry-OneWriter : (s : Session) → OneWriter s → OneWriter (recompute_geometry s)
unfolding recompute_geometry
recompute_geometry-OneWriter s a =
    elim (Bool-cases ((min_geometry s.clients).0 == 0 || (min_geometry s.clients).1 == 0)) [
      | inl unsized ↦ rw unsized a
      | inr size ↦ rw size a
    ]

-- The seat is given up where its holder leaves or steps down.
freed :
    (w id : ℕ) (c : SessionClient) → c.id ≢ id → Seated w c → Seated (if w == id then 0 else w) c
freed w id c n (p, q) = elim (Bool-cases (w == id)) [
  | inl e ↦ rw e (p, λ t. absurd (n (q t ∙ (==_iff w id).0 e)))
  | inr d ↦ rw d (p, q)
]

deleted-Seated :
    (w id : ℕ) (cs : List SessionClient)
    → All (Seated w) cs
    → All (Seated (if w == id then 0 else w)) (delete_client id cs)
unfolding delete_client
deleted-Seated w id [] a = tt
deleted-Seated w id (c ∷ cs) a = elim (Bool-cases (c.id == id)) [
  | inl e ↦ rw e (deleted-Seated w id cs a.1)
  | inr n ↦ rw n (freed w id c (ground arith) a.0, deleted-Seated w id cs a.1)
]

pub remove_client-OneWriter : (s : Session) (id : ℕ) → OneWriter s → OneWriter (remove_client s id)
unfolding remove_client
remove_client-OneWriter s id a =
    recompute_geometry-OneWriter _ (deleted-Seated s.writer_id id s.clients a)

pub demote_remote-OneWriter :
    (s : Session) (remote : Bytes) → OneWriter s → OneWriter (demote_remote s remote).0
unfolding demote_remote
demote_remote-OneWriter s remote a = elim (Option-cases (client_by_remote remote s.clients)) [
  | inl gone ↦ rw (gone, demote_remote) a
  | inr (c, there) ↦
      rw (there, demote_remote)
        (All-update_client (Seated s.writer_id)
          (Seated (if s.writer_id == c.id then 0 else s.writer_id)) c.id (allow_write false)
          s.clients (λ x p e. (p.0, λ t. cc)) (λ x p n. freed s.writer_id c.id x n p) a)
]

pub kick_client-OneWriter : (s : Session) (id : ℕ) → OneWriter s → OneWriter (kick_client s id).0
unfolding kick_client
kick_client-OneWriter s id a = elim (Option-cases (client_by_id id s.clients)) [
  | inl gone ↦ rw (gone, kick_client) a
  | inr (c, there) ↦
      rw (there, kick_client) (update_client-Seated s.writer_id id kick s.clients (λ x p. p) a)
]

pub run_spawned-OneWriter :
    (setsize : ℕ → ℕ → Bool) (s : Session) (n : ℕ)
    → OneWriter s
    → OneWriter (run_spawned setsize s n)
unfolding run_spawned
run_spawned-OneWriter setsize s n a = elim (Option-cases (take_nth n s.spawned)) [
  | inl gone ↦ rw (gone, run_spawned) a
  | inr (((cols, rows), rest), there) ↦
      rw (there, run_spawned)
        (apply_pty_size-OneWriter setsize (record s { spawned = rest }) cols rows a)
]

offer-Seated : (w : ℕ) (chunk : Bytes) (c : SessionClient) → Seated w c → Seated w (offer chunk c)
offer-Seated w chunk c p = elim (Bool-cases (ltb (length c.out_ch) client_buffer_chunks)) [
  | inl room ↦ rw room p
  | inr full ↦ rw full p
]

pub pump_round-OneWriter :
    (s : Session) (chunk : Bytes) → OneWriter s → OneWriter (pump_round s chunk)
unfolding pump_round broadcast
pump_round-OneWriter s chunk a = elim (Bool-cases (length chunk == 0)) [
  | inl nothing ↦ rw nothing a
  | inr some_bytes ↦ elim (Bool-cases (length (process s.da_resp chunk).out == 0)) [
    | inl stripped ↦ rw (some_bytes, stripped) a
    | inr output ↦
        rw (some_bytes, output)
          (All-map (Seated s.writer_id) (Seated s.writer_id) (offer (process s.da_resp chunk).out)
            s.clients (offer-Seated s.writer_id (process s.da_resp chunk).out) a)
  ]
]

pub replay_to-OneWriter :
    (s : Session) (id : ℕ) (r : Replayed) → OneWriter s → OneWriter (replay_to s id r)
replay_to-OneWriter s id r a = elim (Option-cases r.error) [
  | inr (e, lost) ↦ rw (lost, replay_to) a
  | inl kept ↦ elim (Bool-cases (length r.out == 0)) [
    | inl nothing ↦ rw (kept, nothing, replay_to) a
    | inr bytes ↦
        rw (kept, bytes, replay_to)
          (update_client-Seated s.writer_id id (offer r.out) s.clients
            (offer-Seated s.writer_id r.out) a)
  ]
]

pub write_input-OneWriter :
    (s : Session) (may : Bool) (bytes : Bytes) → OneWriter s → OneWriter (write_input s may bytes)
write_input-OneWriter s true bytes a = a
write_input-OneWriter s false bytes a = a

-- Promotion: the seat's former holder may not type any more, then the target takes the seat.
take_seat-none :
    (s : Session) (id : ℕ)
    → client_by_id s.writer_id s.clients ≡ none
    → (take_seat s id).clients ≡ s.clients
take_seat-none s id e = rw (e, take_seat)

take_seat-some :
    (s : Session) (id : ℕ) (prev : SessionClient)
    → client_by_id s.writer_id s.clients ≡ some prev
    → (take_seat s id).clients ≡ (
        if prev.id == id
        then s.clients
        else update_client s.writer_id (allow_write false) s.clients)
take_seat-some s id prev e = rw (e, take_seat)

demoted-Idle :
    (w : ℕ) (cs : List SessionClient)
    → All (Seated w) cs
    → All Idle (update_client w (allow_write false) cs)
demoted-Idle w cs a =
    All-update_client (Seated w) Idle w (allow_write false) cs (λ c p e. (p.0, refl))
      (λ c p n. (p.0, not_true c.can_write (λ t. n (p.1 t)))) a

raised-Seated :
    (id : ℕ) (cs : List SessionClient)
    → All Idle cs
    → All (Seated id) (update_client id (allow_write true) cs)
raised-Seated id cs a =
    All-update_client Idle (Seated id) id (allow_write true) cs (λ c p e. (p.0, λ t. e))
      (λ c p n. (p.0, λ t. cc (p.1))) a

raised_again :
    (w id : ℕ) (cs : List SessionClient)
    → w ≡ id
    → All (Seated w) cs
    → All (Seated id) (update_client id (allow_write true) cs)
raised_again w id cs e a =
    All-update_client (Seated w) (Seated id) id (allow_write true) cs (λ c p q. (p.0, λ t. q))
      (λ c p n. (p.0, λ t. p.1 t ∙ e)) a

take_seat-OneWriter :
    (s : Session) (id : ℕ)
    → OneWriter s
    → All (Seated id) (update_client id (allow_write true) (take_seat s id).clients)
take_seat-OneWriter s id a = elim (Option-cases (client_by_id s.writer_id s.clients)) [
  | inl gone ↦
      rw (take_seat-none s id gone)
        (raised-Seated id s.clients (vacant-Idle s.writer_id s.clients gone a))
  | inr (prev, there) ↦ elim (Bool-cases (prev.id == id)) [
    | inl same ↦
        rw (take_seat-some s id prev there, same)
          (raised_again s.writer_id id s.clients
            (sym (client_by_id-some s.writer_id s.clients prev there) ∙ (==_iff prev.id id).0 same)
            a)
    | inr other ↦
        rw (take_seat-some s id prev there, other)
          (raised-Seated id _ (demoted-Idle s.writer_id s.clients a))
  ]
]

promoted : Mode → Session → ℕ → Session
promoted m s id = record (seat_for m s id) {
  clients = update_client id (allow_write true) (seat_for m s id).clients;
}

promoted-OneWriter :
    (s : Session) (id : ℕ)
    → s.mode ≡ mode_primary_observer
    → OneWriter s
    → OneWriter (promoted s.mode s id)
unfolding promoted
promoted-OneWriter s id e a =
    subst (λ m. OneWriter (promoted m s id)) (sym e) (take_seat-OneWriter s id a)

pub promote_client-OneWriter :
    (s : Session) (id : ℕ)
    → s.mode ≡ mode_primary_observer
    → OneWriter s
    → OneWriter (promote_client s id).0
unfolding promote_client promoted
promote_client-OneWriter s id e a = elim (Option-cases (client_by_id id s.clients)) [
  | inl gone ↦ rw (gone, promote_client) a
  | inr (c, there) ↦ rw (there, promote_client) (promoted-OneWriter s id e a)
]
