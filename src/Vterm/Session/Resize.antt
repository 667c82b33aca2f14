-- ===== src/Vterm/Session/Resize.antt =====
-- vterm/session.go: how a resize on the control stream meets the client's own stream.
use mosey.Base.{ℕ, suc, ◌*◌, ◌%◌, ◌^◌, ◌≡◌, ◌≢◌, ◌∙◌, ap, arith, Bool, true}
use mosey.Base.{false, [], ◌∷◌, Option, none, some}
use mosey.Base.{◌==◌, Bytes, ◌||◌, bytes_eq, bytes_eq_self, bytes_eq→eq, ==_self}
use mosey.Base.Dict.{lookup, lookup-insert, lookup-erase}
use mosey.Auth.Identity.{Stream, can_write, identity_of}
use mosey.Vterm.Session.{SessionClient, PendingResize, Session, client_by_remote, latest_loop}
use mosey.Vterm.Session.{min_geometry, min_loop, update_client, apply_pty_size}
use mosey.Vterm.Session.Admit.{Decision, Added, admit, new_client, register, decided}
use mosey.Vterm.Session.Admit.{add_client_locked, add_client, sized, pending_cols, pending_rows}
use mosey.Vterm.Session.Ops.{apply_resize_for_remote, set_geometry, resize_pty}

abbrev pub lookup_pending : Bytes → Session → Option PendingResize
lookup_pending remote s = lookup bytes_eq remote s.pending_resize

-- A resize of an unknown remote waits for its stream.
waits :
    (setsize : ℕ → ℕ → Bool) (s : Session) (remote : Bytes) (cols rows : ℕ)
    → client_by_remote remote s.clients ≡ none
    → lookup_pending remote (apply_resize_for_remote setsize s remote cols rows).session
      ≡ some (record { cols = cols; rows = rows })
unfolding apply_resize_for_remote
waits setsize s remote cols rows gone =
    rw (gone, apply_resize_for_remote)
      (lookup-insert bytes_eq bytes_eq_self bytes_eq→eq remote remote _ s.pending_resize
        ∙ rw (bytes_eq_self remote))

new_client-pending :
    (s : Session) (stream : Stream) (w : Bool) (p : PendingResize)
    → lookup_pending stream.remote_id s ≡ some p
    → ((new_client s stream w).cols ≡ p.cols) × ((new_client s stream w).rows ≡ p.rows)
unfolding new_client
new_client-pending s stream w p e = (ap pending_cols e, ap pending_rows e)

apply_pty_size-pending :
    (setsize : ℕ → ℕ → Bool) (s : Session) (cols rows : ℕ)
    → (apply_pty_size setsize s cols rows).0.pending_resize ≡ s.pending_resize
unfolding apply_pty_size
apply_pty_size-pending setsize s cols rows = ground arith

sized-pending :
    (setsize : ℕ → ℕ → Bool) (a : Added)
    → (sized setsize a).0.pending_resize ≡ a.session.pending_resize
sized-pending setsize a = ground (arith, apply_pty_size-pending setsize a.session a.cols a.rows)

-- What admission makes of a resize that waits.
decided-pending :
    (s : Session) (stream : Stream) (d : Option Decision) (p : PendingResize) (c : SessionClient)
    → lookup_pending stream.remote_id s ≡ some p
    → (decided s stream d).client ≡ some c
    → (c.cols ≡ p.cols)
      × (c.rows ≡ p.rows)
      × (lookup_pending stream.remote_id (decided s stream d).session ≡ none)
unfolding register
decided-pending s stream none p c e h = absurd (cc)
decided-pending s stream (some d) p c e h = (
  cc (new_client-pending s stream d.can_write p e).0,
  cc (new_client-pending s stream d.can_write p e).1,
  lookup-erase bytes_eq bytes_eq_self bytes_eq→eq stream.remote_id stream.remote_id s.pending_resize
      ∙ rw (bytes_eq_self stream.remote_id),
)

-- A resize that arrives on the control stream before the client's own stream is not lost: the client
-- that the remote's next attach admits has that geometry, and nothing is left to wait.
resize_before_attach :
    (setsize : ℕ → ℕ → Bool) (s : Session) (stream : Stream) (cols rows : ℕ) (c : SessionClient)
    → client_by_remote stream.remote_id s.clients ≡ none
    → (add_client setsize
        (apply_resize_for_remote setsize s stream.remote_id cols rows).session
        stream).1
      ≡ some c
    → (c.cols ≡ cols)
      × (c.rows ≡ rows)
      × (lookup_pending stream.remote_id
            (add_client setsize
              (apply_resize_for_remote setsize s stream.remote_id cols rows).session
              stream).0
          ≡ none)
unfolding add_client add_client_locked
resize_before_attach setsize s stream cols rows c gone admitted =
    let (a, b, e) =
      decided-pending t stream d (record { cols = cols; rows = rows }) c
        (waits setsize s stream.remote_id cols rows gone) admitted in
    (a, b, ap (lookup bytes_eq stream.remote_id) (sized-pending setsize (decided t stream d)) ∙ e)
  where
    t : Session
    t = (apply_resize_for_remote setsize s stream.remote_id cols rows).session

    d : Option Decision
    d = admit t.mode t (can_write (identity_of stream))

sole_by_remote : (c : SessionClient) → client_by_remote c.remote (c ∷ []) ≡ some c
unfolding client_by_remote latest_loop
sole_by_remote c = rw (bytes_eq_self c.remote)

sole_update :
    (c : SessionClient) (cols rows : ℕ)
    → update_client c.id (set_geometry cols rows) (c ∷ []) ≡ set_geometry cols rows c ∷ []
unfolding update_client
sole_update c cols rows = rw (==_self c.id)

sole_geometry :
    (c : SessionClient) (cols rows : ℕ)
    → cols ≢ 0
    → rows ≢ 0
    → min_geometry (set_geometry cols rows c ∷ []) ≡ (cols, rows)
unfolding min_geometry min_loop
sole_geometry c cols rows h k = ground arith

wide_winsize :
    (s : Session) (k rows : ℕ)
    → rows ≢ 0
    → (resize_pty (λ x y. true) s (65536 * suc k, rows)).session.winsize ≡ (0, rows % 2 ^ 16)
unfolding apply_pty_size
wide_winsize s k rows nz =
    let e : ((65536 * suc k == 0) || (rows == 0)) ≡ false = ground arith in
    rw e (ap (λ (t : ℕ). (t, rows % 2 ^ 16)) (omega arith))

-- The size that the PTY gets is cut to 16 bits: a sole client's width that is a multiple of 65536
-- passes the guard against a zero dimension, and the PTY becomes 0 columns wide.
resize_wraps :
    (s : Session) (c : SessionClient) (k rows : ℕ)
    → rows ≢ 0
    → (apply_resize_for_remote
        (λ x y. true)
        (record s { clients = c ∷ [] })
        c.remote
        (65536 * suc k)
        rows).session.winsize
      ≡ (0, rows % 2 ^ 16)
unfolding apply_resize_for_remote
resize_wraps s c k rows nz =
    rw
      (
        sole_by_remote c,
        apply_resize_for_remote,
        sole_update c (65536 * suc k) rows,
        sole_geometry c (65536 * suc k) rows (omega arith) nz,
      )
      (wide_winsize _ k rows nz)
