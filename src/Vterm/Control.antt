-- ===== src/Vterm/Control.antt =====
-- vterm/control.go: the frames of a control stream and what each does to the session.
pub mod Rights
use mosey.Base.{ℕ, Bool, true, false, ◌||◌, Option, none, some, List, [], ◌∷◌, ◌++◌, Bytes}
use mosey.Base.{◌==◌, if◌then◌else◌}
use mosey.Auth.Identity.{PeerIdentity, can_write, can_resize, is_owner}
use mosey.Vterm.Mode.{Mode, mode_unspecified, mode_supersede, mode_exclusive}
use mosey.Vterm.Mode.{mode_primary_observer, mode_multi_write, mode_from_api}
use mosey.Vterm.Session.{Session}
use mosey.Vterm.Session.Ops.{ClientSnapshot, apply_resize_for_remote, set_mode, demote_remote}
use mosey.Vterm.Session.Ops.{list_clients, promote_client, kick_client}

-- api.ControlMessage: its payload, where `unknown` is one that this version does not know.
pub data ControlMessage : Type 0 where
  resize : ℕ → ℕ → ControlMessage
  signal : ℕ → ControlMessage
  set_mode_to : ℕ → ControlMessage
  demote : ControlMessage
  get_clients : ControlMessage
  promote : ℕ → ControlMessage
  kick_out : ℕ → ControlMessage
  client_list unknown : ControlMessage

-- The allow-list of applySignal, from api.Signal_Kind.
pub data OsSignal : Type 0 where
  sighup sigint sigterm sigusr1 sigusr2 : OsSignal

unfoldable pub signal_of_kind : ℕ → Option OsSignal
signal_of_kind k =
    if k == 1
    then some sighup
    else if k == 2
    then some sigint
    else if k == 3
    then some sigterm
    else if k == 4
    then some sigusr1
    else if k == 5
    then some sigusr2
    else none

-- The world of a control stream: the session, the signals that the child was sent, and the client
-- lists written to the peer.
pub record World : Type 0 where
  pub session : Session
  pub signals : List OsSignal
  pub replies : List (List ClientSnapshot)

-- What the kernel and the peer answer: to the winsize ioctl, whether the child is there to be
-- signalled, and whether a reply can be written.
pub record Outside : Type 0 where
  pub setsize : ℕ → ℕ → Bool
  pub child_running : Bool
  pub reply_written : Bool

-- applyResize; an error is only logged.
unfoldable pub apply_resize : Outside → World → Bytes → ℕ → ℕ → World
apply_resize out w remote cols rows = if cols == 0 || rows == 0 then w else record w {
  session = (apply_resize_for_remote out.setsize w.session remote cols rows).session;
}

-- applySignal; an error is only logged.
unfoldable pub apply_signal : Outside → World → ℕ → World
apply_signal out w kind = elim (signal_of_kind kind) [
  | none ↦ w
  | some sig ↦ if out.child_running then record w { signals = w.signals ++ sig ∷ [] } else w
]

abbrev pub switch_mode : World → Mode → World
switch_mode w mode_unspecified = w
switch_mode w mode_supersede = record w { session = (set_mode w.session mode_supersede).0 }
switch_mode w mode_exclusive = record w { session = (set_mode w.session mode_exclusive).0 }
switch_mode w mode_primary_observer = record w {
  session = (set_mode w.session mode_primary_observer).0;
}
switch_mode w mode_multi_write = record w { session = (set_mode w.session mode_multi_write).0 }

-- One round of the loop of handleControl: the world, and whether the loop goes on.
unfoldable pub control_step : Outside → PeerIdentity → Bytes → World → ControlMessage → World × Bool
control_step out who remote w (resize cols rows) =
    (if can_resize who then apply_resize out w remote cols rows else w, true)
control_step out who remote w (signal kind) =
    (if can_write who then apply_signal out w kind else w, true)
control_step out who remote w (set_mode_to kind) =
    (if is_owner who then switch_mode w (mode_from_api kind) else w, true)
control_step out who remote w demote =
    (record w { session = (demote_remote w.session remote).0 }, true)
control_step out who remote w get_clients = (
  if out.reply_written then record w { replies = w.replies ++ list_clients w.session ∷ [] } else w,
  out.reply_written,
)
control_step out who remote w (promote id) =
    (if is_owner who then record w { session = (promote_client w.session id).0 } else w, true)
control_step out who remote w (kick_out id) =
    (if is_owner who then record w { session = (kick_client w.session id).0 } else w, true)
control_step out who remote w client_list = (w, true)
control_step out who remote w unknown = (w, true)

-- handleControl over the frames that arrive until the stream ends, each with the answers of the
-- outside at that time.
unfoldable pub handle_control :
    PeerIdentity → Bytes → World → List (Outside × ControlMessage) → World
handle_control who remote w [] = w
handle_control who remote w ((out, m) ∷ ms) =
    let (w', more) = control_step out who remote w m in
    if more then handle_control who remote w' ms else w'
