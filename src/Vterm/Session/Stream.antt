-- ===== src/Vterm/Session/Stream.antt =====
-- vterm/session.go and vterm/vterm.go: the bytes that pass through a session, from the PTY to the
-- clients (pumpOutput), at the start of an attach (bridgeClient) and from a client to the PTY.
use mosey.Base.{ℕ, Bool, none, some, List, [], ◌∷◌, ◌++◌, Bytes, length, ◌==◌}
use mosey.Base.{if◌then◌else◌}
use mosey.Streambuf.Ring.{Replayed, write}
use mosey.Vterm.Responder.{process}
use mosey.Vterm.Session.{Session, client_by_id, update_client}
use mosey.Vterm.Session.Ops.{offer, broadcast}

-- One round of pumpOutput, for the bytes of one read. The responses go to the PTY first, then the
-- output goes to the ring and to the clients.
unfoldable pub pump_round : Session → Bytes → Session
pump_round s chunk =
    if length chunk == 0
    then s
    else (let p = process s.da_resp chunk in
        let t = record s { da_resp = p.responder; pty_input = s.pty_input ++ p.resp } in
        if length p.out == 0
        then t
        else broadcast (record t { output = (write t.output p.out).0 }) p.out)

-- pumpOutput
unfoldable pub pump_output : Session → List Bytes → Session
pump_output s [] = s
pump_output s (chunk ∷ chunks) = pump_output (pump_round s chunk) chunks

-- The replay of bridgeClient, after the admission and outside the lock: sent only where the ring had all
-- of it.
abbrev pub replay_to : Session → ℕ → Replayed → Session
replay_to s id r = elim r.error [
  | some e ↦ s
  | none ↦
      if length r.out == 0
      then s
      else record s { clients = update_client id (offer r.out) s.clients }
]

-- The read of `client.canWrite` by the input goroutine, under the lock and through its pointer: a client
-- that has left the registry keeps what it had then, `left`.
unfoldable pub input_allowed : Session → ℕ → Bool → Bool
input_allowed s id left = elim (client_by_id id s.clients) [ none ↦ left | some c ↦ c.can_write ]

-- What the input goroutine then does with the bytes of its read, outside the lock.
abbrev pub write_input : Session → Bool → Bytes → Session
write_input s may bytes = if may then record s { pty_input = s.pty_input ++ bytes } else s
