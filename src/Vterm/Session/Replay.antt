-- ===== src/Vterm/Session/Replay.antt =====
-- vterm/vterm.go, bridgeClient: what a client is sent first, and what a chunk of output makes of it
-- that arrives between the client's admission and its replay.
pub mod Admission
use mosey.Base.{
  ℕ, ◌+◌, ◌-◌, ◌%◌, ◌^◌, ◌≤◌, ◌<◌, ◌≡◌, ◌≢◌, refl, sym, ◌∙◌, ap, subst, arith, Bool, true, false,
}
use mosey.Base.{◌⊎◌, inl, inr, List, [], ◌∷◌, ◌++◌, Option, none, some, Bool-cases, Option-cases}
use mosey.Base.{
  ◌==◌, ==_self, ltb, leb, if◌then◌else◌, Bytes, ◌||◌, length, map, drop, length-append,
}
use mosey.Base.{lt→ltb}
use mosey.Auth.Identity.{Stream, can_write, identity_of}
use mosey.Streambuf.Ring.{OutputRing, Replayed, from, write, append_bytes, next_seq}
use mosey.Streambuf.Ring.History.{Represents, write-Represents}
use mosey.Streambuf.Ring.Replay.{owed, lost, from-history}
use mosey.Vterm.Responder.{DaResponder, Processed, process}
use mosey.Vterm.Session.{SessionClient, Session, client_by_id, put_client, update_client}
use mosey.Vterm.Session.{apply_pty_size, client_buffer_chunks}
use mosey.Vterm.Session.Admit.{Decision, Added, admit, new_client, register, decided}
use mosey.Vterm.Session.Admit.{add_client_locked, add_client, sized}
use mosey.Vterm.Session.Ops.{offer, broadcast}
use mosey.Vterm.Session.Step.{Event, run, step, attaches, outputs, replays, types}
use mosey.Vterm.Session.Stream.{pump_round, replay_to}
use mosey.Vterm.Session.Replay.Admission.{
  Joined, client_by_id-map, client_by_id-update, add_client-Joined,
}

-- A chunk offered to a client with room in its channel.
offered :
    (chunk : Bytes) (c : SessionClient)
    → length c.out_ch < client_buffer_chunks
    → offer chunk c ≡ record c { out_ch = c.out_ch ++ chunk ∷ [] }
offered chunk c room = rw (lt→ltb (length c.out_ch) client_buffer_chunks room)

offer-id : (chunk : Bytes) (c : SessionClient) → (offer chunk c).id ≡ c.id
offer-id chunk c = ground arith

kept_whole : (n : ℕ) (h : Bytes) → length h ≤ n → owed n h 0 ≡ h
kept_whole n h fits = let e : length h - n ≡ 0 = omega arith in ground (arith, e)

-- A replay of a history of bytes that the ring still has whole.
whole_history :
    (r : OutputRing) (h : Bytes)
    → Represents r h
    → length h ≤ r.capacity
    → ((from r 0).out ≡ h) × ((from r 0).error ≡ none)
whole_history r h v fits =
    let (out, next, error) = from-history r h 0 v (omega arith) in
    (out ∙ kept_whole r.capacity h fits, error ∙ ground arith)

has_bytes : (h : Bytes) → h ≢ [] → (length h == 0) ≡ false
has_bytes [] ne = absurd (ne refl)
has_bytes (x ∷ h) ne = ground arith

nonempty : (h o : Bytes) → o ≢ [] → h ++ o ≢ []
nonempty [] o ne e = ne e
nonempty (x ∷ h) o ne e = absurd (cc)

replay_to-shape :
    (t : Session) (c : SessionClient) (h : Bytes) (r : Replayed)
    → client_by_id c.id t.clients ≡ some c
    → r.out ≡ h
    → r.error ≡ none
    → h ≢ []
    → length c.out_ch < client_buffer_chunks
    → client_by_id c.id (replay_to t c.id r).clients
      ≡ some (record c { out_ch = c.out_ch ++ h ∷ [] })
replay_to-shape t c h r there o e ne room =
    rw (e, o, has_bytes h ne)
      (client_by_id-update (offer h) (offer-id h) c.id t.clients c there
        ∙ ap some (offered h c room))

write-capacity : (r : OutputRing) (p : Bytes) → (write r p).0.capacity ≡ r.capacity
unfolding write append_bytes
write-capacity r p = ground arith

-- The round of pumpOutput, seen from a client that has room.
pumped :
    (t : Session) (chunk h o : Bytes) (c : SessionClient)
    → chunk ≢ []
    → (process t.da_resp chunk).out ≡ o
    → o ≢ []
    → client_by_id c.id t.clients ≡ some c
    → length c.out_ch < client_buffer_chunks
    → Represents t.output h
    → length h + length o + 1 < 2 ^ 64
    → (client_by_id c.id (pump_round t chunk).clients
        ≡ some (record c { out_ch = c.out_ch ++ o ∷ [] }))
      × Represents (pump_round t chunk).output (h ++ o)
      × ((pump_round t chunk).output.capacity ≡ t.output.capacity)
unfolding pump_round broadcast
pumped t chunk h o c ne e full there room v fits =
    rw (has_bytes chunk ne, e, has_bytes o full)
      (
        client_by_id-map (offer o) (offer-id o) c.id t.clients c there ∙ ap some (offered o c room),
        (write-Represents t.output h o v fits).0,
        write-capacity t.output o,
      )

-- A client with an empty channel gets what the ring has, as one chunk.
first_chunk :
    (t : Session) (c : SessionClient) (h : Bytes)
    → client_by_id c.id t.clients ≡ some c
    → c.out_ch ≡ []
    → Represents t.output h
    → length h ≤ t.output.capacity
    → h ≢ []
    → client_by_id c.id (replay_to t c.id (from t.output 0)).clients
      ≡ some (record c { out_ch = h ∷ [] })
first_chunk t c h there empty v fits ne =
    let (o, e) = whole_history t.output h v fits in
    replay_to-shape t c h (from t.output 0) there o e ne (rw empty (omega arith))
    ∙ ap (λ ch. some (record c { out_ch = ch ++ h ∷ [] })) empty

-- What clients type leaves the registry and the ring alone.
abbrev pub typings : List (Bool × Bytes) → List Event
typings [] = []
typings ((may, bytes) ∷ keys) = types may bytes ∷ typings keys

typing_keeps :
    (t : Session) (keys : List (Bool × Bytes))
    → ((run t (typings keys)).clients ≡ t.clients) × ((run t (typings keys)).output ≡ t.output)
unfolding run step
typing_keeps t [] = (refl, refl)
typing_keeps t ((true, bytes) ∷ keys) = typing_keeps _ keys
typing_keeps t ((false, bytes) ∷ keys) = typing_keeps t keys

-- A fresh attach, up to its replay: where the ring still has the whole history of the output, which is not
-- empty, and nothing but the writes of input goroutines comes between the admission, the read of the ring
-- and the send, the admitted client is then in the registry with exactly one chunk in its channel, the
-- history.
pub attach_gets_history :
    (setsize : ℕ → ℕ → Bool) (s : Session) (stream : Stream) (c : SessionClient) (h : Bytes)
    (before between : List (Bool × Bytes))
    → (add_client setsize s stream).1 ≡ some c
    → Represents s.output h
    → length h ≤ s.output.capacity
    → h ≢ []
    → client_by_id c.id
        (step (run (run (step s (attaches setsize stream)) (typings before)) (typings between)) (
          replays c.id
            (from (run (step s (attaches setsize stream)) (typings before)).output 0))).clients
      ≡ some (record c { out_ch = h ∷ [] })
unfolding step
attach_gets_history setsize s stream c h before between admitted v fits ne =
    let t = (add_client setsize s stream).0 in
    let j = add_client-Joined setsize s stream c admitted in
    let u = run t (typings before) in
    let (clients, output) = typing_keeps t before in
    let (clients', output') = typing_keeps u between in
    subst
      (λ r.
        client_by_id c.id (replay_to (run u (typings between)) c.id (from r 0)).clients
        ≡ some (record c { out_ch = h ∷ [] }))
      output'
      (first_chunk (run u (typings between)) c h
        (ap (client_by_id c.id) (clients' ∙ clients) ∙ j.there) j.empty
        (subst (λ r. Represents r h) (sym (output' ∙ output ∙ j.output)) v)
        (subst (λ r. length h ≤ r.capacity) (sym (output' ∙ output ∙ j.output)) fits) ne)

-- A replay whose read of the ring is followed by its send at once.
abbrev pub replayed : Session → ℕ → Session
replayed s id = step s (replays id (from s.output 0))

race :
    (t : Session) (chunk h o : Bytes) (c : SessionClient)
    → chunk ≢ []
    → (process t.da_resp chunk).out ≡ o
    → o ≢ []
    → client_by_id c.id t.clients ≡ some c
    → c.out_ch ≡ []
    → Represents t.output h
    → length h + length o ≤ t.output.capacity
    → length h + length o + 1 < 2 ^ 64
    → client_by_id c.id
        (replay_to (pump_round t chunk) c.id (from (pump_round t chunk).output 0)).clients
      ≡ some (record c { out_ch = o ∷ (h ++ o) ∷ [] })
race t chunk h o c ne e full there empty v fits bound =
    let (there', v', same) =
      pumped t chunk h o c ne e full there (rw empty (omega arith)) v bound in
    let (out, error) =
      whole_history (pump_round t chunk).output (h ++ o) v' (rw (length-append h o, same) fits) in
    replay_to-shape (pump_round t chunk) (record c { out_ch = c.out_ch ++ o ∷ [] }) (h ++ o)
      (from (pump_round t chunk).output 0) there' out error (nonempty h o full)
      (rw empty (omega arith))
    ∙ ap (λ ch. some (record c { out_ch = (ch ++ o ∷ []) ++ (h ++ o) ∷ [] })) empty

-- A round of output with the bytes `o` that comes between the admission of a client and its replay, whose
-- read of the ring and send follow each other at once, is sent to the client twice, the first time before
-- the history that it follows.
pub attach_race :
    (setsize : ℕ → ℕ → Bool) (s : Session) (stream : Stream) (c : SessionClient) (chunk h o : Bytes)
    → (add_client setsize s stream).1 ≡ some c
    → chunk ≢ []
    → (process s.da_resp chunk).out ≡ o
    → o ≢ []
    → Represents s.output h
    → length h + length o ≤ s.output.capacity
    → length h + length o + 1 < 2 ^ 64
    → client_by_id c.id
        (replayed (run s (attaches setsize stream ∷ outputs chunk ∷ [])) c.id).clients
      ≡ some (record c { out_ch = o ∷ (h ++ o) ∷ [] })
unfolding run step
attach_race setsize s stream c chunk h o e ne p full v fits bound =
    let j = add_client-Joined setsize s stream c e in
    race (add_client setsize s stream).0 chunk h o c ne
      (ap (λ d. (process d chunk).out) j.da_resp ∙ p) full j.there j.empty
      (subst (λ r. Represents r h) (sym j.output) v) (rw j.output fits) bound
