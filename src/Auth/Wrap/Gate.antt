-- ===== src/Auth/Wrap/Gate.antt =====
-- auth/wrap.go: what a run of the wrapper lets through.
use mosey.Base.{
  Bool, true, false, Option, none, some, List, [], ◌∷◌, Bytes, bytes_eq, bytes_eq_self,
}
use mosey.Base.{bytes_eq→eq, if◌then◌else◌, Result, err, ok, ◌≡◌, refl, sym, ap, arith}
use mosey.Base.{inl, inr, Bool-cases}
use mosey.Base.Dict.{lookup, insert, erase, lookup-insert, lookup-erase}
use mosey.Auth.Identity.{PeerIdentity, Stream, identity_of}
use mosey.Auth.Wrap.{
  Installed, serving, gated, Wrapped, Arrival, unsupported, closed, acknowledged, called,
}
use mosey.Auth.Wrap.{
  proto_auth, DialError, wrap, handle, unhandle, serve, serve_stream, gate, dispatch,
}
use mosey.Base.{subst, ◌≢◌}
use mosey.Auth.Wrap.{admit_as}
use mosey.Auth.Wrap.{arrive, dial}
use mosey.Auth.Wrap.Steps.{
  Event, handles, unhandles, serves, arrives, dials, step, run, Ledger, nobody, enter, record_event,
  record_all,
}

abbrev pub served_handler : {H : Type 0} → Bool → Option (Installed H)
served_handler true = some serving
served_handler false = none

-- What a handler of the application is told of a remote.
abbrev pub Sees : Option PeerIdentity → Bytes → Stream → Type 0
Sees known remote s =
    (id : PeerIdentity) × (known ≡ some id) × (s.remote_id ≡ remote) × (identity_of s ≡ id)

-- No protocol but that of the handshake is served.
abbrev Ungated : {H : Type 0} → Option (Installed H) → Type 0
Ungated none = Unit
Ungated (some serving) = ¬ Unit
Ungated (some (gated h)) = Unit

-- The wrapper is in the state that the ledger tells of.
abbrev pub Keeps : {H : Type 0} → Wrapped H → Ledger → Type 0
Keeps w l =
    (lookup bytes_eq proto_auth w.inner ≡ served_handler l.served)
    × ((proto : Bytes)
        → bytes_eq proto_auth proto ≡ false
        → Ungated (lookup bytes_eq proto w.inner))
    × ((remote : Bytes) → lookup bytes_eq remote w.identities ≡ l.authenticated remote)

module _ {V : Type 0} where
  lookup_put :
      (k j : Bytes) (v : V) (m : List (Bytes × V))
      → lookup bytes_eq j (insert bytes_eq k v m)
        ≡ (if bytes_eq k j then some v else lookup bytes_eq j m)
  lookup_put = lookup-insert bytes_eq bytes_eq_self bytes_eq→eq

  lookup_cut :
      (k j : Bytes) (m : List (Bytes × V))
      → lookup bytes_eq j (erase bytes_eq k m)
        ≡ (if bytes_eq k j then none else lookup bytes_eq j m)
  lookup_cut = lookup-erase bytes_eq bytes_eq_self bytes_eq→eq

module _ {H : Type 0} where
  if-Ungated :
      (b : Bool) (o : Option (Installed H)) (q : Option (Installed H))
      → Ungated o
      → Ungated q
      → Ungated (if b then o else q)
  if-Ungated true o q ho hq = ho
  if-Ungated false o q ho hq = hq

  handle-Keeps :
      (w : Wrapped H) (l : Ledger) (proto : Bytes) (h : H) → Keeps w l → Keeps (handle w proto h) l
  unfolding handle
  handle-Keeps w l proto h (auth, rest, ids) = elim (Bool-cases (bytes_eq proto proto_auth)) [
    | inl auth_proto ↦ rw auth_proto (auth, rest, ids)
    | inr other_proto ↦ rw other_proto (
      rw (lookup_put proto proto_auth (gated h) w.inner, other_proto) auth,
      (λ other apart.
          rw (lookup_put proto other (gated h) w.inner)
            (if-Ungated (bytes_eq proto other) _ _ tt (rest other apart))),
      ids,
    )
  ]

  unhandle-Keeps :
      (w : Wrapped H) (l : Ledger) (proto : Bytes) → Keeps w l → Keeps (unhandle w proto) l
  unfolding unhandle
  unhandle-Keeps w l proto (auth, rest, ids) = elim (Bool-cases (bytes_eq proto proto_auth)) [
    | inl auth_proto ↦ rw auth_proto (auth, rest, ids)
    | inr other_proto ↦ rw other_proto (
      rw (lookup_cut proto proto_auth w.inner, other_proto) auth,
      (λ other apart.
          rw (lookup_cut proto other w.inner)
            (if-Ungated (bytes_eq proto other) _ _ tt (rest other apart))),
      ids,
    )
  ]

  serve-Keeps :
      (w : Wrapped H) (l : Ledger) → Keeps w l → Keeps (serve w) (record l { served = true })
  unfolding serve
  serve-Keeps w l (auth, rest, ids) = (
    rw (lookup_put proto_auth proto_auth serving w.inner, bytes_eq_self proto_auth) refl,
    (λ other apart. rw (lookup_put proto_auth other serving w.inner, apart) (rest other apart)),
    ids,
  )

  wrap-Keeps : Keeps {H = H} wrap nobody
  unfolding lookup
  wrap-Keeps = (refl, (λ proto apart. tt), λ remote. refl)

  stream_of : Arrival H → Stream → Stream
  stream_of unsupported s = s
  stream_of closed s = s
  stream_of acknowledged s = s
  stream_of (called h t) s = t

  admit_as-Sees :
      (h g : H) (remote : Bytes) (o : Option PeerIdentity) (s : Stream)
      → admit_as h remote o ≡ called g s
      → Sees o remote s
  unfolding identity_of stream_of
  admit_as-Sees h g remote none s c = absurd (cc)
  admit_as-Sees h g remote (some id) s c =
      let t : Stream = record { remote_id = remote; identity = some id } in
      subst (λ x. Sees (some id) remote x) (ap (λ a. stream_of a s) c) (id, refl, refl, refl)

module _ {H E : Type 0} where
  serve_stream-Keeps :
      (w : Wrapped H) (l : Ledger) (remote : Bytes) (r : Result E PeerIdentity)
      → Keeps w l
      → Keeps (serve_stream w remote r).0 (enter l remote r)
  unfolding serve_stream
  serve_stream-Keeps w l remote (err e) k = k
  serve_stream-Keeps w l remote (ok id) (auth, rest, ids) =
      (auth, rest, λ other. rw (lookup_put remote other id w.identities, ids other) refl)

  dial-Keeps :
      (w : Wrapped H) (l : Ledger) (opened : Bool) (r : Result (DialError E) PeerIdentity)
      (app : Option Bytes)
      → Keeps w l
      → Keeps (dial w opened r app).0 l
  unfolding dial
  dial-Keeps w l false r app k = k
  dial-Keeps w l true (err e) app k = k
  dial-Keeps w l true (ok id) none k = k
  dial-Keeps w l true (ok id) (some remote) k = k

  -- A stream of another protocol changes nothing.
  dispatch_rest :
      (w : Wrapped H) (remote : Bytes) (r : Result E PeerIdentity) (o : Option (Installed H))
      → Ungated o
      → (dispatch w remote r o).0 ≡ w
  dispatch_rest w remote r none u = refl
  dispatch_rest w remote r (some serving) u = absurd (u tt)
  dispatch_rest w remote r (some (gated h)) u = refl

  dispatch_served :
      (w : Wrapped H) (l : Ledger) (remote : Bytes) (r : Result E PeerIdentity) (b : Bool)
      → Keeps w l
      → Keeps (dispatch w remote r (served_handler b)).0 (if b then enter l remote r else l)
  dispatch_served w l remote r true k = serve_stream-Keeps w l remote r k
  dispatch_served w l remote r false k = k

  arrive-Keeps :
      (w : Wrapped H) (l : Ledger) (proto remote : Bytes) (r : Result E PeerIdentity)
      → Keeps w l
      → Keeps (arrive w proto remote r).0 (record_event {H = H} l (arrives proto remote r))
  unfolding arrive
  arrive-Keeps w l proto remote r k = elim (Bool-cases (bytes_eq proto proto_auth)) [
    | inl same ↦
        let e : proto_auth ≡ proto = sym (bytes_eq→eq proto proto_auth same) in
        rw same (rw⁻¹ e (rw k.0 (dispatch_served w l remote r l.served k)))
    | inr other ↦
        let apart : bytes_eq proto_auth proto ≡ false =
          ground (arith, bytes_eq→eq proto_auth proto, bytes_eq_self proto) in
        rw (other, dispatch_rest w remote r _ (k.1 proto apart)) k
  ]

  step-Keeps :
      (w : Wrapped H) (l : Ledger) (e : Event H E) → Keeps w l → Keeps (step w e) (record_event l e)
  unfolding step
  step-Keeps w l (handles proto h) k = handle-Keeps w l proto h k
  step-Keeps w l (unhandles proto) k = unhandle-Keeps w l proto k
  step-Keeps w l serves k = serve-Keeps w l k
  step-Keeps w l (arrives proto remote r) k = arrive-Keeps w l proto remote r k
  step-Keeps w l (dials opened r app) k = dial-Keeps w l opened r app k

  run-Keeps :
      (w : Wrapped H) (l : Ledger) (es : List (Event H E))
      → Keeps w l
      → Keeps (run w es) (record_all l es)
  unfolding run
  run-Keeps w l [] k = k
  run-Keeps w l (e ∷ es) k = run-Keeps (step w e) (record_event l e) es (step-Keeps w l e k)

  serve_stream_calls_none :
      (w : Wrapped H) (remote : Bytes) (r : Result E PeerIdentity) (g : H) (s : Stream)
      → (serve_stream w remote r).1 ≢ called g s
  unfolding serve_stream
  serve_stream_calls_none w remote (err e) g s c = cc
  serve_stream_calls_none w remote (ok id) g s c = cc

  dispatch-Sees :
      (w : Wrapped H) (remote : Bytes) (r : Result E PeerIdentity) (o : Option (Installed H))
      (g : H) (s : Stream)
      → (dispatch w remote r o).1 ≡ called g s
      → Sees (lookup bytes_eq remote w.identities) remote s
  unfolding gate
  dispatch-Sees w remote r none g s c = absurd (cc)
  dispatch-Sees w remote r (some serving) g s c = absurd (serve_stream_calls_none w remote r g s c)
  dispatch-Sees w remote r (some (gated h)) g s c = admit_as-Sees h g remote _ s c

  -- After any sequence of events, in any order: when a stream of `remote` reaches a handler of the
  -- application, then a handshake with that remote has succeeded behind Serve, and the identity that the
  -- handler sees is the one that the latest such handshake returned. No other event lets a stream through.
  pub handlers_see_authenticated :
      (es : List (Event H E)) (proto remote : Bytes) (r : Result E PeerIdentity) (g : H)
      (s : Stream)
      → (arrive (run wrap es) proto remote r).1 ≡ called g s
      → Sees ((record_all {H = H} nobody es).authenticated remote) remote s
  unfolding arrive
  handlers_see_authenticated es proto remote r g s c =
      let k = run-Keeps wrap nobody es wrap-Keeps in
      let w : Wrapped H = run wrap es in
      let seen = dispatch-Sees w remote r (lookup bytes_eq proto w.inner) g s c in
      subst (λ o. Sees o remote s) (k.2 remote) seen
