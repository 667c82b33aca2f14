-- ===== src/Lib.antt =====
-- mosey runs a program under a PTY and shares it over the network. The parts modelled here:
--   * streambuf/: the byte buffers. The output ring keeps the last bytes that the program wrote,
--     numbered by sequence, for replays; the input queue bounds the bytes that wait for the program.
--   * vterm/: the session. It owns the PTY, the output ring, the responder to the program's terminal
--     queries and the registry of attached clients. It admits clients under a mode, fans output out
--     to them, passes their input on if they may write, sizes the PTY by their geometries and obeys
--     the frames of their control streams.
--   * auth/: the identity and the capabilities that an authenticated stream carries; the handshakes by
--     which a shared secret, a certificate or a wallet's chain of delegations becomes an identity; and
--     the transport wrapper that runs a handshake before a handler sees a stream.
--   * cert/: the certificates of a workspace, signed by its master, and the file of revoked serials.
--   * attach/: the attaching client. It dials, renders, and reconnects with what it has rendered.
--   * wallet/: the credentials of wallet authentication. An owner or a granted wallet signs delegations
--     in a canonical text; a chain of them confers capabilities on the key of a connection.
--   * walletsolana/: the chain that wallets are checked against. It decodes the accounts of its program
--     into a snapshot for wallet/, and compiles and signs the transactions that change those accounts.
-- A stream's identity decides at admission whether its client may type, and on a control stream which
-- frames are obeyed. A client that comes back names the last output it rendered in a varint header
-- and gets the rest from the ring.
--
-- The files:
--   * Base and its children: shared names; lists, byte strings, dictionaries, 64-bit words, bits.
--   * Streambuf/Ring (streambuf/output_ring.go): OutputRing as a record and one function for each
--     method; Ring/History says that a ring stands for the history of the bytes written, Ring/Replay
--     what `From` gives of it.
--   * Streambuf/Queue (streambuf/input_queue.go): InputQueue; Queue/Laws its invariant.
--   * Auth/Identity (auth/identity.go, auth/wrap.go: IdentityOf).
--   * Auth/Script: a handshake as a script of writes and reads over its stream. `run` gives it whatever
--     peer, as lists of what its writes and reads answer; `talk` runs two scripts at the ends of one
--     unbuffered stream.
--   * Auth/Psk (auth/psk.go); Psk/Accepts, Psk/Honest and Psk/Entries prove.
--   * Auth/Certs (auth/cert.go); Certs/Accepts, Certs/Honest and Certs/Echo prove.
--   * Auth/Wrap (auth/wrap.go): the wrapper and the acknowledgement; Wrap/Steps its events and the ledger
--     of who has authenticated, Wrap/Gate and Wrap/Ack prove.
--   * Cert/Claims (cert/cert.go) and Cert/Revocation (cert/revocation.go); Claims/Valid and
--     Revocation/Effect prove.
--   * Attach/Errors (attach/attach.go, attach/control.go, transport/errors.go: how errors are judged),
--     Attach/Loop (attach/attach.go: Run, dialPTY, encodeVarint, nextDelay); Loop/Header and Loop/Retries
--     prove.
--   * Auth/Wallets (auth/wallet.go: ServerHandshake, resolveCaps), and its child Wallets/Dials
--     (ClientHandshake); Wallets/Admission proves.
--   * Solana/Accounts (walletsolana/decode.go, snapshot.go) and Solana/Source (walletsolana/source.go);
--     Accounts/Live and Source/Fresh prove. A map of Go's is visited in whatever order an answer names.
--   * Solana/Message (walletsolana/tx.go: compileMessage, signTx, findPDA, appendShortVec); its children
--     Merged and Index lead to Places; ShortVec and Derived prove. Nothing bounds a message here.
--   * Solana/Build (walletsolana/txbuild.go and tx.go: the instructions and the transactions around
--     them); Build/Owner and Build/Signed prove. Solana/Subscribe (walletsolana/subscribe.go).
--   * Vterm/Mode (vterm/mode.go, cmd/mosey/control.go: parseSetModeKind).
--   * Vterm/Varint (vterm/session.go: encodeResumeSeq, readResumeSeq).
--   * Vterm/Responder (vterm/queries.go): daResponder as a fold over the bytes; Responder/Splits and
--     Responder/Chunks its theorems.
--   * Vterm/Session (vterm/session.go, vterm/vterm.go): the state; Session/Admit (addClient),
--     Session/Ops (resizes, demotion, promotion, kicks, removal, broadcast), Session/Stream
--     (pumpOutput, bridgeClient), Session/Step (events and runs). Session/Kept, Writers, Modes,
--     Geometry, Replay and Resize prove.
--   * Vterm/Control (vterm/control.go): handleControl as a run over the frames of a stream;
--     Control/Rights proves.
--   * Wallet/Text, Wallet/Caps and Wallet/Lenient (wallet/caps.go), Wallet/Base58 (wallet/base58.go),
--     Wallet/Delegation and Wallet/Fold (wallet/delegation.go, wallet/snapshot.go, wallet/mem.go); Wallet/Attenuation,
--     Base58/Digits, Base58/Letters, Base58/RoundTrip, Delegation/Lines, Delegation/RoundTrip,
--     Fold/Chains, Fold/Accepts and Fold/Attenuates prove.
--   * Examples: the theorems at concrete inputs.
--
-- Numbers: bytes and words are natural numbers; 64-bit sums are taken modulo 2^64, and the ioctl's
-- 16-bit numbers modulo 2^16. Lengths of slices are taken to be below 2^63. Loops over slices are
-- recursion on lists; the two varint loops have ten rounds in the source, which are the recursion's
-- fuel here, and the round trip shows that ten are enough for every 64-bit number.
-- Concurrency: what holds `s.mu` is one step, a goroutine's work outside it is a step of its own, and
-- a run is any sequence of steps. The big numbers of base58 are natural numbers; two base58 digits a
-- byte and one byte a base58 digit are the fuel of its loops, enough since 256 < 58 * 58 and 58 < 256.
-- What the kernel answers (ioctl, signals) is an argument; so are Go's RFC 3339 format and parser and
-- its ed25519.Verify, in the record Library. Base64, SHA-256, the test for a point of the curve and the
-- signature are the records Decoders and Chain. A length n takes fewer than n + 1 groups of seven bits,
-- the fuel of appendShortVec.
--
-- Cryptography is a parameter: HMAC and HKDF in the record Crypto, Ed25519 and the wire form of a
-- certificate's content in the record Keys, whose documented laws are the record Documented. A nonce is
-- what the random source answers, an argument.
--
-- Not modelled: the transports (libp2p, HTTP/2, WebSocket, Unix sockets), which call networking
-- libraries; the rate limiter of the wallet handshake; the derivation of the master key
-- (cert/master.go); the portable form of chains (wallet/chain.go); of walletsolana/ the network (RPC,
-- JSON, the goroutines that read a subscription), the polling for a confirmation and the dashboard,
-- which only formats what it is given; the terminal of the attaching side (attach/control.go,
-- screen/); the commands and the web front end, which call these parts or the network; logging; and
-- the protobuf framing of messages, whose decoded payloads are the messages here.
pub mod Base
pub mod Streambuf
pub mod Auth
pub mod Cert
pub mod Attach
pub mod Vterm
pub mod Wallet
pub mod Solana
pub mod Examples
