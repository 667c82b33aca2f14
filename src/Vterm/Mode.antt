-- ===== src/Vterm/Mode.antt =====
-- vterm/mode.go: the session modes and their names, and the wire's SetMode kinds with the CLI's parser
-- for them (cmd/mosey/control.go).
use mosey.Base.{ℕ, ◌≡◌, refl, ◌≢◌, ◌↔◌, Bytes, codes, bytes_eq}
use mosey.Base.{if◌then◌else◌, ◌==◌, Result, ok, err, ◌>>=◌, arith, bytes_eq→eq}

pub data Mode : Type 0 where
  mode_unspecified mode_supersede mode_exclusive mode_primary_observer mode_multi_write : Mode

-- The error carries the refused text.
pub data ModeError : Type 0 where
  unknown_mode : Bytes → ModeError

-- String
pub mode_string : Mode → Bytes
mode_string mode_supersede = codes "supersede"
mode_string mode_exclusive = codes "exclusive"
mode_string mode_primary_observer = codes "primary-observer"
mode_string mode_multi_write = codes "multi-write"
mode_string mode_unspecified = codes "unspecified"

-- ParseMode
pub parse_mode : Bytes → Result ModeError Mode
parse_mode s =
    if bytes_eq s (codes "supersede")
    then ok mode_supersede
    else if bytes_eq s (codes "exclusive")
    then ok mode_exclusive
    else if bytes_eq s (codes "primary-observer")
    then ok mode_primary_observer
    else if bytes_eq s (codes "multi-write")
    then ok mode_multi_write
    else err (unknown_mode s)

-- The numbers of api.SetMode_Kind; the wire may carry any other.
abbrev pub kind_supersede : ℕ
kind_supersede = 1

abbrev pub kind_exclusive : ℕ
kind_exclusive = 2

abbrev pub kind_primary_observer : ℕ
kind_primary_observer = 3

abbrev pub kind_multi_write : ℕ
kind_multi_write = 4

-- modeFromAPI
unfoldable pub mode_from_api : ℕ → Mode
mode_from_api k =
    if k == kind_supersede
    then mode_supersede
    else if k == kind_exclusive
    then mode_exclusive
    else if k == kind_primary_observer
    then mode_primary_observer
    else if k == kind_multi_write
    then mode_multi_write
    else mode_unspecified

-- parseSetModeKind
pub parse_set_mode_kind : Bytes → Result ModeError ℕ
parse_set_mode_kind s =
    if bytes_eq s (codes "supersede")
    then ok kind_supersede
    else if bytes_eq s (codes "exclusive")
    then ok kind_exclusive
    else if bytes_eq s (codes "primary-observer")
    then ok kind_primary_observer
    else if bytes_eq s (codes "multi-write")
    then ok kind_multi_write
    else err (unknown_mode s)

parse-string : (m : Mode) → m ≢ mode_unspecified → parse_mode (mode_string m) ≡ ok m
unfolding parse_mode mode_string bytes_eq
parse-string mode_unspecified h = absurd (h refl)
parse-string mode_supersede h = refl
parse-string mode_exclusive h = refl
parse-string mode_primary_observer h = refl
parse-string mode_multi_write h = refl

string-parse :
    (s : Bytes) (m : Mode) → parse_mode s ≡ ok m → (m ≢ mode_unspecified) × (s ≡ mode_string m)
unfolding parse_mode mode_string
string-parse s m h = ground (
  arith,
  bytes_eq→eq s (codes "supersede"),
  bytes_eq→eq s (codes "exclusive"),
  bytes_eq→eq s (codes "primary-observer"),
  bytes_eq→eq s (codes "multi-write"),
)

-- `--mode` accepts exactly the names of the four modes, each for its mode.
parse_mode_iff :
    (s : Bytes) (m : Mode) → (parse_mode s ≡ ok m) ↔ ((m ≢ mode_unspecified) × (s ≡ mode_string m))
parse_mode_iff s m = (string-parse s m, λ p. rw p.1 (parse-string m p.0))

-- `mosey control set-mode` names the same modes as `--mode`: its kind, sent over the wire and read
-- back by the session, is the mode that `parse_mode` gives, and the same texts are refused.
set_mode-parse_mode :
    (s : Bytes) → (parse_set_mode_kind s >>= λ k. ok (mode_from_api k)) ≡ parse_mode s
unfolding parse_set_mode_kind parse_mode mode_from_api
set_mode-parse_mode s = ground arith
