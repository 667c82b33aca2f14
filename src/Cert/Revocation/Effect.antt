-- ===== src/Cert/Revocation/Effect.antt =====
-- cert/revocation.go and cert/cert.go: an appended serial is revoked.
use mosey.Base.{ℕ, true, false, none, some, List, [], ◌∷◌, ◌++◌, Bytes}
use mosey.Base.{bytes_eq, bytes_eq_self, length, ◌==◌, ltb, ◌<◌, lt→ltb}
use mosey.Base.{Result, ok, unless-ok, ok_same, ◌≡◌, ◌≢◌, refl, sym, ap, ◌∙◌}
use mosey.Base.{append-nil, append_assoc, arith, Bool-cases, inl, inr, ◌⊎◌}
use mosey.Wallet.Text.{has_prefix}
use mosey.Cert.Claims.{Cert, Claim, Keys, VerifyOptions, mem_serial, verify}
use mosey.Cert.Claims.Valid.{verify_iff}
use mosey.Cert.Revocation.{
  newline, comment_mark, max_scan_token_size, trim_space, raw_lines, drop_cr,
}
use mosey.Cert.Revocation.{
  RevocationError, too_long, add_serial, note_line, parse_lines, parse_revocation,
}
use mosey.Cert.Revocation.{holding, load_revocation_file, has_byte}
use mosey.Cert.Revocation.{contains_any, append_revocation}

-- A serial without white space around it.
abbrev pub Bare : Bytes → Type 0
Bare s = (drop_cr s ≡ s) × (trim_space s ≡ s)

-- Every line of the file has its newline.
abbrev pub Terminated : Bytes → Type 0
Terminated f = (f ≡ []) ⊎ ((g : Bytes) × (f ≡ g ++ newline ∷ []))

raw_lines-newline :
    (line f g : Bytes)
    → raw_lines line (f ++ newline ∷ g) ≡ raw_lines line (f ++ newline ∷ []) ++ raw_lines [] g
unfolding raw_lines
raw_lines-newline line [] g = refl
raw_lines-newline line (b ∷ f) g = elim (Bool-cases (b == newline)) [
  | inl e ↦ rw e (ap (◌∷◌ line) (raw_lines-newline [] f g))
  | inr e ↦ rw e (raw_lines-newline (line ++ b ∷ []) f g)
]

-- A line without a newline in it.
raw_lines_one :
    (line s : Bytes)
    → contains_any s (newline ∷ comment_mark ∷ []) ≡ false
    → raw_lines line (s ++ newline ∷ []) ≡ (line ++ s) ∷ []
unfolding raw_lines contains_any has_byte
raw_lines_one line [] h = rw append-nil refl
raw_lines_one line (b ∷ s) h =
    let apart : (b == newline) ≡ false = ground arith in
    let rest : contains_any s (newline ∷ comment_mark ∷ []) ≡ false = ground arith in
    rw apart
      (raw_lines_one (line ++ b ∷ []) s rest ∙ ap (λ x. x ∷ []) (append_assoc line (b ∷ []) s))

raw_lines_nil : raw_lines [] [] ≡ []
unfolding raw_lines
raw_lines_nil = refl

-- The lines of a file to which a serial has been appended.
raw_lines_appended :
    (f s : Bytes)
    → Terminated f
    → contains_any s (newline ∷ comment_mark ∷ []) ≡ false
    → raw_lines [] (f ++ s ++ newline ∷ []) ≡ raw_lines [] f ++ s ∷ []
raw_lines_appended f s t h = elim t [
  | inl e ↦ rw (e, raw_lines_nil) (raw_lines_one [] s h)
  | inr (g, e) ↦
      rw
        (
          e,
          append_assoc (g ++ newline ∷ []) s (newline ∷ []),
          append_assoc g (newline ∷ []) (s ++ newline ∷ []),
          raw_lines-newline [] g (s ++ newline ∷ []),
          raw_lines_one [] s h,
        )
        refl
]

parse_lines-append :
    (ls : List Bytes) (set : List Bytes) (l : Bytes) {old : List Bytes}
    → parse_lines set ls ≡ ok old
    → length l < max_scan_token_size
    → parse_lines set (ls ++ l ∷ []) ≡ ok (note_line old (trim_space (drop_cr l)))
unfolding parse_lines
parse_lines-append [] set l h short =
    let fits = lt→ltb (length l) max_scan_token_size short in
    rw fits (ap (λ x. ok (note_line x (trim_space (drop_cr l)))) (ok_same h))
parse_lines-append (k ∷ ls) set l h short =
    let (fits, rest) = unless-ok (ltb (length k) max_scan_token_size) too_long _ h in
    rw fits (parse_lines-append ls (note_line set (trim_space (drop_cr k))) l rest short)

-- A serial that AppendRevocation takes is neither empty nor a comment.
note_line-serial :
    (old : List Bytes) (s : Bytes)
    → bytes_eq s [] ≡ false
    → contains_any s (newline ∷ comment_mark ∷ []) ≡ false
    → note_line old s ≡ add_serial s old
unfolding note_line has_prefix contains_any has_byte bytes_eq
note_line-serial old [] h k = absurd (cc)
note_line-serial old (b ∷ s) h k =
    let plain : (comment_mark == b) ≡ false = ground arith in rw plain refl

mem_serial-last : (s : Bytes) (xs : List Bytes) → mem_serial s (xs ++ s ∷ []) ≡ true
unfolding mem_serial
mem_serial-last s [] = rw (bytes_eq_self s) refl
mem_serial-last s (x ∷ xs) = ground (arith, mem_serial-last s xs)

mem_serial-append :
    (s : Bytes) (xs ys : List Bytes) → mem_serial s xs ≡ true → mem_serial s (xs ++ ys) ≡ true
unfolding mem_serial
mem_serial-append s [] ys h = absurd (cc)
mem_serial-append s (x ∷ xs) ys h = ground (arith, mem_serial-append s xs ys)

mem_serial-add : (s : Bytes) (old : List Bytes) → mem_serial s (add_serial s old) ≡ true
unfolding add_serial
mem_serial-add s old = elim (Bool-cases (mem_serial s old)) [
  | inl there ↦ rw (there, there) refl
  | inr fresh ↦ rw fresh (mem_serial-last s old)
]

mem_serial-keep :
    (s t : Bytes) (old : List Bytes)
    → mem_serial t old ≡ true
    → mem_serial t (add_serial s old) ≡ true
unfolding add_serial
mem_serial-keep s t old h = elim (Bool-cases (mem_serial s old)) [
  | inl there ↦ rw there h
  | inr fresh ↦ rw fresh (mem_serial-append t old (s ∷ []) h)
]

-- AppendRevocation without an error has checked the serial and written its line.
append_revocation-none :
    (f s : Bytes)
    → (append_revocation (holding f) none s).1 ≡ none
    → (bytes_eq s [] ≡ false)
      × (contains_any s (newline ∷ comment_mark ∷ []) ≡ false)
      × ((append_revocation (holding f) none s).0 ≡ holding (f ++ s ++ newline ∷ []))
unfolding append_revocation
append_revocation-none f s h = ground arith

-- What the set of a file is after an append.
abbrev pub Adds : Bytes → List Bytes → Result RevocationError (List Bytes) → Type 0
Adds s old r =
    (new : List Bytes) × (r ≡ ok new)
    × (mem_serial s new ≡ true)
    × ((t : Bytes) → mem_serial t old ≡ true → mem_serial t new ≡ true)

-- To a file that loads and whose last line ends in a newline, a serial without white space around it, of
-- less than 64 KiB, that AppendRevocation accepts: afterwards the file loads, the serial is in its set,
-- and so is every serial that was.
pub append_revocation-Adds :
    (f s : Bytes) {old : List Bytes}
    → load_revocation_file (holding f) ≡ ok old
    → Terminated f
    → Bare s
    → length s < max_scan_token_size
    → (append_revocation (holding f) none s).1 ≡ none
    → Adds s old (load_revocation_file (append_revocation (holding f) none s).0)
unfolding load_revocation_file parse_revocation
append_revocation-Adds f s {old} loaded ends (no_cr, bare) short accepted =
    let (filled, plain, written) = append_revocation-none f s accepted in
    let lines = raw_lines_appended f s ends plain in
    let parsed = parse_lines-append (raw_lines [] f) [] s loaded short in
    rw (written, lines, parsed, no_cr, bare, note_line-serial old s filled plain)
      (add_serial s old, refl, mem_serial-add s old, λ t h. mem_serial-keep s t old h)

-- A serial without white space around it, of less than 64 KiB, is appended by AppendRevocation without an
-- error to a file that loads and whose last line ends in a newline, and the file is loaded again: then
-- Verify with that set refuses every certificate with the serial, whatever else it says.
pub appended_serial_is_refused :
    (f s : Bytes) {old : List Bytes} (lib : Keys) (c : Cert) (o : VerifyOptions) (wall : ℕ)
    (claim : Claim)
    → load_revocation_file (holding f) ≡ ok old
    → Terminated f
    → Bare s
    → length s < max_scan_token_size
    → (append_revocation (holding f) none s).1 ≡ none
    → load_revocation_file (append_revocation (holding f) none s).0 ≡ ok o.revoked_serials
    → claim.serial ≡ s
    → verify lib (some c) o wall ≢ ok claim
appended_serial_is_refused f s lib c o wall claim loaded ends bare short accepted reloaded serial
      h =
    let (new, q, revoked, _) = append_revocation-Adds f s loaded ends bare short accepted in
    let (_, (_, _, _, free, _)) = (verify_iff lib c o wall claim).0 h in
    let same : new ≡ o.revoked_serials = ok_same (sym q ∙ reloaded) in
    let listed : mem_serial claim.serial o.revoked_serials ≡ true = rw⁻¹ same (rw serial revoked) in
    cc
