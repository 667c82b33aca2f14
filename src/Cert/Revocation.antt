-- ===== src/Cert/Revocation.antt =====
-- cert/revocation.go: the file of revoked serials. What the file holds, and what opening, reading and
-- writing it answer, are arguments.
pub mod Effect
use mosey.Base.{
  ℕ, zero, suc, Bool, true, false, not, Option, none, some, List, [], ◌∷◌, ◌++◌, map, Bytes,
}
use mosey.Base.{
  bytes_eq, length, take, ◌==◌, ltb, ◌&&◌, ◌||◌, if◌then◌else◌, Result, ok, err, ◌>>=◌, unless,
  codes,
}
use mathlib.Core.List.{reverse}
use mosey.Wallet.Text.{has_prefix}
use mosey.Cert.Claims.{mem_serial}

abbrev pub newline : ℕ
newline = 10

abbrev pub carriage_return : ℕ
carriage_return = 13

abbrev pub comment_mark : ℕ
comment_mark = 35

-- bufio.MaxScanTokenSize
abbrev pub max_scan_token_size : ℕ
max_scan_token_size = 65536

-- The characters of unicode.IsSpace in UTF-8.
abbrev pub white : List Bytes
white =
    (9 ∷ [])
      ∷ (10 ∷ [])
      ∷ (11 ∷ [])
      ∷ (12 ∷ [])
      ∷ (13 ∷ [])
      ∷ (32 ∷ [])
      ∷ (0xc2 ∷ 0x85 ∷ [])
      ∷ (0xc2 ∷ 0xa0 ∷ [])
      ∷ (0xe1 ∷ 0x9a ∷ 0x80 ∷ [])
      ∷ map (λ b. 0xe2 ∷ 0x80 ∷ b ∷ [])
          (0x80 ∷ 0x81 ∷ 0x82 ∷ 0x83 ∷ 0x84 ∷ 0x85 ∷ 0x86 ∷ 0x87 ∷ 0x88 ∷ 0x89 ∷ 0x8a ∷ 0xa8 ∷ 0xa9
            ∷ 0xaf ∷ [])
    ++ (0xe2 ∷ 0x81 ∷ 0x9f ∷ []) ∷ (0xe3 ∷ 0x80 ∷ 0x80 ∷ []) ∷ []

-- The length of the white space character at the front, 0 where there is none.
unfoldable pub space_width : List Bytes → Bytes → ℕ
space_width [] s = 0
space_width (w ∷ ws) s = let rest = space_width ws s in if has_prefix w s then length w else rest

-- Drops white space from the front; `skip` bytes of a character are still to be passed over.
unfoldable pub trim_front : List Bytes → ℕ → Bytes → Bytes
trim_front ws skip [] = []
trim_front ws (suc skip) (b ∷ bs) = trim_front ws skip bs
trim_front ws zero (b ∷ bs) = elim (space_width ws (b ∷ bs)) [
  | zero ↦ b ∷ bs
  | suc n ↦ trim_front ws n bs
]

-- strings.TrimSpace
unfoldable pub trim_space : Bytes → Bytes
trim_space s = reverse (trim_front (map reverse white) zero (reverse (trim_front white zero s)))

-- bufio.ScanLines: the lines, and what follows the last newline where that is not empty; `line` is the
-- line so far.
unfoldable pub raw_lines : Bytes → Bytes → List Bytes
raw_lines [] [] = []
raw_lines (c ∷ cs) [] = (c ∷ cs) ∷ []
raw_lines line (b ∷ bs) =
    let next = raw_lines [] bs in
    let more = raw_lines (line ++ b ∷ []) bs in if b == newline then line ∷ next else more

-- It drops a carriage return at the end of a line.
unfoldable pub drop_cr : Bytes → Bytes
drop_cr [] = []
drop_cr (b ∷ []) = if b == carriage_return then [] else b ∷ []
drop_cr (b ∷ c ∷ bs) = b ∷ drop_cr (c ∷ bs)

pub data RevocationError : Type 0 where
  unopened unread too_long unwritten empty_serial : RevocationError
  forbidden_character : Bytes → RevocationError

unfoldable pub add_serial : Bytes → List Bytes → List Bytes
add_serial s set = if mem_serial s set then set else set ++ s ∷ []

-- The body of parseRevocationReader's loop.
unfoldable pub note_line : List Bytes → Bytes → List Bytes
note_line set l =
    if bytes_eq l [] || has_prefix (comment_mark ∷ []) l then set else add_serial l set

unfoldable pub parse_lines : List Bytes → List Bytes → Result RevocationError (List Bytes)
parse_lines set [] = ok set
parse_lines set (l ∷ ls) =
    unless (ltb (length l) max_scan_token_size) too_long
      (parse_lines (note_line set (trim_space (drop_cr l))) ls)

-- parseRevocationReader
unfoldable pub parse_revocation : Bytes → Result RevocationError (List Bytes)
parse_revocation contents = parse_lines [] (raw_lines [] contents)

-- What the path leads to.
pub data RevocationFile : Type 0 where
  missing unreadable : RevocationFile
  holding : Bytes → RevocationFile

-- LoadRevocationFile
unfoldable pub load_revocation_file : RevocationFile → Result RevocationError (List Bytes)
load_revocation_file missing = ok []
load_revocation_file unreadable = err unopened
load_revocation_file (holding contents) = parse_revocation contents

unfoldable pub has_byte : ℕ → Bytes → Bool
has_byte b [] = false
has_byte b (c ∷ cs) = let rest = has_byte b cs in c == b || rest

-- strings.ContainsAny
unfoldable pub contains_any : Bytes → Bytes → Bool
contains_any [] chars = false
contains_any (b ∷ bs) chars = let rest = contains_any bs chars in has_byte b chars || rest

abbrev pub extend : Bytes → Option ℕ → Bytes → RevocationFile × Option RevocationError
extend serial none contents = (holding (contents ++ serial ++ newline ∷ []), none)
extend serial (some n) contents =
    (holding (contents ++ take n (serial ++ newline ∷ [])), some unwritten)

-- The open, with O_APPEND and O_CREATE, and the write.
abbrev pub open_append : Bytes → Option ℕ → RevocationFile → RevocationFile × Option RevocationError
open_append serial cut missing = extend serial cut []
open_append serial cut unreadable = (unreadable, some unopened)
open_append serial cut (holding contents) = extend serial cut contents

-- AppendRevocation, with Go's error or `none` for nil; `cut` has the bytes that were written where the write fails.
unfoldable pub append_revocation :
    RevocationFile → Option ℕ → Bytes → RevocationFile × Option RevocationError
append_revocation file cut serial =
    if bytes_eq serial []
    then (file, some empty_serial)
    else (if contains_any serial (newline ∷ comment_mark ∷ [])
        then (file, some (forbidden_character serial))
        else open_append serial cut file)
