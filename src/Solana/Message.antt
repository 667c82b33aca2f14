-- ===== src/Solana/Message.antt =====
-- walletsolana/tx.go and walletsolana/txbuild.go: the legacy message of a transaction, its signatures, and
-- the addresses derived by a program. SHA-256, the curve test and Ed25519 are parameters.
pub mod ShortVec
pub mod Merged
pub mod Index
pub mod Places
pub mod Derived
use mosey.Base.{
  ℕ, zero, suc, ◌+◌, ◌*◌, ◌/◌, ◌%◌, ◌^◌, Bool, true, false, not, Option, none, some, List, [], ◌∷◌,
  ◌++◌, Bytes,
}
use mosey.Base.{
  codes, length, take, map, concat, bytes_eq, ltb, ◌==◌, ◌&&◌, ◌||◌, if◌then◌else◌, Result, ok, err,
  ◌>>=◌, unless,
}
use Prim.Native.Nat.{bit_or}
use mosey.Base.Dict.{lookup, insert}

pub record AccountMeta : Type 0 where
  pub key : Bytes
  pub is_signer : Bool
  pub writable : Bool

pub record Instruction : Type 0 where
  pub program_id : Bytes
  pub accounts : List AccountMeta
  pub payload : Bytes

-- The loop of appendShortVec on `n`, which is at most the fuel.
unfoldable pub short_vec_loop : ℕ → ℕ → Bytes
short_vec_loop zero n = n % 128 ∷ []
short_vec_loop (suc fuel) n =
    let more = short_vec_loop fuel (n / 128) in
    if n / 128 == 0 then n % 128 ∷ [] else (n % 128 + 128) ∷ more

-- appendShortVec
unfoldable pub append_short_vec : Bytes → ℕ → Bytes
append_short_vec dst n = dst ++ short_vec_loop n n

-- `add` of compileMessage: the accounts in the order in which they were first seen, one for each key.
unfoldable pub add_account : List AccountMeta → AccountMeta → List AccountMeta
add_account [] m = m ∷ []
add_account (a ∷ merged) m =
    let rest = add_account merged m in
    if bytes_eq a.key m.key
    then record {
      key = a.key;
      is_signer = a.is_signer || m.is_signer;
      writable = a.writable || m.writable;
    }
      ∷ merged
    else a ∷ rest

unfoldable pub add_accounts : List AccountMeta → List AccountMeta → List AccountMeta
add_accounts merged [] = merged
add_accounts merged (m ∷ ms) = add_accounts (add_account merged m) ms

-- All that compileMessage adds, in its order: the accounts of the instructions, then their programs.
abbrev pub mentioned : List Instruction → List AccountMeta
mentioned [] = []
mentioned (ix ∷ ixs) = ix.accounts ++ mentioned ixs

abbrev pub program_meta : Instruction → AccountMeta
program_meta ix = record { key = ix.program_id; is_signer = false; writable = false }

abbrev pub payer_meta : Bytes → AccountMeta
payer_meta fee_payer = record { key = fee_payer; is_signer = true; writable = true }

abbrev pub merge_accounts : Bytes → List Instruction → List AccountMeta
merge_accounts fee_payer ixs =
    add_accounts (payer_meta fee_payer ∷ []) (mentioned ixs ++ map program_meta ixs)

abbrev pub same_flag : Bool → Bool → Bool
same_flag true b = b
same_flag false b = not b

-- The accounts of one of the four ranks.
unfoldable pub of_rank : Bool → Bool → List AccountMeta → List AccountMeta
of_rank signer writable [] = []
of_rank signer writable (a ∷ rest) =
    let more = of_rank signer writable rest in
    if same_flag a.is_signer signer && same_flag a.writable writable then a ∷ more else more

abbrev pub signers_of : List AccountMeta → List AccountMeta
signers_of merged = of_rank true true merged ++ of_rank true false merged

abbrev pub ranked : List AccountMeta → List AccountMeta
ranked merged = signers_of merged ++ (of_rank false true merged ++ of_rank false false merged)

-- The map from a key to its place.
unfoldable pub index_accounts : ℕ → List (Bytes × ℕ) → List AccountMeta → List (Bytes × ℕ)
index_accounts i index [] = index
index_accounts i index (a ∷ rest) = index_accounts (i + 1) (insert bytes_eq a.key i index) rest

pub record CompiledMessage : Type 0 where
  pub account_keys : List Bytes
  pub num_signers : ℕ
  pub serialized : Bytes

pub data MessageError : Type 0 where
  unknown_program no_bump : MessageError
  missing_signer : Bytes → MessageError

-- A missing key reads as 0.
abbrev pub place : Option ℕ → ℕ
place none = 0
place (some i) = i

abbrev pub account_byte : List (Bytes × ℕ) → AccountMeta → ℕ
account_byte index m = place (lookup bytes_eq m.key index) % 256

abbrev pub instruction_at : List (Bytes × ℕ) → Instruction → Option ℕ → Result MessageError Bytes
instruction_at index ix none = err unknown_program
instruction_at index ix (some i) = ok (
    append_short_vec
      (append_short_vec (i % 256 ∷ []) (length ix.accounts) ++ map (account_byte index) ix.accounts)
      (length ix.payload)
    ++ ix.payload)

-- The bytes of the instructions.
unfoldable pub instruction_bytes : List (Bytes × ℕ) → List Instruction → Result MessageError Bytes
instruction_bytes index [] = ok []
instruction_bytes index (ix ∷ ixs) =
    instruction_at index ix (lookup bytes_eq ix.program_id index) >>= λ b.
    instruction_bytes index ixs >>= λ more. ok (b ++ more)

abbrev pub message_head : List AccountMeta → Bytes → ℕ → Bytes
message_head merged blockhash count =
    append_short_vec
      (append_short_vec
          (length (signers_of merged) % 256
            ∷ length (of_rank true false merged) % 256
            ∷ length (of_rank false false merged) % 256
            ∷ [])
          (length (ranked merged))
        ++ concat (map (λ a. a.key) (ranked merged))
        ++ blockhash)
      count

-- compileMessage
unfoldable pub compile_message :
    Bytes → Bytes → List Instruction → Result MessageError CompiledMessage
compile_message fee_payer blockhash ixs =
    let merged = merge_accounts fee_payer ixs in
    instruction_bytes (index_accounts 0 [] (ranked merged)) ixs >>= λ body. ok (record {
      account_keys = map (λ a. a.key) (ranked merged);
      num_signers = length (signers_of merged);
      serialized = message_head merged blockhash (length ixs) ++ body;
    })

-- crypto/ed25519, crypto/sha256 and the decoding of a point.
pub record Chain : Type 0 where
  pub ed25519_sign : Bytes → Bytes → Bytes
  pub sha256 : Bytes → Bytes
  pub on_curve : Bytes → Bool

-- The loop of signTx.
unfoldable pub sign_all :
    Chain → List (Bytes × Bytes) → Bytes → List Bytes → Result MessageError Bytes
sign_all lib signers message [] = ok []
sign_all lib signers message (key ∷ keys) = elim (lookup bytes_eq key signers) [
  | none ↦ err (missing_signer key)
  | some priv ↦
      sign_all lib signers message keys >>= λ more. ok (lib.ed25519_sign priv message ++ more)
]

-- signTx
unfoldable pub sign_tx : Chain → CompiledMessage → List (Bytes × Bytes) → Result MessageError Bytes
sign_tx lib msg signers =
    sign_all lib signers msg.serialized (take msg.num_signers msg.account_keys) >>= λ sigs.
    ok (append_short_vec [] msg.num_signers ++ sigs ++ msg.serialized)

abbrev pub zeros : ℕ → Bytes
zeros zero = []
zeros (suc n) = 0 ∷ zeros n

-- compileUnsignedTx
unfoldable pub compile_unsigned_tx : CompiledMessage → Bytes
compile_unsigned_tx msg =
    append_short_vec [] msg.num_signers ++ zeros (msg.num_signers * 64) ++ msg.serialized

-- The candidate of findPDA for a bump.
unfoldable pub candidate : Chain → Bytes → List Bytes → ℕ → Bytes
candidate lib program_id seeds bump =
    lib.sha256 (concat seeds ++ bump ∷ [] ++ program_id ++ codes "ProgramDerivedAddress")

-- The loop of findPDA, below a bump.
unfoldable pub pda_loop : Chain → Bytes → List Bytes → ℕ → Result MessageError (Bytes × ℕ)
pda_loop lib program_id seeds zero = err no_bump
pda_loop lib program_id seeds (suc bump) =
    let lower = pda_loop lib program_id seeds bump in
    if lib.on_curve (candidate lib program_id seeds bump)
    then lower
    else ok (candidate lib program_id seeds bump, bump)

-- findPDA
abbrev pub find_pda : Chain → Bytes → List Bytes → Result MessageError (Bytes × ℕ)
find_pda lib program_id seeds = pda_loop lib program_id seeds 256
