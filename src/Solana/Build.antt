-- ===== src/Solana/Build.antt =====
-- walletsolana/txbuild.go and walletsolana/tx.go: the instructions of the program, and the transactions
-- around them. The address and the caller's blockhash come from the network.
pub mod Owner
pub mod Signed
use mosey.Base.{
  ℕ, zero, suc, ◌/◌, ◌%◌, true, false, Option, none, some, List, [], ◌∷◌, ◌++◌, Bytes, codes,
  length, take,
}
use mosey.Base.{◌==◌, if◌then◌else◌, Result, ok, err, ◌>>=◌, unless}
use mosey.Wallet.Base58.{Base58Error, base58_decode, base58_encode}
use mosey.Solana.Message.{
  AccountMeta, Instruction, CompiledMessage, MessageError, Chain, compile_message,
}
use mosey.Solana.Message.{sign_tx, compile_unsigned_tx, find_pda, zeros}

pub data BuildError : Type 0 where
  bad_program_id no_blockhash : BuildError
  in_message : MessageError → BuildError

abbrev pub message_result : {A : Type 0} → Result MessageError A → Result BuildError A
message_result (err e) = err (in_message e)
message_result (ok x) = ok x

-- toPubkey: 32 bytes, of those given as many as fit.
abbrev pub to_pubkey : Bytes → Bytes
to_pubkey k = take 32 (k ++ zeros 32)

abbrev pub system_program_id : Bytes
system_program_id = zeros 32

-- ixDiscriminator
unfoldable pub ix_discriminator : Chain → Bytes → Bytes
ix_discriminator lib name = take 8 (lib.sha256 (codes "global:" ++ name))

-- binary.LittleEndian, of a number of bytes.
unfoldable pub put_little_endian : ℕ → ℕ → Bytes
put_little_endian zero n = []
put_little_endian (suc width) n = n % 256 ∷ put_little_endian width (n / 256)

abbrev pub decoded_id : Result Base58Error Bytes → Result BuildError Bytes
decoded_id (err e) = err bad_program_id
decoded_id (ok b) = if length b == 32 then ok b else err bad_program_id

-- programPubkey
unfoldable pub program_pubkey : Bytes → Result BuildError Bytes
program_pubkey program_text = decoded_id (base58_decode program_text)

-- sessionPDA and grantPDA, without the bump, which no caller uses.
unfoldable pub session_pda : Chain → Bytes → Bytes → Result BuildError Bytes
session_pda lib program_text session_key = program_pubkey program_text >>= λ prog.
    message_result (find_pda lib prog (codes "session" ∷ session_key ∷ [])) >>= λ found. ok found.0

unfoldable pub grant_pda : Chain → Bytes → Bytes → Bytes → Result BuildError Bytes
grant_pda lib program_text session_addr grantee = program_pubkey program_text >>= λ prog.
    message_result (find_pda lib prog (codes "grant" ∷ session_addr ∷ grantee ∷ [])) >>= λ found.
    ok found.0

-- SessionAddress
unfoldable pub session_address : Chain → Bytes → Bytes → Result BuildError Bytes
session_address lib program_text session_key =
    session_pda lib program_text session_key >>= λ addr. ok (base58_encode addr)

abbrev pub writable_account : Bytes → AccountMeta
writable_account k = record { key = k; is_signer = false; writable = true }

abbrev pub readonly_account : Bytes → AccountMeta
readonly_account k = record { key = k; is_signer = false; writable = false }

abbrev pub signing_owner : Bytes → AccountMeta
signing_owner k = record { key = k; is_signer = true; writable = true }

-- transferOwnershipIx
unfoldable pub transfer_ownership_ix :
    Chain → Bytes → Bytes → Bytes → Bytes → Result BuildError Instruction
transfer_ownership_ix lib program_text owner session_key new_owner =
    program_pubkey program_text >>= λ prog.
    session_pda lib program_text session_key >>= λ session_addr. ok (record {
      program_id = prog;
      accounts = writable_account session_addr ∷ signing_owner owner ∷ [];
      payload = ix_discriminator lib (codes "transfer_ownership") ++ new_owner;
    })

-- grantIx; the expiry is the word of an int64.
unfoldable pub grant_ix :
    Chain → Bytes → Bytes → Bytes → Bytes → ℕ → ℕ → Result BuildError Instruction
grant_ix lib program_text owner session_key grantee caps expiry =
    program_pubkey program_text >>= λ prog.
    session_pda lib program_text session_key >>= λ session_addr.
    grant_pda lib program_text session_addr grantee >>= λ grant_addr. ok (record {
      program_id = prog;
      accounts =
          readonly_account session_addr
          ∷ writable_account grant_addr
          ∷ signing_owner owner
          ∷ readonly_account system_program_id
          ∷ [];
      payload =
          ix_discriminator lib (codes "grant")
          ++ grantee
          ++ caps ∷ []
          ++ put_little_endian 8 expiry;
    })

-- bumpEpochIx
unfoldable pub bump_epoch_ix : Chain → Bytes → Bytes → Bytes → Result BuildError Instruction
bump_epoch_ix lib program_text owner session_key = program_pubkey program_text >>= λ prog.
    session_pda lib program_text session_key >>= λ session_addr. ok (record {
      program_id = prog;
      accounts = writable_account session_addr ∷ signing_owner owner ∷ [];
      payload = ix_discriminator lib (codes "bump_epoch");
    })

-- revokeIx
unfoldable pub revoke_ix : Chain → Bytes → Bytes → Bytes → Bytes → Result BuildError Instruction
revoke_ix lib program_text owner session_key grantee = program_pubkey program_text >>= λ prog.
    session_pda lib program_text session_key >>= λ session_addr.
    grant_pda lib program_text session_addr grantee >>= λ grant_addr. ok (record {
      program_id = prog;
      accounts =
          readonly_account session_addr ∷ writable_account grant_addr ∷ signing_owner owner ∷ [];
      payload = ix_discriminator lib (codes "revoke");
    })

-- computeBudgetProgramID; the source panics where the text is not 32 bytes.
unfoldable pub compute_budget_program_id : Bytes
compute_budget_program_id =
    elim (decoded_id (base58_decode (codes "ComputeBudget111111111111111111111111111111"))) [
      | err e ↦ []
      | ok b ↦ b
    ]

-- priorityIxs
unfoldable pub priority_ixs : List Instruction
priority_ixs =
    record {
      program_id = compute_budget_program_id;
      accounts = [];
      payload = 2 ∷ put_little_endian 4 200000;
    }
    ∷ record {
      program_id = compute_budget_program_id;
      accounts = [];
      payload = 3 ∷ put_little_endian 8 50000;
    }
    ∷ []

-- withPriority
abbrev pub with_priority : List Instruction → List Instruction
with_priority ixs = priority_ixs ++ ixs

abbrev pub with_blockhash :
    {A : Type 0} → Option Bytes → (Bytes → Result BuildError A) → Result BuildError A
with_blockhash none next = err no_blockhash
with_blockhash (some bh) next = next bh

-- buildUnsigned, on the answer of getLatestBlockhash.
unfoldable pub build_unsigned : Option Bytes → Bytes → List Instruction → Result BuildError Bytes
build_unsigned blockhash fee_payer ixs = with_blockhash blockhash (λ bh.
    message_result (compile_message fee_payer bh (with_priority ixs)) >>= λ msg.
    ok (compile_unsigned_tx msg))

-- The four owner's instructions.
pub data OwnerRequest : Type 0 where
  transfer_ownership : Bytes → OwnerRequest
  grants : Bytes → ℕ → ℕ → OwnerRequest
  bump_epoch : OwnerRequest
  revokes : Bytes → OwnerRequest

abbrev pub owner_ix : Chain → Bytes → Bytes → Bytes → OwnerRequest → Result BuildError Instruction
owner_ix lib program_text owner session_key (transfer_ownership new_owner) =
    transfer_ownership_ix lib program_text owner session_key new_owner
owner_ix lib program_text owner session_key (grants grantee caps expiry) =
    grant_ix lib program_text owner session_key grantee caps expiry
owner_ix lib program_text owner session_key bump_epoch =
    bump_epoch_ix lib program_text owner session_key
owner_ix lib program_text owner session_key (revokes grantee) =
    revoke_ix lib program_text owner session_key grantee

-- BuildTransferOwnership, BuildGrant, BuildBumpEpoch and BuildRevoke
unfoldable pub build_owner_tx :
    Chain → Bytes → Option Bytes → Bytes → Bytes → OwnerRequest → Result BuildError Bytes
build_owner_tx lib program_text blockhash owner session_key request =
    owner_ix lib program_text (to_pubkey owner) session_key request >>= λ ix.
    build_unsigned blockhash (to_pubkey owner) (ix ∷ [])

-- submit, up to the transaction that it sends.
unfoldable pub signed_tx :
    Chain → Option Bytes → Bytes → List Instruction → List (Bytes × Bytes) → Result BuildError Bytes
signed_tx lib blockhash fee_payer ixs signers = with_blockhash blockhash (λ bh.
    message_result (compile_message fee_payer bh (with_priority ixs)) >>= λ msg.
    message_result (sign_tx lib msg signers))

-- What a method signs with the owner's key: a revocation is only built for a wallet.
pub data KeyRequest : Type 0 where
  transfers_by_key : Bytes → KeyRequest
  grants_by_key : Bytes → ℕ → ℕ → KeyRequest
  bumps_by_key : KeyRequest

abbrev pub requested : KeyRequest → OwnerRequest
requested (transfers_by_key new_owner) = transfer_ownership new_owner
requested (grants_by_key grantee caps expiry) = grants grantee caps expiry
requested bumps_by_key = bump_epoch

-- Grant, TransferOwnership and BumpEpoch, up to what they send; `public` gives the public half of a key.
unfoldable pub signed_owner_tx :
    Chain
    → (Bytes → Bytes)
    → Bytes
    → Option Bytes
    → Bytes
    → Bytes
    → KeyRequest
    → Result BuildError Bytes
signed_owner_tx lib public program_text blockhash owner session_key request =
    let owner_pub = to_pubkey (public owner) in
    owner_ix lib program_text owner_pub session_key (requested request) >>= λ ix.
    signed_tx lib blockhash owner_pub (ix ∷ []) ((owner_pub, owner) ∷ [])

-- RegisterSession, up to what it sends: the owner and the session's key both sign.
unfoldable pub register_session_ix :
    Chain → Bytes → Bytes → Bytes → Bytes → Result BuildError Instruction
register_session_ix lib program_text owner_pub sess_pub session_key =
    program_pubkey program_text >>= λ prog.
    session_pda lib program_text session_key >>= λ session_addr. ok (record {
      program_id = prog;
      accounts =
          writable_account session_addr
          ∷ record { key = sess_pub; is_signer = true; writable = false }
          ∷ signing_owner owner_pub
          ∷ readonly_account system_program_id
          ∷ [];
      payload = ix_discriminator lib (codes "register_session");
    })

-- A Go map keeps the later of two entries for one key.
unfoldable pub register_session_tx :
    Chain → (Bytes → Bytes) → Bytes → Option Bytes → Bytes → Bytes → Result BuildError Bytes
register_session_tx lib public program_text blockhash owner session_key =
    let owner_pub = to_pubkey (public owner) in
    let sess_pub = to_pubkey (public session_key) in
    register_session_ix lib program_text owner_pub sess_pub (public session_key) >>= λ ix.
    signed_tx lib blockhash owner_pub (ix ∷ []) ((sess_pub, session_key) ∷ (owner_pub, owner) ∷ [])
