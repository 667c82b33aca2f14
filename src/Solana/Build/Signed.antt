-- ===== src/Solana/Build/Signed.antt =====
-- walletsolana/tx.go: what the owner's key signs, beside what a browser wallet is given to sign.
use mosey.Base.{some, List, [], ◌∷◌, ◌++◌, Bytes, take, bytes_eq, bytes_eq_self}
use mosey.Base.{Result, ok, ◌≡◌, refl, ◌∙◌}
use mosey.Base.{Ensures-ok}
use mosey.Base.Dict.{lookup}
use mosey.Solana.Message.{
  CompiledMessage, Instruction, Chain, sign_all, sign_tx, append_short_vec, compile_unsigned_tx,
  zeros,
}
use mosey.Solana.Message.Places.{compile_message-Placed}
use mosey.Solana.Build.{
  to_pubkey, BuildError, owner_ix, build_unsigned, signed_tx, build_owner_tx, signed_owner_tx,
  with_priority,
}
use mosey.Solana.Build.{KeyRequest, requested}
use mosey.Solana.Build.Owner.{Alone, owner_ix-Alone, one_signer}

lookup_one : (owner key : Bytes) → lookup bytes_eq owner ((owner, key) ∷ []) ≡ some key
unfolding lookup
lookup_one owner key = rw (bytes_eq_self owner) refl

sign_all-one :
    (lib : Chain) (message owner key : Bytes)
    → sign_all lib ((owner, key) ∷ []) message (owner ∷ [])
      ≡ ok (lib.ed25519_sign key message ++ [])
unfolding sign_all
sign_all-one lib message owner key = rw (sign_all, lookup_one owner key) refl

take_one : (x : Bytes) (xs : List Bytes) → take 1 (x ∷ xs) ≡ x ∷ []
take_one x xs = refl

-- Where the owner alone signs, its key is all that signTx needs.
sign_tx-one :
    (lib : Chain) (msg : CompiledMessage) (owner key : Bytes) (rest : List Bytes)
    → msg.num_signers ≡ 1
    → msg.account_keys ≡ owner ∷ rest
    → sign_tx lib msg ((owner, key) ∷ [])
      ≡ ok (append_short_vec [] 1 ++ (lib.ed25519_sign key msg.serialized ++ []) ++ msg.serialized)
unfolding sign_tx
sign_tx-one lib msg owner key rest one first =
    rw (one, first, take_one owner rest, sign_all-one lib msg.serialized owner key) refl

unsigned_one :
    (msg : CompiledMessage)
    → msg.num_signers ≡ 1
    → compile_unsigned_tx msg ≡ append_short_vec [] 1 ++ zeros 64 ++ msg.serialized
unfolding compile_unsigned_tx
unsigned_one msg one = rw one refl

-- The transactions of a browser wallet and of a key for one message.
abbrev pub SameMessage : Chain → Bytes → Result BuildError Bytes → Result BuildError Bytes → Type 0
SameMessage lib key unsigned signed =
    (message : Bytes) × (unsigned ≡ ok (append_short_vec [] 1 ++ zeros 64 ++ message))
    × (signed ≡ ok (append_short_vec [] 1 ++ (lib.ed25519_sign key message ++ []) ++ message))

message-Same :
    (lib : Chain) (bh owner key : Bytes) (ix : Instruction)
    → Alone owner ix
    → SameMessage lib key
        (build_unsigned (some bh) owner (ix ∷ []))
        (signed_tx lib (some bh) owner (ix ∷ []) ((owner, key) ∷ []))
unfolding build_unsigned signed_tx
message-Same lib bh owner key ix alone =
    let (msg, compiled, (rest, first), _, signers, _) =
      compile_message-Placed owner bh (with_priority (ix ∷ [])) in
    let one : msg.num_signers ≡ 1 = signers ∙ one_signer owner ix alone in
    (
      msg.serialized,
      rw (compiled, unsigned_one msg one) refl,
      rw (compiled, sign_tx-one lib msg owner key rest one first) refl,
    )

-- A transfer of the session, a grant or a bump of its epoch: once the instruction that the owner asks for
-- can be made and there is a blockhash, both ways to send it
-- give a transaction: the one for a browser wallet and the one signed with the owner's key carry the same
-- message and one signature slot, which holds 64 zeros in the first and the key's signature of that message
-- in the second.
pub signed_like_unsigned :
    (lib : Chain) (public : Bytes → Bytes) (program_text bh key session_key : Bytes)
    (request : KeyRequest) {ix : Instruction}
    → owner_ix lib program_text (to_pubkey (public key)) session_key (requested request) ≡ ok ix
    → SameMessage lib key
        (build_owner_tx lib program_text (some bh) (public key) session_key (requested request))
        (signed_owner_tx lib public program_text (some bh) key session_key request)
unfolding build_owner_tx signed_owner_tx
signed_like_unsigned lib public program_text bh key session_key request {ix} made =
    let owner = to_pubkey (public key) in
    let alone =
      Ensures-ok (Alone owner) (owner_ix lib program_text owner session_key (requested request))
        (owner_ix-Alone lib program_text owner session_key (requested request)) made in
    rw made (message-Same lib bh owner key ix alone)
