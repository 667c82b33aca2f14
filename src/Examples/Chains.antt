-- ===== src/Examples/Chains.antt =====
-- The theorems on the accounts and the transactions of the chain at concrete inputs.
use mosey.Base.{
  ℕ, zero, suc, ◌≡◌, ◌↔◌, refl, true, false, none, some, List, [], ◌∷◌, ◌++◌, Bytes, codes, map,
  length, take, drop, ok, bytes_eq,
}
use mathlib.Core.List.{Memᴰ}
use mosey.Solana.Accounts.{
  Session, Grant, is_live, build_snapshot, as_snapshot, decode_session, decode_grant,
}
use mosey.Solana.Accounts.{add_grants, discriminator, little_endian, has_expired}
use mosey.Solana.Accounts.Live.{Granted, build_snapshot-Granted}
use mosey.Solana.Source.{Decoders, RpcAccount, Source, Answer, decode_accounts, verify_now, refresh}
use mosey.Solana.Source.{has_disc, try_session, find_session, try_grant, find_grants}
use mosey.Solana.Source.Fresh.{BackedBy, IsVisited, verify_now-Backed}
use mosey.Solana.Message.{
  AccountMeta, Instruction, CompiledMessage, Chain, append_short_vec, compile_message, zeros,
}
use mosey.Solana.Message.{merge_accounts, ranked, signers_of, program_meta, find_pda, candidate}
use mosey.Solana.Message.Places.{Placed, compile_message-Placed}
use mosey.Solana.Build.{transfer_ownership, build_owner_tx, to_pubkey}
use mosey.Solana.Build.{signed_owner_tx, BuildError, program_pubkey, session_pda}
use mosey.Solana.Build.{transfer_ownership_ix, build_unsigned, priority_ixs}
use mosey.Solana.Build.Owner.{ForOwner, build_owner_tx-ForOwner}
use mosey.Solana.Build.Signed.{SameMessage, signed_like_unsigned}
use mosey.Wallet.Base58.{decode_loop, base58_decode, leading, digits_loop, index_from}
use mosey.Solana.Message.{candidate, pda_loop}
use mosey.Solana.Message.{instruction_bytes, index_accounts, of_rank, add_accounts, add_account}
use mosey.Solana.Build.{compute_budget_program_id}
use mosey.Solana.Build.{transfers_by_key}
use mosey.Solana.Source.{refreshes}
use mosey.Base.Dict.{insert, lookup}
use mosey.Wallet.Base58.{parse_address}
use mosey.Base.{Result, err}
use mosey.Solana.Message.Derived.{HighestOff, find_pda_iff}
use mosey.Solana.Subscribe.{Subscriptions, reconciles, reconcile, is_subscribed, Once}
use mosey.Solana.Subscribe.{reconciles_cover_targets}

abbrev filled : ℕ → ℕ → Bytes
filled zero b = []
filled (suc n) b = b ∷ filled n b

-- A hash that drops the prefix of the account discriminators, and keeps what names the kind of account.
abbrev hash : Bytes → Bytes
hash bytes = take 32 (drop 8 bytes ++ zeros 32)

short_vec_300 : append_short_vec [] 300 ≡ 172 ∷ 2 ∷ []
unfolding append_short_vec mosey.Solana.Message.short_vec_loop
short_vec_300 = refl

abbrev chain : Chain
chain = record {
  ed25519_sign = λ key message. zeros 64;
  sha256 = hash;
  on_curve = λ b. bytes_eq (take 1 b) (255 ∷ []);
}

abbrev derived : Bytes
derived = candidate chain (filled 32 4) (filled 8 1 ∷ []) 254

-- The hash of a seed of eight bytes begins with the bump, and 255 is on the curve.
find_pda_254 : find_pda chain (filled 32 4) (filled 8 1 ∷ []) ≡ ok (derived, 254)
unfolding candidate pda_loop bytes_eq
find_pda_254 = refl

find_pda_iff_example :
    (find_pda chain (filled 32 4) (filled 8 1 ∷ []) ≡ ok (derived, 254))
    ↔ HighestOff chain (filled 32 4) (filled 8 1 ∷ []) 256 derived 254
find_pda_iff_example = find_pda_iff chain (filled 32 4) (filled 8 1 ∷ []) derived 254

abbrev owner : Bytes
owner = filled 32 7

abbrev session_account : Session
session_account = record { session_key = filled 32 5; owner = owner; epoch = 3 }

abbrev grant_account : Grant
grant_account = record {
  session = zeros 32;
  grantee = filled 32 9;
  caps = 1;
  expiry = 50;
  grant_epoch = 3;
}

build_snapshot-Granted_example :
    ((c : ℕ)
      → (as_snapshot (build_snapshot session_account (grant_account ∷ []) 20)).grant_caps
          (filled 32 9)
        ≡ some c
      → Granted session_account 20 (grant_account ∷ []) (filled 32 9) c)
    × ((g : Grant)
        → Memᴰ g (grant_account ∷ [])
        → is_live session_account 20 g ≡ true
        → g.grantee ≡ filled 32 9
        → (c : ℕ) × ((as_snapshot
                (build_snapshot session_account (grant_account ∷ []) 20)).grant_caps
              (filled 32 9)
            ≡ some c))
build_snapshot-Granted_example =
    build_snapshot-Granted session_account (grant_account ∷ []) 20 (filled 32 9)

abbrev transfer : Instruction
transfer = record {
  program_id = filled 32 4;
  accounts =
      record { key = filled 32 8; is_signer = false; writable = true }
      ∷ record { key = owner; is_signer = true; writable = true }
      ∷ [];
  payload = 2 ∷ [];
}

compile_message-Placed_example :
    (msg : CompiledMessage) × (compile_message owner (zeros 32) (transfer ∷ []) ≡ ok msg)
    × ((rest : List Bytes) × (msg.account_keys ≡ owner ∷ rest))
    × (msg.account_keys ≡ map (λ x. x.key) (ranked (merge_accounts owner (transfer ∷ []))))
    × (msg.num_signers ≡ length (signers_of (merge_accounts owner (transfer ∷ []))))
    × ((ix : Instruction)
        → Memᴰ ix (transfer ∷ [])
        → Placed (merge_accounts owner (transfer ∷ [])) (program_meta ix)
          × ((m : AccountMeta)
              → Memᴰ m ix.accounts
              → Placed (merge_accounts owner (transfer ∷ [])) m))
compile_message-Placed_example = compile_message-Placed owner (zeros 32) (transfer ∷ [])

abbrev program_text : Bytes
program_text = filled 32 49

signed_like_unsigned_example :
    SameMessage chain
      (filled 32 7)
      (build_owner_tx chain program_text
        (some (zeros 32))
        (filled 32 7)
        (filled 32 5)
        (transfer_ownership (filled 32 9)))
      (signed_owner_tx chain
        (λ key. key)
        program_text
        (some (zeros 32))
        (filled 32 7)
        (filled 32 5)
        (transfers_by_key (filled 32 9)))
unfolding transfer_ownership_ix program_pubkey session_pda base58_decode leading decode_loop
    digits_loop index_from candidate pda_loop bytes_eq
signed_like_unsigned_example =
    signed_like_unsigned chain (λ key. key) program_text (zeros 32) (filled 32 7) (filled 32 5)
      (transfers_by_key (filled 32 9)) refl

abbrev written : Result BuildError Bytes → Bytes
written (ok bytes) = bytes
written (err e) = []

abbrev owner_tx : Bytes
owner_tx = written (
    build_owner_tx chain program_text (some (zeros 32)) (filled 32 7) (filled 32 5)
      (transfer_ownership (filled 32 9)))

build_owner_tx-ForOwner_example : ForOwner (to_pubkey (filled 32 7)) owner_tx
unfolding build_owner_tx transfer_ownership_ix program_pubkey session_pda base58_decode leading
    decode_loop digits_loop index_from candidate pda_loop bytes_eq build_unsigned compile_message
    instruction_bytes priority_ixs lookup index_accounts of_rank add_accounts add_account
    compute_budget_program_id insert
build_owner_tx-ForOwner_example =
    build_owner_tx-ForOwner chain program_text (some (zeros 32)) (filled 32 7) (filled 32 5)
      (transfer_ownership (filled 32 9)) refl

-- base64 reads as itself.
abbrev decoders : Decoders
decoders = record { sha256 = hash; base64 = λ text. some text }

abbrev rpc_session : RpcAccount
rpc_session = record {
  pubkey = program_text;
  fields = (codes "Session" ++ 0 ∷ filled 32 5 ++ filled 32 7 ++ 3 ∷ 0 ∷ 255 ∷ []) ∷ [];
}

abbrev rpc_grant : RpcAccount
rpc_grant = record {
  pubkey = codes "grant";
  fields =
      (codes "Grant" ++ zeros 3 ++ zeros 32 ++ filled 32 9 ++ 1 ∷ 50 ∷ zeros 7 ++ 3 ∷ 0 ∷ 255 ∷ [])
      ∷ [];
}

abbrev answer : Answer
answer = record {
  accounts = some (rpc_grant ∷ rpc_session ∷ []);
  first_visit = λ decoded. decoded;
  second_visit = λ decoded. decoded;
  built_at = 20;
  stored_at = 21;
}

abbrev source : Source
source = record {
  session_key = filled 32 5;
  max_staleness = 30;
  snap = none;
  last_ok = 0;
  sub_addrs = [];
}

abbrev refreshed : Source
refreshed = record source {
  snap = some (build_snapshot session_account (grant_account ∷ []) 20);
  last_ok = 21;
  sub_addrs = program_text ∷ codes "grant" ∷ [];
}

-- The refresh of another goroutine that gets no answer.
abbrev unanswered : Answer
unanswered = record answer { accounts = none }

both-IsVisited : (b : Answer) → Memᴰ b (answer ∷ unanswered ∷ []) → IsVisited b
both-IsVisited b (Memᴰ.head e) = rw e ((λ decoded p m. m), (λ decoded p m. m))
both-IsVisited b (Memᴰ.tail (Memᴰ.head e)) = rw e ((λ decoded p m. m), (λ decoded p m. m))
both-IsVisited b (Memᴰ.tail (Memᴰ.tail m)) = elim m [ ]

verify_now-Backed_example :
    (b : Answer) × Memᴰ b (answer ∷ unanswered ∷ [])
    × BackedBy decoders source.session_key b (filled 32 9) 1
unfolding verify_now refreshes refresh decode_accounts find_session find_grants try_session
    try_grant has_disc decode_session decode_grant discriminator little_endian build_snapshot
    as_snapshot add_grants is_live has_expired base58_decode leading decode_loop digits_loop
    index_from insert bytes_eq parse_address lookup
verify_now-Backed_example =
    verify_now-Backed decoders source refreshed answer (unanswered ∷ []) (filled 32 9) 1
      both-IsVisited refl

abbrev two_rounds : List (List Bytes)
two_rounds = (codes "a" ∷ codes "b" ∷ []) ∷ (codes "b" ∷ codes "c" ∷ []) ∷ []

abbrev three_subscribed : Subscriptions
three_subscribed = record {
  subscribed = codes "c" ∷ codes "b" ∷ codes "a" ∷ [];
  last_id = 3;
  requests = (3, codes "c") ∷ (2, codes "b") ∷ (1, codes "a") ∷ [];
}

reconciles_cover_targets_example :
    Once three_subscribed
    × ((targets : List Bytes) (a : Bytes)
        → Memᴰ targets two_rounds
        → Memᴰ a targets
        → is_subscribed a three_subscribed.subscribed ≡ true)
unfolding reconciles reconcile is_subscribed bytes_eq
reconciles_cover_targets_example =
    reconciles_cover_targets (λ st a. true) three_subscribed two_rounds refl
