-- ===== src/Solana/Build/Owner.antt =====
-- walletsolana/txbuild.go: who signs what is built for an owner.
use mosey.Base.{Bool, true, false, Option, none, some, List, [], ◌∷◌, ◌++◌, Bytes, All, map, length}
use mosey.Base.{
  bytes_eq, bytes_eq_self, ok, step-ok, ok_same, ◌≡◌, refl, ◌∙◌, subst, Bool-cases, inl, inr,
}
use mosey.Base.{Ensures, step-Ensures, Ensures-ok}
use mosey.Solana.Message.{
  AccountMeta, Instruction, CompiledMessage, Chain, add_account, add_accounts, program_meta,
}
use mosey.Solana.Message.{
  payer_meta, merge_accounts, message_head, instruction_bytes, index_accounts, of_rank, signers_of,
  append_short_vec, compile_unsigned_tx, zeros,
}
use mosey.Base.{ℕ, append_assoc}
use mosey.Base.{suc, ◌%◌, concat, sym, ap}
use mosey.Solana.Message.{compile_message, short_vec_loop, ranked}
use mosey.Solana.Message.Places.{compile_message-Placed}
use mosey.Solana.Build.{to_pubkey, program_pubkey, session_pda, grant_pda}
use mosey.Solana.Build.{
  transfer_ownership_ix, grant_ix, bump_epoch_ix, revoke_ix, priority_ixs, with_priority,
}
use mosey.Solana.Build.{build_unsigned, OwnerRequest, owner_ix, build_owner_tx}
use mosey.Solana.Build.{transfer_ownership, grants, bump_epoch, revokes}

-- No account but the owner's signs.
abbrev pub OwnerAlone : Bytes → List AccountMeta → Type 0
OwnerAlone owner ms = All (λ m. m.is_signer ≡ true → m.key ≡ owner) ms

abbrev Silent : List AccountMeta → Type 0
Silent xs = All (λ a. a.is_signer ≡ false) xs

add_account-Silent :
    (xs : List AccountMeta) (m : AccountMeta)
    → m.is_signer ≡ false
    → Silent xs
    → Silent (add_account xs m)
unfolding add_account
add_account-Silent [] m quiet all = (quiet, tt)
add_account-Silent (a ∷ xs) m quiet (first, rest) = elim (Bool-cases (bytes_eq a.key m.key)) [
  | inl found ↦ rw found (rw (first, quiet) refl, rest)
  | inr later ↦ rw later (first, add_account-Silent xs m quiet rest)
]

quiet_of :
    (b : Bool) (k owner : Bytes) → (b ≡ true → k ≡ owner) → bytes_eq owner k ≡ false → b ≡ false
quiet_of false k owner only other = refl
quiet_of true k owner only other =
    let same : bytes_eq owner k ≡ true = rw (only refl) (bytes_eq_self owner) in cc

-- The owner first, and then accounts that do not sign.
abbrev Led : Bytes → List AccountMeta → Type 0
Led owner merged = (rest : List AccountMeta) × (merged ≡ payer_meta owner ∷ rest) × Silent rest

add_accounts-Led :
    (ms : List AccountMeta) (owner : Bytes) (xs : List AccountMeta)
    → OwnerAlone owner ms
    → Silent xs
    → Led owner (add_accounts (payer_meta owner ∷ xs) ms)
unfolding add_accounts add_account
add_accounts-Led [] owner xs alone silent = (xs, refl, silent)
add_accounts-Led (m ∷ ms) owner xs (first, alone) silent =
    elim (Bool-cases (bytes_eq owner m.key)) [
      | inl found ↦ rw found (add_accounts-Led ms owner xs alone silent)
      | inr later ↦
          let quiet : m.is_signer ≡ false = quiet_of m.is_signer m.key owner first later in
          rw later (
            add_accounts-Led ms owner (add_account xs m) alone
              (add_account-Silent xs m quiet silent))
    ]

Silent-of_rank :
    (writable : Bool) (xs : List AccountMeta) → Silent xs → of_rank true writable xs ≡ []
unfolding of_rank
Silent-of_rank writable [] silent = refl
Silent-of_rank writable (a ∷ xs) (first, rest) = rw first (Silent-of_rank writable xs rest)

Led-signers :
    (owner : Bytes) (merged : List AccountMeta) → Led owner merged → length (signers_of merged) ≡ 1
unfolding of_rank
Led-signers owner merged (rest, e, silent) =
    rw (e, Silent-of_rank true rest silent, Silent-of_rank false rest silent) refl

OwnerAlone-append :
    (owner : Bytes) (xs ys : List AccountMeta)
    → OwnerAlone owner xs
    → OwnerAlone owner ys
    → OwnerAlone owner (xs ++ ys)
OwnerAlone-append owner [] ys hx hy = hy
OwnerAlone-append owner (x ∷ xs) ys (first, rest) hy =
    (first, OwnerAlone-append owner xs ys rest hy)

OwnerAlone-programs :
    (owner : Bytes) (ixs : List Instruction) → OwnerAlone owner (map program_meta ixs)
OwnerAlone-programs owner [] = tt
OwnerAlone-programs owner (ix ∷ ixs) = ((λ h. absurd (cc)), OwnerAlone-programs owner ixs)

abbrev pub Alone : Bytes → Instruction → Type 0
Alone owner ix = OwnerAlone owner ix.accounts

never : (k owner : Bytes) → false ≡ true → k ≡ owner
never k owner h = absurd (cc)

pub owner_ix-Alone :
    (lib : Chain) (program_text owner session_key : Bytes) (request : OwnerRequest)
    → Ensures (Alone owner) (owner_ix lib program_text owner session_key request)
unfolding transfer_ownership_ix grant_ix bump_epoch_ix revoke_ix
owner_ix-Alone lib text owner key (transfer_ownership new_owner) =
    step-Ensures (Alone owner) (program_pubkey text) _ (λ prog e.
      step-Ensures (Alone owner) (session_pda lib text key) _
        (λ s f. (never s owner, ((λ h. refl), tt))))
owner_ix-Alone lib text owner key (grants grantee caps expiry) =
    step-Ensures (Alone owner) (program_pubkey text) _ (λ prog e.
      step-Ensures (Alone owner) (session_pda lib text key) _ (λ s f.
        step-Ensures (Alone owner) (grant_pda lib text s grantee) _
          (λ g k. (never s owner, (never g owner, ((λ h. refl), (never _ owner, tt)))))))
owner_ix-Alone lib text owner key bump_epoch =
    step-Ensures (Alone owner) (program_pubkey text) _ (λ prog e.
      step-Ensures (Alone owner) (session_pda lib text key) _
        (λ s f. (never s owner, ((λ h. refl), tt))))
owner_ix-Alone lib text owner key (revokes grantee) =
    step-Ensures (Alone owner) (program_pubkey text) _ (λ prog e.
      step-Ensures (Alone owner) (session_pda lib text key) _ (λ s f.
        step-Ensures (Alone owner) (grant_pda lib text s grantee) _
          (λ g k. (never s owner, (never g owner, ((λ h. refl), tt))))))

-- The accounts of the message around an instruction in which only the owner signs.
merged-Led :
    (owner : Bytes) (ix : Instruction)
    → Alone owner ix
    → Led owner (merge_accounts owner (with_priority (ix ∷ [])))
unfolding priority_ixs
merged-Led owner ix alone =
    add_accounts-Led _ owner []
      (OwnerAlone-append owner (ix.accounts ++ []) _
        (OwnerAlone-append owner ix.accounts [] alone tt)
        (OwnerAlone-programs owner (with_priority (ix ∷ []))))
      tt

pub one_signer :
    (owner : Bytes) (ix : Instruction)
    → Alone owner ix
    → length (signers_of (merge_accounts owner (with_priority (ix ∷ [])))) ≡ 1
one_signer owner ix alone = Led-signers owner _ (merged-Led owner ix alone)

-- What compileMessage writes begins with its head.
compile_message-head :
    (fee_payer blockhash : Bytes) (ixs : List Instruction) {msg : CompiledMessage}
    → compile_message fee_payer blockhash ixs ≡ ok msg
    → (body : Bytes) × (msg.serialized
        ≡ message_head (merge_accounts fee_payer ixs) blockhash (length ixs) ++ body)
unfolding compile_message
compile_message-head fee_payer blockhash ixs {msg} h =
    let (body, _, k) =
      step-ok (instruction_bytes (index_accounts 0 [] (ranked (merge_accounts fee_payer ixs))) ixs)
        _ h in
    (body, sym (ap (λ m. m.serialized) (ok_same k)))

-- A message that one account must sign, and no other: the header says one signature and no readonly
-- signer, and the first of the account keys behind it is that account.
abbrev pub SignedBy : Bytes → Bytes → Type 0
SignedBy owner message =
    (readonly count : ℕ) × (rest : Bytes) × (message
      ≡ append_short_vec (1 ∷ 0 ∷ readonly ∷ []) count ++ owner ++ rest)

five_parts : (s o k b l y : Bytes) → s ++ (o ++ k) ++ b ++ l ++ y ≡ s ++ o ++ (k ++ (b ++ (l ++ y)))
five_parts s o k b l y = simp append_assoc refl

Led-head :
    (owner : Bytes) (merged : List AccountMeta) (blockhash : Bytes) (count : ℕ) (body : Bytes)
    → Led owner merged
    → SignedBy owner (message_head merged blockhash count ++ body)
unfolding of_rank append_short_vec
Led-head owner merged blockhash count body (rest, e, silent) =
    let more = of_rank false true rest ++ of_rank false false rest in
    let n = suc (length more) in
    let keys = concat (map (λ a. a.key) more) in
    let lengths = short_vec_loop count count in
    rw (e, Silent-of_rank true rest silent, Silent-of_rank false rest silent)
      (
        length (of_rank false false rest) % 256,
        n,
        keys ++ (blockhash ++ (lengths ++ body)),
        ap (λ x. 1 ∷ 0 ∷ length (of_rank false false rest) % 256 ∷ x)
            (five_parts (short_vec_loop n n) owner keys blockhash lengths body),
      )

-- A transaction for the owner's wallet: one signature slot, still empty, and a message that the owner
-- alone must sign.
abbrev pub ForOwner : Bytes → Bytes → Type 0
ForOwner owner tx =
    (message : Bytes) × SignedBy owner message × (tx ≡ append_short_vec [] 1 ++ zeros 64 ++ message)

unsigned-ForOwner :
    (owner : Bytes) (msg : CompiledMessage)
    → msg.num_signers ≡ 1
    → SignedBy owner msg.serialized
    → ForOwner owner (compile_unsigned_tx msg)
unfolding compile_unsigned_tx
unsigned-ForOwner owner msg one signed = (msg.serialized, signed, rw one refl)

build_unsigned-ForOwner :
    (blockhash : Option Bytes) (owner : Bytes) (ix : Instruction) {tx : Bytes}
    → Alone owner ix
    → build_unsigned blockhash owner (ix ∷ []) ≡ ok tx
    → ForOwner owner tx
unfolding build_unsigned
build_unsigned-ForOwner none owner ix alone h = absurd (cc)
build_unsigned-ForOwner (some bh) owner ix {tx} alone h =
    let ixs = with_priority (ix ∷ []) in
    let (msg, compiled, _, _, signers, _) = compile_message-Placed owner bh ixs in
    let (body, written) = compile_message-head owner bh ixs compiled in
    let signed = subst (SignedBy owner) (sym written) (
      Led-head owner (merge_accounts owner ixs) bh (length ixs) body (merged-Led owner ix alone)) in
    let h1 : ok (compile_unsigned_tx msg) ≡ ok tx = rw compiled at h in
    subst (ForOwner owner) (ok_same h1)
      (unsigned-ForOwner owner msg (signers ∙ one_signer owner ix alone) signed)

-- Whatever an owner asks for, a transfer of the session, a grant, a bump of its epoch or a revocation: a
-- transaction that is built for the wallet is a count of one signature, 64 zeros in its place, and a
-- message whose header asks for one signature, with no readonly signer, and whose first account key, in
-- the bytes behind the header and the count of keys, is the owner's.
pub build_owner_tx-ForOwner :
    (lib : Chain) (program_text : Bytes) (blockhash : Option Bytes) (owner session_key : Bytes)
    (request : OwnerRequest) {tx : Bytes}
    → build_owner_tx lib program_text blockhash owner session_key request ≡ ok tx
    → ForOwner (to_pubkey owner) tx
unfolding build_owner_tx
build_owner_tx-ForOwner lib program_text blockhash owner session_key request {tx} h =
    let asked = owner_ix lib program_text (to_pubkey owner) session_key request in
    let (ix, made, k) =
      step-ok asked (λ ix. build_unsigned blockhash (to_pubkey owner) (ix ∷ [])) h in
    let alone =
      Ensures-ok (Alone (to_pubkey owner)) asked
        (owner_ix-Alone lib program_text (to_pubkey owner) session_key request) made in
    build_unsigned-ForOwner blockhash (to_pubkey owner) ix alone k
