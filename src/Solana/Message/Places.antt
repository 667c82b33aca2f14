-- ===== src/Solana/Message/Places.antt =====
-- walletsolana/tx.go: where compileMessage puts the accounts of a transaction.
use mosey.Base.{
  ℕ, ◌<◌, Bool, true, false, Option, none, some, List, [], ◌∷◌, ◌++◌, Bytes, map, length,
}
use mosey.Base.{bytes_eq, ok, ◌≡◌, ◌≢◌, refl, sym, ap, ◌∙◌, subst, arith}
use mosey.Base.{inl, inr}
use mathlib.Core.List.{Memᴰ}
use mathlib.Core.List.Memᴰ
use mosey.Base.Dict.{lookup}
use mosey.Solana.Message.{
  AccountMeta, Instruction, mentioned, program_meta, payer_meta, merge_accounts,
}
use mosey.Solana.Message.{of_rank, signers_of, ranked, index_accounts, CompiledMessage}
use mosey.Solana.Message.{instruction_at, instruction_bytes, message_head, compile_message}
use mosey.Solana.Message.Merged.{
  Unique, Has, Unique-add_accounts, add_accounts-Has, add_accounts-first,
}
use mosey.Solana.Message.Merged.{of_rank-own, of_rank_sound, Unique-same}
use mosey.Solana.Message.Index.{
  get, get-Memᴰ, get-append, get-map, Indexed, Known, index_accounts-Indexed, index_accounts-Known,
}

in_ranked :
    (signer writable : Bool) (merged : List AccountMeta) (a : AccountMeta)
    → Memᴰ a (of_rank signer writable merged)
    → Memᴰ a (ranked merged)
in_ranked true true merged a t = Memᴰ.append_left _ (Memᴰ.append_left _ t)
in_ranked true false merged a t =
    Memᴰ.append_left _ (Memᴰ.append_right (of_rank true true merged) t)
in_ranked false true merged a t = Memᴰ.append_right (signers_of merged) (Memᴰ.append_left _ t)
in_ranked false false merged a t =
    Memᴰ.append_right (signers_of merged) (Memᴰ.append_right (of_rank false true merged) t)

-- What stands behind the signers does not sign.
no_signer_behind :
    (merged : List AccountMeta) (a : AccountMeta)
    → Memᴰ a (of_rank false true merged ++ of_rank false false merged)
    → Memᴰ a merged × (a.is_signer ≡ false)
no_signer_behind merged a t = elim (Memᴰ.append_cases (of_rank false true merged) t) [
  | inl u ↦ of_rank_sound false true merged a u
  | inr u ↦ of_rank_sound false false merged a u
]

from_signers :
    (merged : List AccountMeta) (a : AccountMeta) → Memᴰ a (signers_of merged) → Memᴰ a merged
from_signers merged a t = elim (Memᴰ.append_cases (of_rank true true merged) t) [
  | inl u ↦ (of_rank_sound true true merged a u).0
  | inr u ↦ (of_rank_sound true false merged a u).0
]

from_ranked : (merged : List AccountMeta) (a : AccountMeta) → Memᴰ a (ranked merged) → Memᴰ a merged
from_ranked merged a t = elim (Memᴰ.append_cases (signers_of merged) t) [
  | inl u ↦ from_signers merged a u
  | inr u ↦ (no_signer_behind merged a u).0
]

-- A key has a place in the index, the account keys have it there, and a signer's is among the signers'.
abbrev pub Placed : List AccountMeta → AccountMeta → Type 0
Placed merged m =
    (i : ℕ) × (lookup bytes_eq m.key (index_accounts 0 [] (ranked merged)) ≡ some i)
    × (get i (map (λ x. x.key) (ranked merged)) ≡ some m.key)
    × (m.is_signer ≡ true → i < length (signers_of merged))

signer_low :
    (merged : List AccountMeta) (i : ℕ) (b : AccountMeta)
    → get i (ranked merged) ≡ some b
    → b.is_signer ≡ true
    → i < length (signers_of merged)
signer_low merged i b there signs =
    elim (get-append i (signers_of merged) (of_rank false true merged ++ of_rank false false merged)
      b there) [
        | inl low ↦ low
        | inr later ↦ (let f = (no_signer_behind merged b later).1 in absurd (cc))
      ]

lookup_nil : (k : Bytes) (j : ℕ) → lookup {V = ℕ} bytes_eq k [] ≢ some j
unfolding lookup
lookup_nil k j e = cc

Placed-at :
    (merged : List AccountMeta) (m a : AccountMeta) (j : ℕ)
    → Unique merged
    → Memᴰ a merged
    → a.key ≡ m.key
    → (m.is_signer ≡ true → a.is_signer ≡ true)
    → lookup bytes_eq a.key (index_accounts 0 [] (ranked merged)) ≡ some j
    → Indexed 0 [] (ranked merged) a.key j
    → Placed merged m
Placed-at merged m a j unique t same signs h (inl none_known) =
    absurd (lookup_nil a.key j none_known)
Placed-at merged m a j unique t same signs h (inr (d, b, e, there, key)) =
    let own : b ≡ a =
      Unique-same merged b a unique (from_ranked merged b (get-Memᴰ d (ranked merged) b there)) t
        key in
    let j_d : j ≡ d = omega (arith, e) in
    (
      d,
      rw⁻¹ (same, j_d) h,
      get-map d (ranked merged) b there ∙ ap some (key ∙ same),
      λ s. signer_low merged d b there (subst (λ x. x.is_signer ≡ true) (sym own) (signs s)),
    )

Has-Placed :
    (merged : List AccountMeta) (m : AccountMeta) → Unique merged → Has m merged → Placed merged m
Has-Placed merged m unique (a, t, same, signs, writes) =
    let member = in_ranked a.is_signer a.writable merged a (of_rank-own merged a t) in
    let (j, h) = index_accounts-Known (ranked merged) 0 [] a member in
    Placed-at merged m a j unique t same signs h
      (index_accounts-Indexed (ranked merged) 0 [] a.key j h)

instruction_at-ok :
    (index : List (Bytes × ℕ)) (ix : Instruction) (o : Option ℕ) (i : ℕ)
    → o ≡ some i
    → (b : Bytes) × (instruction_at index ix o ≡ ok b)
instruction_at-ok index ix none i h = absurd (cc)
instruction_at-ok index ix (some j) i h = (_, refl)

-- Where every program has a place, the instructions are written.
instruction_bytes-ok :
    (index : List (Bytes × ℕ)) (ixs : List Instruction)
    → ((ix : Instruction) → Memᴰ ix ixs → Known ix.program_id index)
    → (b : Bytes) × (instruction_bytes index ixs ≡ ok b)
unfolding instruction_bytes
instruction_bytes-ok index [] known = ([], refl)
instruction_bytes-ok index (ix ∷ ixs) known =
    let (i, h) = known ix (Memᴰ.head refl) in
    let (b, first) = instruction_at-ok index ix (lookup bytes_eq ix.program_id index) i h in
    let (more, rest) = instruction_bytes-ok index ixs (λ x t. known x (Memᴰ.tail t)) in
    (b ++ more, rw (first, rest) refl)

mentioned-Memᴰ :
    (ixs : List Instruction) (ix : Instruction) (m : AccountMeta)
    → Memᴰ ix ixs
    → Memᴰ m ix.accounts
    → Memᴰ m (mentioned ixs)
mentioned-Memᴰ [] ix m s t = elim s [ ]
mentioned-Memᴰ (x ∷ ixs) ix m (Memᴰ.head e) t =
    Memᴰ.append_left _ (subst (λ y. Memᴰ m y.accounts) e t)
mentioned-Memᴰ (x ∷ ixs) ix m (Memᴰ.tail s) t =
    Memᴰ.append_right x.accounts (mentioned-Memᴰ ixs ix m s t)

programs-Memᴰ :
    (ixs : List Instruction) (ix : Instruction)
    → Memᴰ ix ixs
    → Memᴰ (program_meta ix) (map program_meta ixs)
programs-Memᴰ [] ix t = elim t [ ]
programs-Memᴰ (x ∷ ixs) ix (Memᴰ.head e) = Memᴰ.head (ap program_meta e)
programs-Memᴰ (x ∷ ixs) ix (Memᴰ.tail t) = Memᴰ.tail (programs-Memᴰ ixs ix t)

payer_first :
    (fee_payer : Bytes) (ixs : List Instruction)
    → (rest : List Bytes) × (map (λ x. x.key) (ranked (merge_accounts fee_payer ixs))
        ≡ fee_payer ∷ rest)
unfolding of_rank
payer_first fee_payer ixs =
    let (rest, e) = add_accounts-first (mentioned ixs ++ map program_meta ixs) fee_payer [] in
    rw e (_, refl)

-- compileMessage always gives a message. Its first account key is the fee payer; every account and every
-- program of the instructions has a place in its index, where the account keys have its key; and the place
-- of an account that must sign is among those of the signers.
pub compile_message-Placed :
    (fee_payer blockhash : Bytes) (ixs : List Instruction)
    → (msg : CompiledMessage) × (compile_message fee_payer blockhash ixs ≡ ok msg)
      × ((rest : List Bytes) × (msg.account_keys ≡ fee_payer ∷ rest))
      × (msg.account_keys ≡ map (λ x. x.key) (ranked (merge_accounts fee_payer ixs)))
      × (msg.num_signers ≡ length (signers_of (merge_accounts fee_payer ixs)))
      × ((ix : Instruction)
          → Memᴰ ix ixs
          → Placed (merge_accounts fee_payer ixs) (program_meta ix)
            × ((m : AccountMeta) → Memᴰ m ix.accounts → Placed (merge_accounts fee_payer ixs) m))
unfolding compile_message
compile_message-Placed fee_payer blockhash ixs =
    let merged = merge_accounts fee_payer ixs in
    let all = mentioned ixs ++ map program_meta ixs in
    let unique : Unique merged = Unique-add_accounts all (payer_meta fee_payer ∷ []) (tt, tt) in
    let program : (ix : Instruction) → Memᴰ ix ixs → Placed merged (program_meta ix) = λ ix t.
      Has-Placed merged (program_meta ix) unique (
        add_accounts-Has all (payer_meta fee_payer ∷ []) (program_meta ix)
          (Memᴰ.append_right (mentioned ixs) (programs-Memᴰ ixs ix t))) in
    let account : (ix : Instruction)
        → Memᴰ ix ixs
        → (m : AccountMeta) → Memᴰ m ix.accounts
        → Placed merged m =
      λ ix t m u. Has-Placed merged m unique (
        add_accounts-Has all (payer_meta fee_payer ∷ []) m
          (Memᴰ.append_left (map program_meta ixs) (mentioned-Memᴰ ixs ix m t u))) in
    let (body, written) =
      instruction_bytes-ok (index_accounts 0 [] (ranked merged)) ixs
        (λ ix t. let (i, h, _, _) = program ix t in (i, h)) in
    (
      record {
        account_keys = map (λ x. x.key) (ranked merged);
        num_signers = length (signers_of merged);
        serialized = message_head merged blockhash (length ixs) ++ body;
      },
      rw written refl,
      payer_first fee_payer ixs,
      refl,
      refl,
      λ ix t. (program ix t, account ix t),
    )
