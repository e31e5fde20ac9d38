-- ===== src/Claim/Message.antt =====
-- stealth.claim.js, the message of a claim on Solana: `shortvec`, `u64le` and `buildSolanaMessage`.
pub mod Layout
use open_beanie.Base.{
  ℕ, zero, suc, ◌+◌, ◌%◌, ◌^◌, Bool, ◌==◌, leb, if◌then◌else◌, List, [], ◌∷◌, ◌++◌, Option, none,
  some, Text, length, concat,
}
use open_beanie.Base.Bits.{low_bits, shr}
use open_beanie.Base.Result.{Result, ok, ℤ, pos, negsuc, ◌>>=◌, ◌>>◌, guard}
use open_beanie.Solana.Base58.{pubkey_bytes}
use open_beanie.Solana.Transfer.{
  BuildError, not_distinct, invalid_blockhash, amount_out_of_range, token_program, set_size,
  or_throw, key_bytes,
}

-- `while (true)`: seven bits of `n` in each round, with the bit 128 while more follow. `n + 1`
-- rounds are enough.
unfoldable pub varint_loop : ℕ → ℕ → List ℕ
varint_loop zero n = []
varint_loop (suc fuel) n =
    let b = low_bits n 7 in
    let more = (b + 128) ∷ varint_loop fuel (shr n 7) in if shr n 7 == 0 then b ∷ [] else more

unfoldable pub varint : ℕ → List ℕ
unfolding varint_loop
varint n = varint_loop (n + 1) n

-- `out[i] = Number(n & 0xffn); n >>= 8n`
unfoldable pub amount_loop : ℕ → ℕ → List ℕ
amount_loop zero n = []
amount_loop (suc k) n = low_bits n 8 ∷ amount_loop k (shr n 8)

-- `none` is the thrown "Solana transfer amount is out of range."
unfoldable pub amount_bytes : ℤ → Option (List ℕ)
unfolding amount_loop
amount_bytes (pos n) = if leb (2 ^ 64) n then none else some (amount_loop 8 n)
amount_bytes (negsuc n) = none

pub record ClaimArgs : Type 0 where
  pub relayer : Text
  pub client : Text
  pub cosigner : Text
  pub source : Text
  pub destination : Text
  pub mint : Text
  pub amount : ℤ
  pub blockhash : Text
  pub authority : Text

-- The accounts of the message, in its order.
abbrev pub claim_accounts : ClaimArgs → List Text
claim_accounts a =
    a.relayer ∷ a.client ∷ a.cosigner ∷ a.source ∷ a.destination ∷ a.mint ∷ token_program
    ∷ a.authority ∷ []

-- source, mint, destination, authority, and the two signers of the multisig
abbrev pub claim_ix_accounts : List ℕ
claim_ix_accounts = 3 ∷ 5 ∷ 4 ∷ 7 ∷ 1 ∷ 2 ∷ []

-- 12 is TransferChecked, and `USDC_DECIMALS` is 6.
abbrev pub claim_data : List ℕ → List ℕ
claim_data amount = (12 ∷ []) ++ (amount ++ (6 ∷ []))

-- 3 signatures, 2 readonly signed and 3 readonly unsigned accounts; the keys; the blockhash; one
-- instruction, its program the account 6.
unfoldable pub claim_message : List (List ℕ) → List ℕ → List ℕ → List ℕ
unfolding varint
claim_message keys hash data_bytes =
    (3 ∷ 2 ∷ 3 ∷ [])
    ++ (varint (length keys)
        ++ (concat keys
            ++ (hash
                ++ (varint 1
                    ++ ((6 ∷ [])
                        ++ (varint 6
                            ++ (claim_ix_accounts
                                ++ (varint (length data_bytes) ++ data_bytes))))))))

unfoldable pub build_solana_message : ClaimArgs → Result BuildError (List ℕ)
unfolding key_bytes set_size claim_message or_throw amount_bytes
build_solana_message a = do
  guard (set_size (claim_accounts a) == 8) not_distinct
  keys ← key_bytes 0 (claim_accounts a)
  amount ← or_throw amount_out_of_range (amount_bytes a.amount)
  hash ← or_throw invalid_blockhash (pubkey_bytes a.blockhash)
  ok (claim_message keys hash (claim_data amount))
