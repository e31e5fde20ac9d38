-- ===== src/Solana/Transfer.antt =====
-- solana.js, `buildTransferCheckedMessage`: the legacy message with one SPL TransferChecked.
pub mod Layout
use open_beanie.Base.{
  ℕ, zero, suc, ◌+◌, ◌%◌, ◌≡◌, refl, Bool, true, false, not, ◌==◌, ◌||◌, if◌then◌else◌, List, [],
  ◌∷◌, ◌++◌, Option, none, some, Text, text_eq, codes, length, concat,
}
use open_beanie.Base.Result.{Result, ok, err, ℤ, ◌>>=◌, ◌>>◌, guard}
use open_beanie.Solana.Base58.{pubkey_bytes}
use open_beanie.Solana.Wire.{shortvec, u64_le}

abbrev pub token_program : Text
token_program = codes "TokenkegQfeZyiNwAJbNbGKPFXCWuBvf9Ss623VQ5DA"

-- The errors that are thrown; `invalid_key i` is "Invalid Solana key i."
pub data BuildError : Type 0 where
  invalid_key : ℕ → BuildError
  not_distinct : BuildError
  invalid_blockhash : BuildError
  amount_out_of_range : BuildError

pub record TransferArgs : Type 0 where
  pub fee_payer : Text
  pub owner : Text
  pub source : Text
  pub destination : Text
  pub mint : Text
  pub amount : ℤ
  pub decimals : ℕ
  pub blockhash : Text

-- The accounts of the message, in its order.
abbrev pub accounts : TransferArgs → List Text
accounts a = a.fee_payer ∷ a.owner ∷ a.source ∷ a.destination ∷ a.mint ∷ token_program ∷ []

unfoldable pub includes : Text → List Text → Bool
includes t [] = false
includes t (s ∷ ss) = text_eq t s || includes t ss

-- `new Set(texts).size`
unfoldable pub set_size : List Text → ℕ
set_size [] = 0
set_size (t ∷ ts) = if includes t ts then set_size ts else suc (set_size ts)

unfoldable pub or_throw {ℓ} : {A : Type ℓ} → BuildError → Option A → Result BuildError A
or_throw e none = err e
or_throw e (some a) = ok a

-- `keys.map((k, i) => pubkeyBytes(k, `key ${i}`))`, from the index `i` on.
unfoldable pub key_bytes : ℕ → List Text → Result BuildError (List (List ℕ))
unfolding or_throw
key_bytes i [] = ok []
key_bytes i (k ∷ ks) =
    let rest = key_bytes (i + 1) ks in
    do b ← or_throw (invalid_key i) (pubkey_bytes k); bs ← rest; ok (b ∷ bs)

-- source, mint, destination, owner
abbrev pub ix_accounts : List ℕ
ix_accounts = 2 ∷ 4 ∷ 3 ∷ 1 ∷ []

-- The parts of the message in order: 2 signatures, 1 readonly signed and 2 readonly unsigned; the
-- keys; the blockhash; one instruction, its program the account 5, its accounts and its data.
unfoldable pub message_of : List (List ℕ) → List ℕ → List ℕ → List ℕ
message_of keys hash data_bytes =
    (2 ∷ 1 ∷ 2 ∷ [])
    ++ (shortvec (length keys)
        ++ (concat keys
            ++ (hash
                ++ (shortvec 1
                    ++ ((5 ∷ [])
                        ++ (shortvec (length ix_accounts)
                            ++ (ix_accounts ++ (shortvec (length data_bytes) ++ data_bytes))))))))

-- 12 is TransferChecked. A `Uint8Array` takes `decimals` modulo 256.
abbrev pub instruction_data : List ℕ → ℕ → List ℕ
instruction_data amount decimals = (12 ∷ []) ++ (amount ++ (decimals % 256 ∷ []))

unfoldable pub build_transfer_checked_message : TransferArgs → Result BuildError (List ℕ)
unfolding key_bytes set_size includes message_of or_throw
build_transfer_checked_message a = do
  keys ← key_bytes 0 (accounts a)
  guard (set_size (accounts a) == 6) not_distinct
  hash ← or_throw invalid_blockhash (pubkey_bytes a.blockhash)
  amount ← or_throw amount_out_of_range (u64_le a.amount)
  ok (message_of keys hash (instruction_data amount a.decimals))
