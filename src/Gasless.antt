-- ===== src/Gasless.antt =====
-- gasless.js, `signSolanaTransfer`: the payer's wallet signs one transfer, which a keeper relays.
pub mod Relayed
pub mod Evm
pub mod Outside
pub mod Starknet
pub mod Settlement
use open_beanie.Base.{
  ℕ, Bool, true, false, not, ◌==◌, ltb, all, if◌then◌else◌, List, [], ◌∷◌, Option, none, some, Text,
  codes, get_elem?,
}
use open_beanie.Base.Result.{Result, ok, err, ◌>>=◌, ◌>>◌, guard, pos}
use open_beanie.Base.Strings.{to_lower, has_part}
use open_beanie.Chains.{solana_chain}
use open_beanie.Chains.Ready.{can_gasless, or_empty}
use open_beanie.Onchain.{ChainError, rpc_error, big_int_of}
use open_beanie.Solana.Program.{ProgramError, pubkey, usdc_ata, bytes_equal}
use open_beanie.Solana.Transfer.{BuildError, TransferArgs, build_transfer_checked_message}
use open_beanie.Solana.Wire.{Transaction, unsigned_transaction, parse_transaction}

pub data SignError : Type 0 where
  from_chain : ChainError → SignError
  from_program : ProgramError → SignError
  from_build : BuildError → SignError
  not_available : SignError
  no_account : SignError
  not_enough : SignError
  wallet_refused : SignError
  malformed_transaction : SignError
  modified : SignError
  not_signed : SignError
  no_wallet : SignError
  wrong_network : Text → SignError
  cannot_sign : SignError
  unsupported_account : SignError

abbrev pub lift {ℓ} : {E : Type 0} {A : Type ℓ} → (E → SignError) → Result E A → Result SignError A
lift f (ok a) = ok a
lift f (err e) = err (f e)

abbrev pub or_fail {ℓ} : {A : Type ℓ} → SignError → Option A → Result SignError A
or_fail e none = err e
or_fail e (some a) = ok a

-- What is sent to the API, and the account that the transfer goes to.
pub record Payload : Type 0 where
  pub message : List ℕ
  pub signature : List ℕ
  pub owner : Text
  pub receiver_address : Text

abbrev pub keeper : Text
keeper = or_empty solana_chain.keeper

-- The second signature, which is the owner's, unless it is missing or all zeros.
unfoldable pub owner_signature : List (List ℕ) → Option (List ℕ)
owner_signature signatures = elim (get_elem? signatures 1) [
  | none ↦ none
  | some s ↦ if all (λ b. b == 0) s then none else some s
]

-- `account` is that of the wallet, `wallet` its signing of a transaction, `token_amount` is
-- getTokenAccountBalance, and `blockhash` getLatestBlockhash.
module _ (sha256 : List ℕ → List ℕ) (account : Option Text) (wallet : List ℕ → Option (List ℕ))
    (token_amount : Text → Result ChainError Text) (blockhash : Result ChainError Text) where
  -- No token account yet is a balance of 0.
  abbrev pub amount_of : Result ChainError Text → Result SignError ℕ
  unfolding big_int_of has_part to_lower
  amount_of (ok []) = ok 0
  amount_of (ok (c ∷ t)) = lift from_chain (big_int_of (c ∷ t))
  amount_of (err (rpc_error m)) =
      if has_part (to_lower m) (codes "could not find account")
      then ok 0
      else err (from_chain (rpc_error m))
  amount_of (err e) = err (from_chain e)

  unfoldable pub token_balance : Text → Result SignError ℕ
  unfolding amount_of
  token_balance owner = lift from_program (usdc_ata sha256 owner solana_chain.usdc) >>= λ ata.
      amount_of (token_amount ata)

  abbrev pub transfer_args : Text → Text → Text → ℕ → Text → TransferArgs
  transfer_args owner source destination n hash = record {
    fee_payer = keeper;
    owner = owner;
    source = source;
    destination = destination;
    mint = solana_chain.usdc;
    amount = pos n;
    decimals = 6;
    blockhash = hash;
  }

  -- What the wallet gave back: the same message, signed by the owner.
  unfoldable pub check_signed : List ℕ → List ℕ → Result SignError (List ℕ)
  unfolding owner_signature bytes_equal
  check_signed message bytes = or_fail malformed_transaction (parse_transaction bytes) >>= λ signed.
      guard (bytes_equal signed.message message) modified
      >> or_fail not_signed (owner_signature signed.signatures)

  unfoldable pub sign_message : Text → Text → List ℕ → Result SignError Payload
  unfolding check_signed
  sign_message owner destination message =
      or_fail wallet_refused (wallet (unsigned_transaction message 2)) >>= λ bytes.
      check_signed message bytes >>= λ signature. ok (record {
        message = message;
        signature = signature;
        owner = owner;
        receiver_address = destination;
      })

  -- `SOLANA_RECEIVER_KIND` is "wallet".
  unfoldable pub pay : Text → Text → ℕ → Result SignError Payload
  unfolding sign_message
  pay owner receiver n = lift from_program (usdc_ata sha256 owner solana_chain.usdc) >>= λ source.
      lift from_program (usdc_ata sha256 receiver solana_chain.usdc) >>= λ destination.
      lift from_chain blockhash >>= λ hash.
      lift from_build
        (build_transfer_checked_message (transfer_args owner source destination n hash))
      >>= λ message. sign_message owner destination message

  unfoldable pub sign_solana_transfer : Text → Text → Result SignError Payload
  unfolding pay token_balance big_int_of
  sign_solana_transfer receiver amount_raw =
      guard (can_gasless solana_chain) not_available >> lift from_program (pubkey keeper) >>= λ _.
      or_fail no_account account >>= λ owner. token_balance owner >>= λ balance.
      lift from_chain (big_int_of amount_raw) >>= λ n.
      guard (not (ltb balance n)) not_enough >> pay owner receiver n
