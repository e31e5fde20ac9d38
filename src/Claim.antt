-- ===== src/Claim.antt =====
-- stealth.claim.js: the payloads of claims, one builder for each kind of chain.
pub mod Message
pub mod Solana
pub mod Evm
pub mod Starknet
use open_beanie.Base.{ℕ, ◌≡◌, List, Option, none, some, Text}
use open_beanie.Base.Result.{Result, ok, err}
use open_beanie.Chains.{Bound}
use open_beanie.Onchain.{ChainError}
use open_beanie.Onchain.Accounts.{AccountError}
use open_beanie.Solana.Program.{ProgramError}
use open_beanie.Solana.Transfer.{BuildError}
use open_beanie.Stealth.{Account, Secret}

pub data ClaimError : Type 0 where
  from_chain : ChainError → ClaimError
  from_account : AccountError → ClaimError
  from_program : ProgramError → ClaimError
  from_build : BuildError → ClaimError
  invalid_destination : ClaimError
  own_account : ClaimError
  nothing_to_claim : ClaimError
  amount_too_large : ClaimError
  incomplete_config : ClaimError
  source_missing : ClaimError
  destination_missing : ClaimError
  no_blockhash : ClaimError
  message_too_long : ClaimError
  invalid_window : ClaimError
  expiry_outside : ClaimError
  bounds_missing : ClaimError
  bound_not_positive : Text → ClaimError
  above_fee_cap : ClaimError
  out_of_felt_range : ClaimError

abbrev pub lift {ℓ} :
    {E : Type 0} {A : Type ℓ} → (E → ClaimError) → Result E A → Result ClaimError A
lift f (ok a) = ok a
lift f (err e) = err (f e)

abbrev pub or_fail {ℓ} : {A : Type ℓ} → ClaimError → Option A → Result ClaimError A
or_fail e none = err e
or_fail e (some a) = ok a

-- `signer`, as the builders read it.
pub record Signer : Type 0 where
  pub address : Text
  pub public_key : Text
  pub private_key : Text
  pub client_address : Text
  pub salt : Option Text

abbrev pub signer_of : Account → Secret → Signer
signer_of a s = record {
  address = a.address;
  public_key = a.public_key;
  private_key = s.private_key;
  client_address = s.client_address;
  salt = s.salt;
}

pub data ClientSig : Type 0 where
  evm_sig : Text → Text → ℕ → ClientSig
  starknet_sig : Text → Text → ClientSig
  solana_sig : Text → ClientSig

pub record Call : Type 0 where
  pub contract_address : Text
  pub entrypoint : Text
  pub calldata : List Text

pub record Auth3009 : Type 0 where
  pub client : Text
  pub to : Text
  pub value : Text
  pub valid_after : Text
  pub valid_before : Text
  pub nonce : Text
  pub salt : Option Text

pub record StarknetPart : Type 0 where
  pub client_pubkey : Text
  pub deploy_salt : Option Text
  pub nonce : Text
  pub tip : Text
  pub l1_gas : Bound
  pub l2_gas : Bound
  pub l1_data_gas : Bound

-- What a builder returns.
pub record Built : Type 0 where
  pub tx_hash : Text
  pub derived_address : Text
  pub client_sig : ClientSig
  pub calls : List Call
  pub auth3009 : Option Auth3009
  pub starknet : Option StarknetPart
  pub message_bytes : Option Text

pub lift-eq_ok {ℓ} :
    {E : Type 0} {A : Type ℓ} (f : E → ClaimError) (r : Result E A) (a : A)
    → lift f r ≡ ok a
    → r ≡ ok a
lift-eq_ok f (ok b) a h = cc
lift-eq_ok f (err e) a h = cc

pub or_fail-eq_ok {ℓ} :
    {A : Type ℓ} (e : ClaimError) (o : Option A) (a : A) → or_fail e o ≡ ok a → o ≡ some a
or_fail-eq_ok e none a h = cc
or_fail-eq_ok e (some b) a h = cc
