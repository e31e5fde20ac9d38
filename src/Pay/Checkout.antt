-- ===== src/Pay/Checkout.antt =====
-- pay.js, the press of "Pay with Beanie" in `renderCard`: the amount, the signer of the chain, what
-- is submitted, and on Solana the wait for the outcome. Wallets, the API and the network are the
-- record Wallets.
pub mod Sound
use open_beanie.Base.{
  ℕ, ◌-◌, Bool, true, false, not, ◌&&◌, ◌||◌, if◌then◌else◌, List, [], ◌∷◌, ◌++◌, Option, none,
  some, Text, codes,
}
use open_beanie.Base.Result.{Result, ok, err, ◌>>=◌, ◌>>◌, guard}
use open_beanie.Base.Strings.{to_string}
use open_beanie.Amounts.{usdc_decimals, parse_decimal}
use open_beanie.Chains.{Kind, evm, starknet, solana, Chain, chains, find_chain, has_text}
use open_beanie.Chains.Ready.{can_gasless, keeper_starknet_address}
use open_beanie.Onchain.{ChainError}
use open_beanie.Gasless.{SignError, Payload, sign_solana_transfer}
use open_beanie.Gasless.Evm.{EvmWallet, EvmPayload, sign_evm_transfer}
use open_beanie.Gasless.Starknet.{
  StarknetWallet, StarknetJs, StarknetPayload, sign_starknet_transfer,
}
use open_beanie.Gasless.Settlement.{Settled, Settlement, Answers, await_solana_settlement}
use open_beanie.Pay.{Params, Route, Link, get_param, or_else}

pub data PayError : Type 0 where
  no_gasless : PayError
  invalid_amount : PayError
  not_signed : SignError → PayError
  not_submitted : PayError

pub data Signature : Type 0 where
  evm_signature : EvmPayload → Signature
  starknet_signature : StarknetPayload → Signature
  solana_signature : Payload → Signature

-- What `api.submitPayment` is given.
pub record Payment : Type 0 where
  pub chain : Text
  pub merchant_address : Text
  pub receiver_address : Text
  pub destination_chain : Text
  pub tx_ref : Text
  pub from_address : Text
  pub amount_raw : Text
  pub signature : Signature

-- What a signer gives: the payload and its payer, and on Solana the account that is paid and what
-- the wait needs.
pub record SignedPay : Type 0 where
  pub signature : Signature
  pub from : Text
  pub receiver_address : Option Text
  pub settlement : Option Settlement

-- The wallets of the browser, the answers of the networks, the clock and the random numbers.
pub record Wallets : Type 0 where
  pub evm_wallet : Option EvmWallet
  pub starknet_wallet : Option StarknetWallet
  pub starknet_js : StarknetJs
  pub supports : Text → Text → Result ChainError (List Text)
  pub solana_account : Option Text
  pub solana_wallet : List ℕ → Option (List ℕ)
  pub token_amount : Text → Result ChainError Text
  pub blockhash : Result ChainError Text
  pub last_valid_block_height : ℕ
  pub head : Result ChainError ℕ
  pub sha256 : List ℕ → List ℕ
  pub now : ℕ
  pub random : List ℕ
  pub submit : Payment → Result PayError (Unit {0})
  pub answers : ℕ → Answers
  pub max_pages : ℕ

abbrev pub lift {ℓ} : {A : Type ℓ} → Result SignError A → Result PayError A
lift (ok a) = ok a
lift (err e) = err (not_signed e)

abbrev pub or_throw {ℓ} : {A : Type ℓ} → PayError → Option A → Result PayError A
or_throw e none = err e
or_throw e (some a) = ok a

abbrev pub is_starknet : Kind → Bool
is_starknet starknet = true
is_starknet _ = false

-- `gaslessOk`
unfoldable pub gasless_ok : Link → Chain → Bool
unfolding can_gasless
gasless_ok link chain =
    has_text (some link.target)
    && has_text (some link.merchant)
    && can_gasless chain
    && (not (is_starknet chain.kind) || has_text (some keeper_starknet_address))

-- `Math.max(0, (await headBlock(…).catch(() => 0)) - 5)`
abbrev pub from_slot : Result ChainError ℕ → ℕ
from_slot (ok n) = n - 5
from_slot (err _) = 0

-- `params.get("ref") || …`
abbrev pub reference : Params → ℕ → Text
unfolding get_param to_string
reference ps now = or_else (get_param (codes "ref") ps) (codes "beanie-" ++ to_string 36 now)

module _ (w : Wallets) where
  abbrev pub evm_signed : EvmPayload → SignedPay
  evm_signed p = record {
    signature = evm_signature p;
    from = p.message.from;
    receiver_address = none;
    settlement = none;
  }

  abbrev pub starknet_signed : StarknetPayload → SignedPay
  starknet_signed p = record {
    signature = starknet_signature p;
    from = p.user_address;
    receiver_address = none;
    settlement = none;
  }

  abbrev pub solana_signed : Text → Text → Payload → SignedPay
  solana_signed receiver amount_raw p = record {
    signature = solana_signature p;
    from = p.owner;
    receiver_address = some p.receiver_address;
    settlement = some (record {
      receiver = receiver;
      owner = p.owner;
      amount_raw = amount_raw;
      from_slot = from_slot w.head;
      last_valid_block_height = w.last_valid_block_height;
    });
  }

  -- The signer of a kind of chain, for a receiver and an amount.
  unfoldable pub sign_for : Kind → Text → Text → Text → Result SignError SignedPay
  unfolding sign_evm_transfer sign_starknet_transfer sign_solana_transfer
  sign_for evm key receiver amount_raw =
      sign_evm_transfer w.evm_wallet w.now w.random key receiver amount_raw >>= λ p.
      ok (evm_signed p)
  sign_for starknet key receiver amount_raw =
      sign_starknet_transfer w.starknet_js w.supports w.starknet_wallet w.now w.random receiver
        amount_raw
      >>= λ p. ok (starknet_signed p)
  sign_for solana key receiver amount_raw =
      sign_solana_transfer w.sha256 w.solana_account w.solana_wallet w.token_amount w.blockhash
        receiver amount_raw
      >>= λ p. ok (solana_signed receiver amount_raw p)

  -- `signed.receiverAddress ?? route.address`
  abbrev pub paid_account : Text → Option Text → Text
  paid_account address none = address
  paid_account address (some a) = a

  abbrev pub payment_of : Params → Link → Chain → Text → Text → SignedPay → Payment
  unfolding get_param to_string
  payment_of ps link chain address amount_raw s = record {
    chain = chain.key;
    merchant_address = link.merchant;
    receiver_address = paid_account address s.receiver_address;
    destination_chain = link.target;
    tx_ref = reference ps w.now;
    from_address = s.from;
    amount_raw = amount_raw;
    signature = s.signature;
  }

  abbrev pub outcome : Option Settlement → Option Settled
  unfolding await_solana_settlement
  outcome none = none
  outcome (some s) = some (await_solana_settlement w.sha256 w.answers w.max_pages s)

  -- A press of the button, for the route that is active and the text of the input.
  unfoldable pub pay_route :
      Params → Link → Route → Text → Result PayError (Payment × Option Settled)
  unfolding find_chain gasless_ok parse_decimal sign_for get_param to_string await_solana_settlement
  pay_route ps link route input = or_throw no_gasless (find_chain route.chain chains) >>= λ chain.
      guard (gasless_ok link chain) no_gasless >>= λ _.
      or_throw invalid_amount (parse_decimal input usdc_decimals) >>= λ amount_raw.
      lift (sign_for chain.kind chain.key route.address amount_raw) >>= λ s.
      let payment = payment_of ps link chain route.address amount_raw s in
      w.submit payment >>= λ _. ok (payment, outcome s.settlement)
